-- ===== src/Python.antt =====
-- What the modelled code takes from the language: exception objects with an identity and a class,
-- calls that return or raise, and context variables.
pub mod Dict
use stratae.Prelude.{ℕ, Bool, true, false, Option, none, some, List, [], ◌∷◌, ◌==◌, ◌||◌, ◌≡◌}

-- The built-in classes that the code tells apart. `exception` is any other subclass of
-- `Exception`, and `base_exception` any other `BaseException` that is not an `Exception`.
pub data Kind : Type 0 where
  stop_iteration stop_async_iteration runtime_error type_error not_connected connection_error
        exception cancelled_error base_exception :
      Kind

-- An exception object: `is` compares `id`, and `cause` is the identity of `__cause__`.
pub record Exc : Type 0 where
  pub id : ℕ
  pub kind : Kind
  pub cause : Option ℕ

-- `isinstance(e, Exception)`
abbrev pub is_exception : Kind → Bool
is_exception cancelled_error = false
is_exception base_exception = false
is_exception _ = true

-- `e is f`
abbrev pub is_same : Exc → Exc → Bool
is_same e f = e.id == f.id

-- `e is f` where either may be `None`
abbrev pub is_same? : Option Exc → Option Exc → Bool
is_same? none none = true
is_same? none (some f) = false
is_same? (some e) none = false
is_same? (some e) (some f) = is_same e f

-- `any(e is f for f in fs)`
abbrev pub any_same : Exc → List Exc → Bool
any_same e [] = false
any_same e (f ∷ fs) = is_same e f || any_same e fs

-- A call of code that may raise.
pub data Outcome {ℓ} (A : Type ℓ) : Type ℓ where
  returned : A → Outcome A
  raised : Exc → Outcome A

-- The errors among some outcomes, in order.
abbrev pub errors : {A : Type 0} → List (Outcome A) → List Exc
errors [] = []
errors (returned _ ∷ os) = errors os
errors (raised e ∷ os) = e ∷ errors os

-- The outcome is a result or an ordinary error, and no interrupt.
abbrev pub IsOrdinary : {A : Type 0} → Outcome A → Type 0
IsOrdinary (returned _) = Unit {0}
IsOrdinary (raised e) = is_exception e.kind ≡ true

-- Texts are only compared, joined and tested for being empty here, so a text is a number, and the
-- empty one is 0.
abbrev pub Text : Type 0
Text = ℕ
