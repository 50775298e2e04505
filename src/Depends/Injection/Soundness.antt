-- ===== src/Depends/Injection/Soundness.antt =====
-- What each step of a resolution keeps: the registry only knows injectable functions, and the set of
-- functions being resolved holds, besides those that are resolved, only ones on the way to the
-- current function.
use stratae.Prelude.{
  ℕ, zero, suc, ◌+◌, ◌≤◌, ◌<◌, Bool, true, false, Option, none, some, ◌==◌, not, ◌≡◌, refl, ◌⊎◌,
  inl, inr, arith, Bool-cases, ==_iff,
}
use stratae.Depends.Injection.{
  Func, Answer, wraps, refused, exhausted, Resolved, not_injected, injected, rejected, unfinished,
  Registry, mark,
}
use stratae.Depends.Injection.Graph.{IsInjectable, Route, injected_of}

abbrev pub one_if : Bool → ℕ
one_if true = 1
one_if false = 0

-- How many of the first functions are not being resolved.
pub unmarked : ℕ → (ℕ → Bool) → ℕ
unmarked zero set = 0
unmarked (suc n) set = unmarked n set + one_if (not (set n))

unmarked-le :
    (n : ℕ) (set set' : ℕ → Bool)
    → ((g : ℕ) → set g ≡ true → set' g ≡ true)
    → unmarked n set' ≤ unmarked n set
unfolding unmarked
unmarked-le zero set set' h = omega arith
unmarked-le (suc n) set set' h = ground (arith, unmarked-le n set set' h, h n)

unmarked-mark_above : (n f : ℕ) (set : ℕ → Bool) → n ≤ f → unmarked n (mark f set) ≡ unmarked n set
unfolding unmarked
unmarked-mark_above zero f set h = refl
unmarked-mark_above (suc n) f set h = ground (arith, unmarked-mark_above n f set)

pub unmarked-mark :
    (n f : ℕ) (set : ℕ → Bool)
    → f < n
    → set f ≡ false
    → unmarked n (mark f set) + 1 ≡ unmarked n set
unfolding unmarked
unmarked-mark zero f set h e = absurd (omega arith)
unmarked-mark (suc n) f set h e = elim (Bool-cases (n == f)) [
  | inl i ↦ rw ((==_iff n f).0 i) (ground (arith, unmarked-mark_above f f set, e))
  | inr d ↦ ground (arith, unmarked-mark n f set)
]

pub unmarked-none : (n : ℕ) → unmarked n (λ g. false) ≡ n
unfolding unmarked
unmarked-none zero = refl
unmarked-none (suc n) = omega (arith, unmarked-none n)

module _ (funcs : ℕ → Func) (count : ℕ) where
  abbrev pub IsSound : Registry → Type 0
  IsSound s = (g : ℕ) → s.resolved g ≡ true → IsInjectable funcs g

  -- From a registry to a later one.
  pub record Grows (s s' : Registry) : Type 0 where
    pub sound : IsSound s'
    pub resolving : (g : ℕ) → s.resolving g ≡ true → s'.resolving g ≡ true
    pub resolved : (g : ℕ) → s.resolved g ≡ true → s'.resolved g ≡ true

  pub Grows-refl : (s : Registry) → IsSound s → Grows s s
  Grows-refl s h = record { sound = h; resolving = λ g e. e; resolved = λ g e. e }

  pub Grows-trans : (s s' s'' : Registry) → Grows s s' → Grows s' s'' → Grows s s''
  Grows-trans s s' s'' h k = record {
    sound = k.sound;
    resolving = λ g e. k.resolving g (h.resolving g e);
    resolved = λ g e. k.resolved g (h.resolved g e);
  }

  pub Grows-unmarked :
      (s s' : Registry) → Grows s s' → unmarked count s'.resolving ≤ unmarked count s.resolving
  Grows-unmarked s s' h = unmarked-le count s.resolving s'.resolving h.resolving

  -- A function that is being resolved is resolved, or on the way to `f`.
  abbrev pub AreAbove : Registry → ℕ → Type 0
  AreAbove s f = (g : ℕ) → s.resolving g ≡ true → (s.resolved g ≡ true) ⊎ Route funcs g f

  -- The set gained only functions that are resolved, and those of `new`.
  abbrev pub GainsOnly : Registry → Registry → (ℕ → Type 0) → Type 0
  GainsOnly s s' new =
      (g : ℕ) → s'.resolving g ≡ true → (s.resolving g ≡ true) ⊎ ((s'.resolved g ≡ true) ⊎ new g)

  abbrev pub Verdict : ℕ → Registry → Answer × Registry → Type 0
  Verdict f s (wraps deps, s') =
      IsInjectable funcs f × (deps ≡ injected_of funcs f) × GainsOnly s s' (λ g. g ≡ f)
  Verdict f s (refused e, s') = ¬ IsInjectable funcs f
  Verdict f s (exhausted, s') = ⊥

  -- What resolving a function comes to, where `fuel` is left.
  abbrev pub Decides : ℕ → (ℕ → Registry → Answer × Registry) → Type 0
  Decides fuel rec =
      (f : ℕ) (s : Registry)
      → f < count
      → unmarked count s.resolving < fuel
      → IsSound s
      → AreAbove s f
      → (s.resolving f ≡ true → s.resolved f ≡ false)
      → Grows s (rec f s).1 × Verdict f s (rec f s)

  -- What resolving a parameter of `f` comes to.
  abbrev pub ParamVerdict : Option ℕ → Bool → Registry → Resolved × Registry → Type 0
  ParamVerdict o d s (not_injected, s') = (o ≡ none) × GainsOnly s s' (λ g. ⊥)
  ParamVerdict o d s (injected q, s') =
      (o ≡ some q) × (d ≡ false) × IsInjectable funcs q × GainsOnly s s' (λ g. ⊥)
  ParamVerdict o d s (rejected e, s') =
      (q : ℕ) × (o ≡ some q) × (d ≡ false → ¬ IsInjectable funcs q)
  ParamVerdict o d s (unfinished, s') = ⊥
