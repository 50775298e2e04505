-- ===== src/Depends/Injection/Graph.antt =====
-- The graph of dependencies, and what it takes for a function to be injectable: a definition that
-- does not speak of the resolution's order, registry or set.
use stratae.Prelude.{
  ℕ, Bool, true, false, Option, none, some, List, [], ◌∷◌, ◌==◌, ◌&&◌, ◌||◌, if◌then◌else◌, ◌≡◌,
}
use stratae.Depends.Injection.{
  Param, Func, provider_of, any_quoted, is_postponed, rejects_object, rejects_async,
}

abbrev pub and_needs : Option ℕ → List ℕ → List ℕ
and_needs none qs = qs
and_needs (some q) qs = q ∷ qs

-- The providers of the injected parameters, in order.
abbrev pub needs : List Param → List ℕ
needs [] = []
needs (p ∷ ps) = and_needs (provider_of p.annotation) (needs ps)

abbrev pub has : ℕ → List ℕ → Bool
has q [] = false
has q (x ∷ xs) = if q == x then true else has q xs

abbrev pub is_some : Option ℕ → Bool
is_some none = false
is_some (some q) = true

-- An injected parameter has a default.
abbrev pub any_default : List Param → Bool
any_default [] = false
any_default (p ∷ ps) = (is_some (provider_of p.annotation) && p.has_default) || any_default ps

module _ (funcs : ℕ → Func) where
  abbrev pub Needs : ℕ → ℕ → Type 0
  Needs f q = (funcs f).is_wrapper ≡ false × (has q (needs (funcs f).params) ≡ true)

  -- The function's own signature can be injected.
  pub record IsFit (f : ℕ) : Type 0 where
    pub live : is_postponed (funcs f) ≡ false
    pub evaluated : any_quoted (funcs f).params ≡ false
    pub free : any_default (funcs f).params ≡ false
    pub function : rejects_object funcs (funcs f) (needs (funcs f).params) ≡ false
    pub awaits : rejects_async funcs (funcs f) (needs (funcs f).params) ≡ false

  -- A function is injectable if it is a wrapper already, or its signature can be injected and all
  -- that it needs is injectable. As this is well-founded, nothing needs itself.
  pub data IsInjectable : ℕ → Type 0 where
    wrapped : {f : ℕ} → (funcs f).is_wrapper ≡ true → IsInjectable f
    fit : {f : ℕ} → IsFit f → ((q : ℕ) → Needs f q → IsInjectable q) → IsInjectable f

  -- One or more steps from a function to what it needs.
  pub data Route : ℕ → ℕ → Type 0 where
    one : {f q : ℕ} → Needs f q → Route f q
    more : {f q g : ℕ} → Needs f q → Route q g → Route f g

  pub snoc : {f g q : ℕ} → Route f g → Needs g q → Route f q
  snoc (one n) m = more n (one m)
  snoc (more n p) m = more n (snoc p m)

  pub acyclic : {f : ℕ} → IsInjectable f → Route f f → ⊥
  acyclic (wrapped w) (one n) = cc (n.0)
  acyclic (wrapped w) (more n p) = cc (n.0)
  acyclic (fit h sub) (one n) = acyclic (sub _ n) (one n)
  acyclic (fit h sub) (more n p) = acyclic (sub _ n) (snoc p n)

  pub Needs-IsInjectable : {f : ℕ} → IsInjectable f → (q : ℕ) → Needs f q → IsInjectable q
  Needs-IsInjectable (wrapped w) q n = absurd (cc (n.0))
  Needs-IsInjectable (fit h sub) q n = sub q n

  pub IsFit-of : {f : ℕ} → (funcs f).is_wrapper ≡ false → IsInjectable f → IsFit f
  IsFit-of w (wrapped v) = absurd (cc w)
  IsFit-of w (fit h sub) = h

  -- What the wrapper of a function injects.
  abbrev pub injected_of : ℕ → List ℕ
  injected_of f = if (funcs f).is_wrapper then [] else needs (funcs f).params
