-- ===== src/Lifecycle/Scope/Rollback.antt =====
-- Activations that fail, and activations that end at once.
use stratae.Prelude.{
  ℕ, ◌+◌, ◌-◌, Bool, true, false, Option, none, some, List, [], ◌∷◌, ◌==◌, length, ◌≡◌, refl, ap,
  arith, Bool-cases, Option-cases, inl, inr,
}
use stratae.Lifecycle.Scope.{
  Storage, State, ScopeConfig, update, is_live, count_one, uncount_one, release, Activated,
  activated, required_scope_inactive, scope_already_active, get_var, set_var, set_unless,
  count_parent, with_parent, activate,
}
use stratae.Lifecycle.Scope.Heap.{length-update}

pub uncount_one-count_one :
    (a : ℕ) (xs : List Storage) → update a uncount_one (update a count_one xs) ≡ xs
unfolding update
uncount_one-count_one a [] = refl
uncount_one-count_one a (x ∷ xs) = elim (Bool-cases (a == length xs)) [
  | inl h ↦
      let back : x.dependents + 1 - 1 ≡ x.dependents = omega arith in
      rw h (rw h (ap (λ n. record x { dependents = n } ∷ xs) back))
  | inr h ↦
      rw h
        (rw (length-update a count_one xs) (rw h (ap (λ ys. x ∷ ys) (uncount_one-count_one a xs))))
]

-- Unless something was activated, the state is what it was.
abbrev pub IsUnchanged : State → Activated × State → Type 0
IsUnchanged s (activated a, s') = Unit {0}
IsUnchanged s (required_scope_inactive, s') = s' ≡ s
IsUnchanged s (scope_already_active, s') = s' ≡ s

module _ (configs : ℕ → ScopeConfig) where
  set_unless-IsUnchanged :
      (context scope : ℕ) (parent held : Option ℕ) (shared : Bool) (s s' : State)
      → release parent s' ≡ s
      → IsUnchanged s (set_unless configs context scope parent held shared s')
  set_unless-IsUnchanged context scope parent (some a) true s s' h = h
  set_unless-IsUnchanged context scope parent none true s s' h = tt
  set_unless-IsUnchanged context scope parent held false s s' h = tt

  count_parent-IsUnchanged :
      (context scope p : ℕ) (live : Bool) (s : State)
      → IsUnchanged s (count_parent configs (set_var configs context scope) p live s)
  unfolding set_var release
  count_parent-IsUnchanged context scope p false s = refl
  count_parent-IsUnchanged context scope p true s =
      let counted = record s { heap = update p count_one s.heap } in
      set_unless-IsUnchanged context scope (some p) (get_var configs context scope counted)
        (configs scope).is_shared s counted
        (ap (λ h. record s { heap = h }) (uncount_one-count_one p s.heap))

  with_parent-IsUnchanged :
      (context scope : ℕ) (required : Option ℕ) (s : State)
      → IsUnchanged s (with_parent configs (set_var configs context scope) required s)
  with_parent-IsUnchanged context scope none s = refl
  with_parent-IsUnchanged context scope (some p) s =
      count_parent-IsUnchanged context scope p (is_live p s.heap) s

  -- An activation that raises, for a required scope that is not active or a shared scope that is,
  -- leaves all scopes as they were: a parent that it had counted is uncounted again.
  pub activate-IsUnchanged :
      (context scope : ℕ) (s : State) → IsUnchanged s (activate configs context scope s)
  unfolding activate set_var release
  activate-IsUnchanged context scope s = elim (Option-cases (configs scope).requires) [
    | inl e ↦ rw e (
        set_unless-IsUnchanged context scope none (get_var configs context scope s)
          (configs scope).is_shared s s refl)
    | inr (required, e) ↦
        rw e (with_parent-IsUnchanged context scope (get_var configs context required s) s)
  ]
