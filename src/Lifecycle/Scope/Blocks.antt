-- ===== src/Lifecycle/Scope/Blocks.antt =====
-- A scope that is activated and deactivated with nothing in between: `with scope: pass`.
use mathlib.Core.Path.{fun_ext}
use stratae.Prelude.{
  ℕ, Bool, true, false, Option, none, some, List, [], ◌∷◌, ◌==◌, ◌&&◌, length, ◌≡◌, refl, sym, ◌∙◌,
  ap, subst, if◌then◌else◌, arith, Bool-cases, Option-cases, inl, inr, clash, ==_refl, ==_iff,
}
use stratae.Python.{Exc}
use stratae.Lifecycle.Stack.Close.{finished}
use stratae.Lifecycle.Scope.{
  Storage, State, ScopeConfig, find, update, is_live, count_one, cleared, new_storage, release,
  Activated, activated, ended, get_var, put_var, set_var, set_unless, set_new, count_parent,
  with_parent, activate, end_activation, end_held, required_scope_inactive, scope_already_active,
  reset_var, closed, close_contexts, deactivate,
}
use stratae.Lifecycle.Scope.Heap.{find-unused, length-update}
use stratae.Lifecycle.Scope.Reachability.{put_var-heap}
use stratae.Lifecycle.Scope.Rollback.{uncount_one-count_one}

set_back :
    (b : Bool) (w v x : Option ℕ) → (b ≡ true → w ≡ x) → (if b then w else (if b then v else x)) ≡ x
set_back true w v x h = h refl
set_back false w v x h = refl

&&-both : (a b : Bool) → (a && b) ≡ true → (a ≡ true) × (b ≡ true)
&&-both true b h = (refl, h)
&&-both false b h = clash h refl

module _ (configs : ℕ → ScopeConfig) where
  get_var-put_var :
      (context scope : ℕ) (v : Option ℕ) (s : State)
      → get_var configs context scope (put_var configs context scope v s) ≡ v
  unfolding get_var put_var
  get_var-put_var context scope v s = elim (Bool-cases (configs scope).is_shared) [
    | inl shared ↦ rw shared (rw (==_refl scope) refl)
    | inr own ↦ rw own (rw (==_refl context) (rw (==_refl scope) refl))
  ]

  -- A variable that is set and then set back.
  put_var-put_var :
      (context scope : ℕ) (v w : Option ℕ) (s : State) (heap : List Storage)
      → get_var configs context scope s ≡ w
      → put_var configs context scope w (record (put_var configs context scope v s) { heap = heap })
        ≡ record s { heap = heap }
  unfolding get_var put_var
  put_var-put_var context scope v w s heap h = elim (Bool-cases (configs scope).is_shared) [
    | inl shared ↦
        let held : s.shared scope ≡ w = rw shared at h in
        let back = λ (k : ℕ).
          set_back (k == scope) w v (s.shared k)
            (λ same. sym held ∙ ap s.shared (sym ((==_iff k scope).0 same))) in
        rw shared (ap (λ f. record s { heap = heap; shared = f }) (fun_ext back))
    | inr own ↦
        let held : s.vars context scope ≡ w = rw own at h in
        let back = λ (c k : ℕ). set_back ((c == context) && (k == scope)) w v (s.vars c k) (λ here.
          (let both = &&-both (c == context) (k == scope) here in
            sym held
            ∙ (ap (λ d. s.vars d scope) (sym ((==_iff c context).0 both.0))
                ∙ ap (s.vars c) (sym ((==_iff k scope).0 both.1))))) in
        rw own (ap (λ f. record s { heap = heap; vars = f }) (fun_ext (λ c. fun_ext (back c))))
  ]

  -- The state after a new activation whose parent is counted in `s`.
  abbrev opened : ℕ → ℕ → Option ℕ → Option ℕ → State → State
  opened context scope parent held s = (set_new configs context scope parent held s).1

  -- The end of the activation that was just set, as a value is set back.
  ended_again :
      (context scope : ℕ) (parent held : Option ℕ) (s : State)
      → get_var configs context scope s ≡ held
      → ((configs scope).is_shared ≡ true → held ≡ none)
      → end_activation configs context scope none (opened context scope parent held s)
        ≡ (ended [] parent, record s { heap = cleared (new_storage context held parent) ∷ s.heap })
  unfolding end_activation find update get_var
  ended_again context scope parent held s h unshared =
      let new = new_storage context held parent in
      let set = record s { heap = new ∷ s.heap } in
      let a = length s.heap in
      let var = get_var-put_var context scope (some a) set in
      let heap = put_var-heap configs context scope (some a) set in
      rw (var, end_held)
        (rw (heap, end_held)
          (rw (==_refl a) (elim (Bool-cases (configs scope).is_shared) [
            | inl shared ↦
                rw (shared, reset_var)
                  (rw (==_refl a) (
                    ap (λ t. (ended [] parent, t))
                      (put_var-put_var context scope (some a) none set (cleared new ∷ s.heap)
                        (h ∙ unshared shared))))
            | inr own ↦
                rw (own, reset_var)
                  (rw (==_refl context) (
                    rw (==_refl a) (
                      ap (λ t. (ended [] parent, t))
                        (put_var-put_var context scope (some a) held set (cleared new ∷ s.heap)
                          h))))
          ])))

  -- The whole of it, once the parent is released.
  closed_again :
      (context scope : ℕ) (parent held : Option ℕ) (exc : Option Exc) (s : State)
      → get_var configs context scope s ≡ held
      → ((configs scope).is_shared ≡ true → held ≡ none)
      → deactivate configs context scope none exc (opened context scope parent held s) ≡ (
        closed (finished false),
        release parent (record s { heap = cleared (new_storage context held parent) ∷ s.heap }),
      )
  unfolding deactivate close_contexts
  closed_again context scope parent held exc s h unshared =
      rw (ended_again context scope parent held s h unshared) refl

  -- What is left of an activation that was made: its storage, which has ended.
  abbrev pub IsRestored : ℕ → ℕ → Option Exc → State → Activated × State → Type 0
  IsRestored context scope exc s (activated a, s') =
      (x : Storage) × (x.live ≡ false)
      × (deactivate configs context scope none exc s'
          ≡ (closed (finished false), record s { heap = x ∷ s.heap }))
  IsRestored context scope exc s (required_scope_inactive, s') = Unit {0}
  IsRestored context scope exc s (scope_already_active, s') = Unit {0}

  set_new-IsRestored :
      (context scope : ℕ) (parent held : Option ℕ) (exc : Option Exc) (s s' : State)
      → get_var configs context scope s' ≡ held
      → ((configs scope).is_shared ≡ true → held ≡ none)
      → ((x : Storage)
          → release parent (record s' { heap = x ∷ s'.heap }) ≡ record s { heap = x ∷ s.heap })
      → IsRestored context scope exc s (set_new configs context scope parent held s')
  set_new-IsRestored context scope parent held exc s s' h unshared released =
      let x = cleared (new_storage context held parent) in
      (
        x,
        refl,
        closed_again context scope parent held exc s' h unshared
            ∙ ap (λ t. (closed (finished false), t)) (released x),
      )

  set_unless-IsRestored :
      (context scope : ℕ) (parent held : Option ℕ) (exc : Option Exc) (shared : Bool) (s s' : State)
      → get_var configs context scope s' ≡ held
      → (configs scope).is_shared ≡ shared
      → ((x : Storage)
          → release parent (record s' { heap = x ∷ s'.heap }) ≡ record s { heap = x ∷ s.heap })
      → IsRestored context scope exc s (set_unless configs context scope parent held shared s')
  set_unless-IsRestored context scope parent (some a) exc true s s' h e released = tt
  set_unless-IsRestored context scope parent none exc true s s' h e released =
      set_new-IsRestored context scope parent none exc s s' h (λ shared. refl) released
  set_unless-IsRestored context scope parent held exc false s s' h e released =
      set_new-IsRestored context scope parent held exc s s' h (λ shared. clash shared e) released

  -- A parent that was counted for the activation is as it was once that has been released.
  counted_back :
      (p : ℕ) (s : State) (x : Storage)
      → is_live p s.heap ≡ true
      → release (some p) (record s { heap = x ∷ update p count_one s.heap })
        ≡ record s { heap = x ∷ s.heap }
  unfolding release update
  counted_back p s x live = elim (Bool-cases (p == length s.heap)) [
    | inl last ↦
        let gone =
          subst (λ a. find a s.heap ≡ none) (sym ((==_iff p (length s.heap)).0 last))
            (find-unused (length s.heap) s.heap (omega arith)) in
        clash live (rw gone refl)
    | inr before ↦
        rw (length-update p count_one s.heap)
          (rw before (ap (λ h. record s { heap = x ∷ h }) (uncount_one-count_one p s.heap)))
  ]

  count_parent-IsRestored :
      (context scope p : ℕ) (exc : Option Exc) (s : State)
      → IsRestored context scope exc s
          (count_parent configs (set_var configs context scope) p (is_live p s.heap) s)
  unfolding set_var get_var
  count_parent-IsRestored context scope p exc s = elim (Bool-cases (is_live p s.heap)) [
    | inr dead ↦ rw (dead, count_parent) tt
    | inl live ↦
        rw (live, count_parent)
          (let counted = record s { heap = update p count_one s.heap } in
            set_unless-IsRestored context scope (some p) (get_var configs context scope counted) exc
              (configs scope).is_shared s counted refl refl (λ x. counted_back p s x live))
  ]

  with_parent-IsRestored :
      (context scope : ℕ) (required : Option ℕ) (exc : Option Exc) (s : State)
      → IsRestored context scope exc s
          (with_parent configs (set_var configs context scope) required s)
  with_parent-IsRestored context scope none exc s = tt
  with_parent-IsRestored context scope (some p) exc s =
      count_parent-IsRestored context scope p exc s

  -- A scope that is activated and then deactivated in the same context, with nothing in between,
  -- raises nothing of its own, suppresses nothing, and leaves every variable and every storage as
  -- it was, the count of the scope that it requires included; its own storage has ended.
  pub activate-IsRestored :
      (context scope : ℕ) (exc : Option Exc) (s : State)
      → IsRestored context scope exc s (activate configs context scope s)
  unfolding activate set_var release
  activate-IsRestored context scope exc s = elim (Option-cases (configs scope).requires) [
    | inl e ↦ rw e (
        set_unless-IsRestored context scope none (get_var configs context scope s) exc
          (configs scope).is_shared s s refl refl (λ x. refl))
    | inr (required, e) ↦
        rw e (with_parent-IsRestored context scope (get_var configs context required s) exc s)
  ]
