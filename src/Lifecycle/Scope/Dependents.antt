-- ===== src/Lifecycle/Scope/Dependents.antt =====
-- What the counts keep true of parents and of the activations that depend on them.
use stratae.Prelude.{
  ℕ, ◌+◌, ◌<◌, true, none, some, List, ◌∷◌, ◌++◌, ltb, lt→ltb, ◌≡◌, refl, ◌∙◌, arith, Bool-cases,
  Option-cases, inl, inr, clash, ==_refl,
}
use stratae.Lifecycle.Scope.{
  Storage, State, ScopeConfig, find, is_live, dependent_scope_active, get_var, end_activation,
  end_held, end_found, end_live, end_dependents,
}
use stratae.Lifecycle.Scope.Heap.{dependents_at, child, children, children-cleared}
use stratae.Lifecycle.Scope.World.{World, owed, Reachable}
use stratae.Lifecycle.Scope.Counting.{one, IsCounted, child-some}
use stratae.Lifecycle.Scope.Reachability.{Reachable-IsCounted, owed-append}

-- A storage that something is owed to is live.
counted_live :
    (p : ℕ) (heap : List Storage) (due : ℕ → ℕ)
    → IsCounted heap due
    → 0 < children p heap + due p
    → (is_live p heap ≡ true) × (0 < dependents_at p heap)
counted_live p heap due h owes =
    let count = (h p).0 in
    (
      elim (Bool-cases (is_live p heap)) [
        | inl live ↦ live
        | inr dead ↦ (let empty = (h p).1 dead in absurd (omega (arith, count, empty, owes)))
      ],
      omega (arith, count, owes),
    )

module _ (configs : ℕ → ScopeConfig) where
  -- In every state of a run, the parent of a live activation is itself live, and counts it.
  pub Reachable-parent_live :
      (w : World) (a p : ℕ) (x : Storage)
      → Reachable configs w
      → find a w.state.heap ≡ some x
      → x.live ≡ true
      → x.parent ≡ some p
      → (is_live p w.state.heap ≡ true) × (0 < dependents_at p w.state.heap)
  Reachable-parent_live w a p x reached found live of =
      let mine : child p x ≡ 1 = child-some p x live ∙ rw of (rw (==_refl p) refl) in
      let among = children-cleared p a x w.state.heap found in
      counted_live p w.state.heap (owed w.releasing) (Reachable-IsCounted configs w reached)
        (omega (arith, mine, among))

  -- In every state of a run, a release that is still to be made meets a live parent whose count is
  -- above zero: it never meets an emptied storage, and the count never goes below zero.
  pub Reachable-release :
      (s : State) (before after : List ℕ) (p : ℕ)
      → Reachable configs (record { state = s; releasing = before ++ p ∷ after })
      → (is_live p s.heap ≡ true) × (0 < dependents_at p s.heap)
  Reachable-release s before after p reached =
      let due = owed-append before p after p in
      let self : one p p ≡ 1 = rw (==_refl p) refl in
      counted_live p s.heap (owed (before ++ p ∷ after))
        (Reachable-IsCounted configs (record { state = s; releasing = before ++ p ∷ after })
          reached)
        (omega (arith, due, self))

  -- In every state of a run, ending the current activation of a scope is refused, and changes
  -- nothing, as long as an activation that requires it is live or still closing.
  pub end_activation-refused :
      (context scope a : ℕ) (s : State) (qs : List ℕ)
      → Reachable configs (record { state = s; releasing = qs })
      → get_var configs context scope s ≡ some a
      → 0 < children a s.heap + owed qs a
      → end_activation configs context scope none s ≡ (dependent_scope_active, s)
  unfolding end_activation
  end_activation-refused context scope a s qs reached held owes =
      let counted = Reachable-IsCounted configs (record { state = s; releasing = qs }) reached in
      let alive = counted_live a s.heap (owed qs) counted owes in
      elim (Option-cases (find a s.heap)) [
        | inl gone ↦ clash alive.0 (rw gone refl)
        | inr (x, found) ↦
            let live : x.live ≡ true = (rw found at alive.0) in
            let used : ltb 0 x.dependents ≡ true = lt→ltb 0 x.dependents (rw found at alive.1) in
            rw (held, end_held, found, end_found, live, end_live, used, end_dependents) refl
      ]
