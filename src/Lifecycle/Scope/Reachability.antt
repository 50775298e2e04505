-- ===== src/Lifecycle/Scope/Reachability.antt =====
-- What holds throughout every run of the scopes.
use stratae.Prelude.{
  ℕ, ◌+◌, Bool, true, false, Option, none, some, List, [], ◌∷◌, ◌++◌, ◌==◌, ltb, ◌≡◌, refl,
  if◌then◌else◌, arith, Bool-cases, Option-cases, inl, inr, length,
}
use stratae.Lifecycle.Stack.Exit.{Contexts}
use stratae.Lifecycle.Scope.{
  Storage, State, ScopeConfig, find, update, is_live, is_live?, count_one, cleared, release, Ended,
  ended, get_var, put_var, new_storage, set_var, set_unless, set_new, count_parent, with_parent,
  with_requires, activate, end_activation, end_held, end_found, end_live, end_dependents, reset_var,
  reset_to, is_held, not_current,
}
use stratae.Lifecycle.Scope.World.{
  World, owed, to_release, with_contexts, Step, activates, ends, releases, enters, copies,
  Reachable, starts, goes_on,
}
use stratae.Lifecycle.Scope.Heap.{dependents?, children, find-update_at, map_found, children-update}
use stratae.Lifecycle.Scope.Counting.{
  one, one_of, IsCounted, count_one-IsCounted, uncount_one-IsCounted, new-IsCounted,
  cleared-IsCounted,
}

abbrev pub IsCountedWorld : World → Type 0
IsCountedWorld w = IsCounted w.state.heap (owed w.releasing)

IsCounted-ext :
    (heap : List Storage) (due due' : ℕ → ℕ)
    → ((p : ℕ) → due p ≡ due' p)
    → IsCounted heap due
    → IsCounted heap due'
IsCounted-ext heap due due' e h p =
    (let same = e p in let k = (h p).0 in omega (arith, same, k), (h p).1)

module _ (configs : ℕ → ScopeConfig) where
  pub put_var-heap :
      (context scope : ℕ) (v : Option ℕ) (s : State)
      → (put_var configs context scope v s).heap ≡ s.heap
  unfolding put_var
  put_var-heap context scope v s = elim (Bool-cases (configs scope).is_shared) [
    | inl h ↦ rw h refl
    | inr h ↦ rw h refl
  ]

  set_new-IsCounted :
      (context scope : ℕ) (parent held : Option ℕ) (s : State) (due : ℕ → ℕ)
      → IsCounted s.heap (λ p. one_of p parent + due p)
      → IsCounted (set_new configs context scope parent held s).1.heap due
  set_new-IsCounted context scope parent held s due h =
      rw
        (put_var-heap context scope (some (length s.heap))
          (record s { heap = new_storage context held parent ∷ s.heap }))
        (new-IsCounted context held parent s.heap due h)

  release-IsCounted :
      (parent : Option ℕ) (s : State) (due : ℕ → ℕ)
      → IsCounted s.heap (λ p. one_of p parent + due p)
      → IsCounted (release parent s).heap due
  unfolding release
  release-IsCounted none s due h =
      IsCounted-ext s.heap (λ p. one_of p none + due p) due (λ p. omega arith) h
  release-IsCounted (some q) s due h = uncount_one-IsCounted q s.heap due h

  set_unless-IsCounted :
      (context scope : ℕ) (parent held : Option ℕ) (shared : Bool) (s : State) (due : ℕ → ℕ)
      → IsCounted s.heap (λ p. one_of p parent + due p)
      → IsCounted (set_unless configs context scope parent held shared s).1.heap due
  set_unless-IsCounted context scope parent (some a) true s due h = release-IsCounted parent s due h
  set_unless-IsCounted context scope parent none true s due h =
      set_new-IsCounted context scope parent none s due h
  set_unless-IsCounted context scope parent held false s due h =
      set_new-IsCounted context scope parent held s due h

  set_var-IsCounted :
      (context scope : ℕ) (parent : Option ℕ) (s : State) (due : ℕ → ℕ)
      → IsCounted s.heap (λ p. one_of p parent + due p)
      → IsCounted (set_var configs context scope parent s).1.heap due
  unfolding set_var
  set_var-IsCounted context scope parent s due h =
      set_unless-IsCounted context scope parent (get_var configs context scope s)
        (configs scope).is_shared s due h

  with_requires-IsCounted :
      (context scope : ℕ) (requires : Option ℕ) (s : State) (due : ℕ → ℕ)
      → IsCounted s.heap due
      → IsCounted
          (with_requires configs (set_var configs context scope) context requires s).1.heap
          due
  with_requires-IsCounted context scope none s due h =
      set_var-IsCounted context scope none s due
        (IsCounted-ext s.heap due (λ p. one_of p none + due p) (λ p. omega arith) h)
  with_requires-IsCounted context scope (some required) s due h =
      elim (Option-cases (get_var configs context required s)) [
        | inl e ↦ rw (e, with_parent) h
        | inr (p, e) ↦ elim (Bool-cases (is_live p s.heap)) [
          | inl live ↦
              rw (e, with_parent, live, count_parent)
                (set_var-IsCounted context scope (some p)
                  (record s { heap = update p count_one s.heap }) due
                  (count_one-IsCounted p s.heap due h live))
          | inr dead ↦ rw (e, with_parent, dead, count_parent) h
        ]
      ]

  activate-IsCounted :
      (context scope : ℕ) (s : State) (due : ℕ → ℕ)
      → IsCounted s.heap due
      → IsCounted (activate configs context scope s).1.heap due
  unfolding activate
  activate-IsCounted context scope s due h =
      with_requires-IsCounted context scope (configs scope).requires s due h

  -- What an end leaves behind it, and is to release.
  abbrev IsEnded : List ℕ → Ended × State → Type 0
  IsEnded qs r = IsCounted r.1.heap (owed (to_release r.0 qs))

  to_release-owed :
      (contexts : Contexts) (parent : Option ℕ) (qs : List ℕ) (heap : List Storage)
      → IsCounted heap (λ p. one_of p parent + owed qs p)
      → IsCounted heap (owed (to_release (ended contexts parent) qs))
  to_release-owed contexts none qs heap h =
      IsCounted-ext heap (λ p. one_of p none + owed qs p) (owed qs) (λ p. omega arith) h
  to_release-owed contexts (some q) qs heap h = h

  reset_to-IsEnded :
      (context scope a : ℕ) (x : Storage) (v : Option ℕ) (s : State) (qs : List ℕ)
      → IsCounted s.heap (owed qs)
      → find a s.heap ≡ some x
      → x.live ≡ true
      → x.dependents ≡ 0
      → IsEnded qs (reset_to configs context scope a x v s)
  reset_to-IsEnded context scope a x v s qs h found live unused =
      rw (put_var-heap context scope v (record s { heap = update a cleared s.heap })) (
        to_release-owed x.contexts x.parent qs (update a cleared s.heap)
          (cleared-IsCounted a x s.heap (owed qs) h found live unused))

  reset_var-IsEnded :
      (context scope a : ℕ) (x : Storage) (s : State) (qs : List ℕ)
      → IsCounted s.heap (owed qs)
      → find a s.heap ≡ some x
      → x.live ≡ true
      → x.dependents ≡ 0
      → IsEnded qs (reset_var configs context scope a x s)
  reset_var-IsEnded context scope a x s qs h found live unused =
      elim (Bool-cases (configs scope).is_shared) [
        | inl shared ↦
            rw (shared, reset_var)
              (reset_to-IsEnded context scope a x none s qs h found live unused)
        | inr own ↦ elim (Bool-cases (x.set_in == context)) [
          | inl here ↦
              rw (own, reset_var, here)
                (reset_to-IsEnded context scope a x x.held s qs h found live unused)
          | inr there ↦ rw (own, reset_var, there) h
        ]
      ]

  end_live-IsEnded :
      (context scope a : ℕ) (x : Storage) (s : State) (qs : List ℕ)
      → IsCounted s.heap (owed qs)
      → find a s.heap ≡ some x
      → IsEnded qs (end_live configs context scope a x x.live s)
  end_live-IsEnded context scope a x s qs h found = elim (Bool-cases x.live) [
    | inr dead ↦ rw (dead, end_live) h
    | inl live ↦ elim (Bool-cases (ltb 0 x.dependents)) [
      | inl used ↦ rw (live, end_live, used, end_dependents) h
      | inr unused ↦
          rw (live, end_live, unused, end_dependents)
            (reset_var-IsEnded context scope a x s qs h found live (ground arith))
    ]
  ]

  end_held-IsEnded :
      (context scope : ℕ) (held : Option ℕ) (s : State) (qs : List ℕ)
      → IsCounted s.heap (owed qs)
      → IsEnded qs (end_held configs context scope held s)
  end_held-IsEnded context scope none s qs h = h
  end_held-IsEnded context scope (some a) s qs h = elim (Option-cases (find a s.heap)) [
    | inl e ↦ rw (e, end_held, end_found) h
    | inr (x, e) ↦ rw (e, end_held, end_found) (end_live-IsEnded context scope a x s qs h e)
  ]

  not_current-to_release :
      (expected : ℕ) (s : State) (qs : List ℕ) → to_release (not_current configs expected s) qs ≡ qs
  not_current-to_release expected s qs = elim (Bool-cases (is_live expected s.heap)) [
    | inl h ↦ rw (h, not_current) refl
    | inr h ↦ rw (h, not_current) refl
  ]

  end_activation-IsEnded :
      (context scope : ℕ) (expected : Option ℕ) (s : State) (qs : List ℕ)
      → IsCounted s.heap (owed qs)
      → IsEnded qs (end_activation configs context scope expected s)
  unfolding end_activation
  end_activation-IsEnded context scope none s qs h =
      end_held-IsEnded context scope (get_var configs context scope s) s qs h
  end_activation-IsEnded context scope (some expected) s qs h =
      elim (Bool-cases (is_held configs expected (get_var configs context scope s))) [
        | inl e ↦ rw e (end_held-IsEnded context scope (get_var configs context scope s) s qs h)
        | inr e ↦ rw e (rw (not_current-to_release expected s qs) h)
      ]

pub owed-append :
    (before : List ℕ) (p : ℕ) (after : List ℕ) (q : ℕ)
    → owed (before ++ p ∷ after) q ≡ one q p + owed (before ++ after) q
owed-append [] p after q = refl
owed-append (r ∷ before) p after q = let rest = owed-append before p after q in omega (arith, rest)

with_contexts-CountedAt :
    (contexts : Contexts) (same : Bool) (o : Option Storage) (c due : ℕ)
    → (dependents? o ≡ c + due) × (is_live? o ≡ false → dependents? o ≡ 0)
    → (dependents? (if same then map_found (with_contexts contexts) o else o) ≡ c + due)
      × (is_live? (if same then map_found (with_contexts contexts) o else o) ≡ false
          → dependents? (if same then map_found (with_contexts contexts) o else o) ≡ 0)
with_contexts-CountedAt contexts false o c due h = h
with_contexts-CountedAt contexts true none c due h = h
with_contexts-CountedAt contexts true (some x) c due h = h

with_contexts-IsCounted :
    (a : ℕ) (contexts : Contexts) (heap : List Storage) (due : ℕ → ℕ)
    → IsCounted heap due
    → IsCounted (update a (with_contexts contexts) heap) due
with_contexts-IsCounted a contexts heap due h p =
    rw (find-update_at p a (with_contexts contexts) heap) (
      rw (children-update p a (with_contexts contexts) heap (λ x. refl))
        (with_contexts-CountedAt contexts (p == a) (find p heap) (children p heap) (due p) (h p)))

module _ (configs : ℕ → ScopeConfig) where
  Step-IsCounted : (w v : World) → Step configs w v → IsCountedWorld w → IsCountedWorld v
  unfolding release
  Step-IsCounted _ _ (activates context scope s qs) h =
      activate-IsCounted configs context scope s (owed qs) h
  Step-IsCounted _ _ (ends context scope expected s qs) h =
      end_activation-IsEnded configs context scope expected s qs h
  Step-IsCounted _ _ (releases s before p after) h =
      uncount_one-IsCounted p s.heap (owed (before ++ after)) (
        IsCounted-ext s.heap (owed (before ++ p ∷ after)) (λ q. one q p + owed (before ++ after) q)
          (owed-append before p after) h)
  Step-IsCounted _ _ (enters a contexts s qs) h =
      with_contexts-IsCounted a contexts s.heap (owed qs) h
  Step-IsCounted _ _ (copies parent context s qs) h = h

  -- Throughout every run, the count that a storage keeps is the number of its live dependents and
  -- of those that have ended but are still closing, and the count of an ended one is zero.
  pub Reachable-IsCounted : (w : World) → Reachable configs w → IsCountedWorld w
  unfolding find children
  Reachable-IsCounted _ starts = λ p. (omega arith, λ d. refl)
  Reachable-IsCounted _ (goes_on w v reached step) =
      Step-IsCounted w v step (Reachable-IsCounted w reached)
