-- ===== src/Lifecycle/Scope/Slots/Allocation.antt =====
-- Which slots are handed out, in every run of allocations, releases, writes and activations.
use stratae.Prelude.{
  ℕ, ◌+◌, ◌≤◌, ◌<◌, Bool, true, false, none, List, [], ◌∷◌, ◌++◌, ◌==◌, ◌≡◌, refl, sym, ◌∙◌, arith,
  Bool-cases, inl, inr, ==_iff, ==_refl, subst,
}
use stratae.Lifecycle.Scope.Slots.{
  Slots, read_at, cell, extended, allocate_new, allocate_from, allocate_slot, unset, release_slot,
  write_slot, start_slots, end_slots,
}
use stratae.Lifecycle.Scope.Slots.Reuse.{
  occurs, occurs-append, IsTidy, Step, allocates, releases, writes, starts, ends, Reachable, begins,
  goes_on, unset-IsProper, stored-IsProper, extended-IsProper, fresh-IsTidy, reused-IsTidy,
  cell-unset, cell-unset_other, cell-stored_other, cell-extended, read_at-extend,
}

-- What an allocation leaves.
abbrev IsAllocated : List ℕ → (ℕ × Bool) × Slots → Type 0
IsAllocated in_use r = IsTidy (r.0.0 ∷ in_use) r.1

allocate_new-IsTidy :
    (in_use : List ℕ) (s : Slots) (is_sparse : Bool)
    → IsTidy in_use s
    → s.free_slots ≡ []
    → IsAllocated in_use (allocate_new s is_sparse)
allocate_new-IsTidy in_use s true tidy e =
    fresh-IsTidy in_use s s.active tidy e (λ j. refl) tidy.proper
allocate_new-IsTidy in_use s false tidy e =
    fresh-IsTidy in_use s (extended (s.count + 1) s.active) tidy e
      (λ j. cell-extended j (s.count + 1) s.active)
      (extended-IsProper (s.count + 1) s.active tidy.proper)

allocate-IsTidy :
    (in_use : List ℕ) (s : Slots) (free : List ℕ)
    → IsTidy in_use s
    → s.free_slots ≡ free
    → IsAllocated in_use (allocate_from s free)
allocate-IsTidy in_use s (slot ∷ free) tidy e = reused-IsTidy in_use s slot free tidy e
allocate-IsTidy in_use s [] tidy e = allocate_new-IsTidy in_use s s.is_sparse tidy e

-- An allocation leaves what the slots read as.
allocate_new-cell :
    (j : ℕ) (s : Slots) (is_sparse : Bool)
    → cell j (allocate_new s is_sparse).1.active ≡ cell j s.active
allocate_new-cell j s true = refl
allocate_new-cell j s false = cell-extended j (s.count + 1) s.active

allocate-cell :
    (j : ℕ) (s : Slots) (free : List ℕ) → cell j (allocate_from s free).1.active ≡ cell j s.active
allocate-cell j s (slot ∷ free) = refl
allocate-cell j s [] = allocate_new-cell j s s.is_sparse

release-IsTidy :
    (before : List ℕ) (slot : ℕ) (after : List ℕ) (s : Slots)
    → IsTidy (before ++ slot ∷ after) s
    → IsTidy (before ++ after) (release_slot slot s)
unfolding release_slot
release-IsTidy before slot after s tidy =
    let sum = occurs-append before slot after in
    record {
      once = λ j. (let o = tidy.once j in let m = sum j in omega (arith, o, m));
      known = λ j used. tidy.known j (let m = sum j in omega (arith, used, m));
      clean = λ j unused. elim (Bool-cases (j == slot)) [
        | inl same ↦
            subst (λ k. cell k (unset slot s.active) ≡ none) (sym ((==_iff j slot).0 same))
              (cell-unset slot s.active tidy.proper)
        | inr other ↦
            let gone : occurs j (before ++ slot ∷ after) ≡ 0 =
              sum j ∙ rw other (omega (arith, unused)) in
            cell-unset_other j slot s.active tidy.proper other ∙ tidy.clean j gone
      ];
      proper = unset-IsProper slot s.active tidy.proper;
      reserved = tidy.reserved;
    }

write-IsTidy :
    (in_use : List ℕ) (slot v : ℕ) (s : Slots)
    → 0 < occurs slot in_use
    → IsTidy in_use s
    → IsTidy in_use (write_slot slot v s)
unfolding write_slot
write-IsTidy in_use slot v s held tidy = record {
  once = tidy.once;
  known = tidy.known;
  clean = λ j unused. elim (Bool-cases (j == slot)) [
    | inl same ↦
        let gone = subst (λ k. occurs k in_use ≡ 0) ((==_iff j slot).0 same) unused in
        absurd (omega (arith, held, gone))
    | inr other ↦
        cell-stored_other j slot v (extended s.count s.active) other
        ∙ (cell-extended j s.count s.active ∙ tidy.clean j unused)
  ];
  proper =
      stored-IsProper slot v (extended s.count s.active)
        (extended-IsProper s.count s.active tidy.proper);
  reserved = tidy.reserved;
}

start-IsTidy : (in_use : List ℕ) (s : Slots) → IsTidy in_use s → IsTidy in_use (start_slots s)
unfolding start_slots read_at
start-IsTidy in_use s tidy = elim (Bool-cases s.is_sparse) [
  | inl h ↦ rw h (record {
    once = tidy.once;
    known = tidy.known;
    clean = λ j unused. refl;
    proper = tt;
    reserved = tidy.reserved;
  })
  | inr h ↦ rw h (record {
    once = tidy.once;
    known = tidy.known;
    clean = λ j unused. read_at-extend j s.count [];
    proper = tt;
    reserved = tidy.reserved;
  })
]

abbrev IsTidyWorld : List ℕ × Slots → Type 0
IsTidyWorld w = IsTidy w.0 w.1

Step-IsTidy : (w v : List ℕ × Slots) → Step w v → IsTidyWorld w → IsTidyWorld v
unfolding allocate_slot end_slots
Step-IsTidy _ _ (allocates in_use s) tidy = allocate-IsTidy in_use s s.free_slots tidy refl
Step-IsTidy _ _ (releases before slot after s) tidy = release-IsTidy before slot after s tidy
Step-IsTidy _ _ (writes in_use slot v s held) tidy = write-IsTidy in_use slot v s held tidy
Step-IsTidy _ _ (starts in_use s) tidy = start-IsTidy in_use s tidy
Step-IsTidy _ _ (ends in_use s) tidy = record {
  once = tidy.once;
  known = tidy.known;
  clean = λ j unused. refl;
  proper = tt;
  reserved = tidy.reserved;
}

Reachable-IsTidy : (w : List ℕ × Slots) → Reachable w → IsTidyWorld w
Reachable-IsTidy _ (begins is_sparse) = record {
  once = λ j. omega arith;
  known = λ j used. absurd (omega (arith, used));
  clean = λ j unused. refl;
  proper = tt;
  reserved = omega arith;
}
Reachable-IsTidy _ (goes_on w v reached step) = Step-IsTidy w v step (Reachable-IsTidy w reached)

-- In every run of a shared scope, of either storage, a slot that is handed out is not in use and
-- not reserved, and reads as unset in the current activation, also if it was used before.
pub Reachable-allocate_slot :
    (in_use : List ℕ) (s : Slots)
    → Reachable (in_use, s)
    → let r = allocate_slot s in
      (occurs r.0.0 in_use ≡ 0) × (4 ≤ r.0.0) × (cell r.0.0 r.1.active ≡ none)
unfolding allocate_slot
Reachable-allocate_slot in_use s reached =
    let tidy = Reachable-IsTidy (in_use, s) reached in
    let after = allocate-IsTidy in_use s s.free_slots tidy refl in
    let slot = (allocate_from s s.free_slots).0.0 in
    let self = ==_refl slot in
    let once = after.once slot in
    let unused : occurs slot in_use ≡ 0 = (let o = rw self at once in omega (arith, o)) in
    let used : 0
        < occurs slot (slot ∷ in_use) + occurs slot (allocate_from s s.free_slots).1.free_slots =
      rw self (omega arith) in
    (unused, (after.known slot used).0, allocate-cell slot s s.free_slots ∙ tidy.clean slot unused)
