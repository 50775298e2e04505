-- ===== src/Lifecycle/Scope/Slots/Tests.antt =====
-- A slot that is written, given back and handed out again.
use stratae.Prelude.{◌≤◌, false, none, [], ◌∷◌, ◌≡◌, arith}
use stratae.Lifecycle.Scope.Slots.{
  Slots, cell, dense, allocate_slot, release_slot, write_slot, start_slots, write_at, extend,
}
use stratae.Lifecycle.Scope.Slots.Reuse.{
  occurs, allocates, releases, writes, starts, new_slots, Reachable, begins, goes_on,
}
use stratae.Lifecycle.Scope.Slots.Allocation.{Reachable-allocate_slot}

-- A dense scope is active, and slot 4 is handed out, written, and released.
abbrev active_scope : Slots
active_scope = start_slots (new_slots false)

abbrev with_one : Slots
with_one = (allocate_slot active_scope).1

abbrev written_one : Slots
written_one = write_slot 4 9 with_one

abbrev released_one : Slots
released_one = release_slot 4 written_one

released_one-Reachable : Reachable ([], released_one)
unfolding allocate_slot start_slots
released_one-Reachable =
    goes_on (4 ∷ [], written_one) ([], released_one)
      (goes_on (4 ∷ [], with_one) (4 ∷ [], written_one)
        (goes_on ([], active_scope) (4 ∷ [], with_one)
          (goes_on ([], new_slots false) ([], active_scope) (begins false)
            (starts [] (new_slots false)))
          (allocates [] active_scope))
        (writes (4 ∷ []) 4 9 with_one (omega arith)))
      (releases [] 4 [] written_one)

Reachable-allocate_slot_example :
    (occurs 4 [] ≡ 0) × (4 ≤ 4) × (cell 4 (dense (none ∷ none ∷ none ∷ none ∷ none ∷ [])) ≡ none)
unfolding allocate_slot release_slot write_slot start_slots write_at extend
Reachable-allocate_slot_example = Reachable-allocate_slot [] released_one released_one-Reachable
