-- ===== src/Lifecycle/Scope/Slots.antt =====
-- stratae/lifecycle/scope.py: `allocate_slot`, `release_slot` and `_extend`;
-- stratae/lifecycle/_slots.py: `SlotDict`; and a wrapper's write to its slot. A shared scope has one
-- activation at a time, whose storage is modelled; a slot's content is `none` where it reads as
-- `UNSET`. Slots 0 to 3 are reserved, and hold none of the content modelled here.
pub mod Reuse
pub mod Allocation
mod Tests
use stratae.Prelude.{
  ℕ, zero, suc, ◌+◌, Bool, true, false, Option, none, some, List, [], ◌∷◌, ◌==◌, length,
  if◌then◌else◌,
}
use stratae.Python.Dict.{Dict, lookup, insert, erase}

-- The storage of the current activation.
pub data Active : Type 0 where
  inactive : Active
  dense : List (Option ℕ) → Active
  sparse : Dict ℕ → Active

-- `count` is the length of a dense template, or the counter of a sparse scope; `free_slots` is in
-- the order in which `pop` takes them.
pub record Slots : Type 0 where
  pub is_sparse : Bool
  pub count : ℕ
  pub free_slots : List ℕ
  pub active : Active

unfoldable pub read_at : ℕ → List (Option ℕ) → Option ℕ
read_at i [] = none
read_at zero (c ∷ cs) = c
read_at (suc i) (c ∷ cs) = read_at i cs

-- `active[slot] = v` within the list.
unfoldable pub write_at : ℕ → Option ℕ → List (Option ℕ) → List (Option ℕ)
write_at i v [] = []
write_at zero v (c ∷ cs) = v ∷ cs
write_at (suc i) v (c ∷ cs) = c ∷ write_at i v cs

-- What a slot of the storage reads as.
abbrev pub cell : ℕ → Active → Option ℕ
cell slot inactive = none
cell slot (dense cells) = read_at slot cells
cell slot (sparse cells) = lookup slot cells

-- `cells.extend(template[len(cells):])`
unfoldable pub extend : ℕ → List (Option ℕ) → List (Option ℕ)
extend zero cells = cells
extend (suc n) [] = none ∷ extend n []
extend (suc n) (c ∷ cs) = c ∷ extend n cs

-- `_extend`
abbrev pub extended : ℕ → Active → Active
extended count inactive = inactive
extended count (dense cells) = dense (extend count cells)
extended count (sparse cells) = sparse cells

-- A slot that was never used, of a sparse scope or a dense one.
abbrev pub allocate_new : Slots → Bool → (ℕ × Bool) × Slots
allocate_new s true = ((s.count, false), record s { count = s.count + 1 })
allocate_new s false =
    ((s.count, false), record s { count = s.count + 1; active = extended (s.count + 1) s.active })

abbrev pub allocate_from : Slots → List ℕ → (ℕ × Bool) × Slots
allocate_from s (slot ∷ free) = ((slot, true), record s { free_slots = free })
allocate_from s [] = allocate_new s s.is_sparse

-- `allocate_slot`: the slot, and whether it is reused.
unfoldable pub allocate_slot : Slots → (ℕ × Bool) × Slots
allocate_slot s = allocate_from s s.free_slots

-- The part of `release_slot` on the active storage.
abbrev pub unset : ℕ → Active → Active
unset slot inactive = inactive
unset slot (dense cells) = dense (write_at slot none cells)
unset slot (sparse cells) = sparse (erase slot cells)

-- `release_slot`
unfoldable pub release_slot : ℕ → Slots → Slots
release_slot slot s = record s { active = unset slot s.active; free_slots = slot ∷ s.free_slots }

-- A cache wrapper's write to its slot, of the storage that `get_slots` has extended.
abbrev pub stored : ℕ → ℕ → Active → Active
stored slot v inactive = inactive
stored slot v (dense cells) = dense (write_at slot (some v) cells)
stored slot v (sparse cells) = sparse (insert slot v cells)

unfoldable pub write_slot : ℕ → ℕ → Slots → Slots
write_slot slot v s = record s { active = stored slot v (extended s.count s.active) }

-- A new activation's storage, beside the reserved slots, and an ended activation.
unfoldable pub start_slots : Slots → Slots
start_slots s = record s { active = if s.is_sparse then sparse [] else dense (extend s.count []) }

unfoldable pub end_slots : Slots → Slots
end_slots s = record s { active = inactive }
