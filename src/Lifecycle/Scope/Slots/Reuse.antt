-- ===== src/Lifecycle/Scope/Slots/Reuse.antt =====
-- Slots that are handed out, released and handed out again.
use stratae.Prelude.{
  ℕ, zero, suc, ◌+◌, ◌≤◌, ◌<◌, Bool, false, Option, none, some, List, [], ◌∷◌, ◌++◌, ◌==◌,
  if◌then◌else◌, ◌≡◌, refl, ◌∙◌, ap, arith, ==_refl, clash,
}
use stratae.Python.Dict.{IsKeyed, lookup-insert, lookup-erase, insert-IsKeyed, erase-IsKeyed}
use stratae.Lifecycle.Scope.Slots.{
  Active, inactive, dense, sparse, Slots, read_at, write_at, cell, extend, extended, allocate_slot,
  unset, release_slot, stored, write_slot, start_slots, end_slots,
}

read_at-write_at_other :
    (j i : ℕ) (v : Option ℕ) (cells : List (Option ℕ))
    → (j == i) ≡ false
    → read_at j (write_at i v cells) ≡ read_at j cells
unfolding read_at write_at
read_at-write_at_other j i v [] n = refl
read_at-write_at_other zero zero v (c ∷ cs) n = clash (==_refl 0) n
read_at-write_at_other zero (suc i) v (c ∷ cs) n = refl
read_at-write_at_other (suc j) zero v (c ∷ cs) n = refl
read_at-write_at_other (suc j) (suc i) v (c ∷ cs) n = read_at-write_at_other j i v cs (ground arith)

read_at-unset : (i : ℕ) (cells : List (Option ℕ)) → read_at i (write_at i none cells) ≡ none
unfolding read_at write_at
read_at-unset i [] = refl
read_at-unset zero (c ∷ cs) = refl
read_at-unset (suc i) (c ∷ cs) = read_at-unset i cs

pub read_at-extend :
    (j n : ℕ) (cells : List (Option ℕ)) → read_at j (extend n cells) ≡ read_at j cells
unfolding read_at extend
read_at-extend j zero cells = refl
read_at-extend zero (suc n) [] = refl
read_at-extend (suc j) (suc n) [] = read_at-extend j n []
read_at-extend zero (suc n) (c ∷ cs) = refl
read_at-extend (suc j) (suc n) (c ∷ cs) = read_at-extend j n cs

-- A sparse storage has no key twice.
abbrev pub IsProper : Active → Type 0
IsProper inactive = Unit {0}
IsProper (dense cells) = Unit {0}
IsProper (sparse cells) = IsKeyed cells

pub cell-extended : (j n : ℕ) (a : Active) → cell j (extended n a) ≡ cell j a
cell-extended j n inactive = refl
cell-extended j n (dense cells) = read_at-extend j n cells
cell-extended j n (sparse cells) = refl

pub cell-unset : (i : ℕ) (a : Active) → IsProper a → cell i (unset i a) ≡ none
cell-unset i inactive p = refl
cell-unset i (dense cells) p = read_at-unset i cells
cell-unset i (sparse cells) p = rw (lookup-erase i i cells p) (rw (==_refl i) refl)

pub cell-unset_other :
    (j i : ℕ) (a : Active) → IsProper a → (j == i) ≡ false → cell j (unset i a) ≡ cell j a
cell-unset_other j i inactive p n = refl
cell-unset_other j i (dense cells) p n = read_at-write_at_other j i none cells n
cell-unset_other j i (sparse cells) p n = rw (lookup-erase j i cells p) (rw n refl)

pub cell-stored_other :
    (j i v : ℕ) (a : Active) → (j == i) ≡ false → cell j (stored i v a) ≡ cell j a
cell-stored_other j i v inactive n = refl
cell-stored_other j i v (dense cells) n = read_at-write_at_other j i (some v) cells n
cell-stored_other j i v (sparse cells) n = rw (lookup-insert j i v cells) (rw n refl)

-- How often a number is in a list.
abbrev pub occurs : ℕ → List ℕ → ℕ
occurs j [] = 0
occurs j (i ∷ is) = (if j == i then 1 else 0) + occurs j is

pub occurs-append :
    (before : List ℕ) (i : ℕ) (after : List ℕ) (j : ℕ)
    → occurs j (before ++ i ∷ after) ≡ (if j == i then 1 else 0) + occurs j (before ++ after)
occurs-append [] i after j = refl
occurs-append (k ∷ before) i after j =
    let rest = occurs-append before i after j in omega (arith, rest)

-- Every slot that is in use or free is so once, and has been allocated; one that is not in use
-- reads as unset.
pub record IsTidy (in_use : List ℕ) (s : Slots) : Type 0 where
  pub once : (j : ℕ) → occurs j in_use + occurs j s.free_slots ≤ 1
  pub known : (j : ℕ) → 0 < occurs j in_use + occurs j s.free_slots → (4 ≤ j) × (j < s.count)
  pub clean : (j : ℕ) → occurs j in_use ≡ 0 → cell j s.active ≡ none
  pub proper : IsProper s.active
  pub reserved : 4 ≤ s.count

-- A scope, and the slots that cache wrappers hold. A wrapper writes to its slot, and gives it back
-- once it is gone.
pub data Step : List ℕ × Slots → List ℕ × Slots → Type 0 where
  allocates :
      (in_use : List ℕ) (s : Slots)
      → Step (in_use, s) ((allocate_slot s).0.0 ∷ in_use, (allocate_slot s).1)
  releases :
      (before : List ℕ) (slot : ℕ) (after : List ℕ) (s : Slots)
      → Step (before ++ slot ∷ after, s) (before ++ after, release_slot slot s)
  writes :
      (in_use : List ℕ) (slot v : ℕ) (s : Slots)
      → 0 < occurs slot in_use
      → Step (in_use, s) (in_use, write_slot slot v s)
  starts : (in_use : List ℕ) (s : Slots) → Step (in_use, s) (in_use, start_slots s)
  ends : (in_use : List ℕ) (s : Slots) → Step (in_use, s) (in_use, end_slots s)

-- A new scope, of either storage.
abbrev pub new_slots : Bool → Slots
new_slots is_sparse = record {
  is_sparse = is_sparse;
  count = 4;
  free_slots = [];
  active = inactive;
}

pub data Reachable : List ℕ × Slots → Type 0 where
  begins : (is_sparse : Bool) → Reachable ([], new_slots is_sparse)
  goes_on : (w v : List ℕ × Slots) → Reachable w → Step w v → Reachable v

pub extended-IsProper : (n : ℕ) (a : Active) → IsProper a → IsProper (extended n a)
extended-IsProper n inactive p = tt
extended-IsProper n (dense cells) p = tt
extended-IsProper n (sparse cells) p = p

pub unset-IsProper : (i : ℕ) (a : Active) → IsProper a → IsProper (unset i a)
unset-IsProper i inactive p = tt
unset-IsProper i (dense cells) p = tt
unset-IsProper i (sparse cells) p = erase-IsKeyed i cells p

pub stored-IsProper : (i v : ℕ) (a : Active) → IsProper a → IsProper (stored i v a)
stored-IsProper i v inactive p = tt
stored-IsProper i v (dense cells) p = tt
stored-IsProper i v (sparse cells) p = insert-IsKeyed i v cells p

-- A fresh slot is the one that the counter stands at.
pub fresh-IsTidy :
    (in_use : List ℕ) (s : Slots) (a : Active)
    → IsTidy in_use s
    → s.free_slots ≡ []
    → ((j : ℕ) → cell j a ≡ cell j s.active)
    → IsProper a
    → IsTidy (s.count ∷ in_use) (record s { count = s.count + 1; active = a })
fresh-IsTidy in_use s a tidy none_free same proper = record {
  once = λ j. (let o = tidy.once j in let k = tidy.known j in ground arith);
  known = λ j used. (let k = tidy.known j in let r = tidy.reserved in ground arith);
  clean = λ j unused. (same j ∙ tidy.clean j (omega (arith, unused)));
  proper = proper;
  reserved = (let r = tidy.reserved in omega arith);
}

pub reused-IsTidy :
    (in_use : List ℕ) (s : Slots) (slot : ℕ) (free : List ℕ)
    → IsTidy in_use s
    → s.free_slots ≡ slot ∷ free
    → IsTidy (slot ∷ in_use) (record s { free_slots = free })
reused-IsTidy in_use s slot free tidy e =
    let sum : (j : ℕ) → occurs j s.free_slots ≡ (if j == slot then 1 else 0) + occurs j free =
      λ j. ap (occurs j) e in
    record {
      once = λ j. (let o = tidy.once j in let m = sum j in omega (arith, o, m));
      known = λ j used. tidy.known j (let m = sum j in omega (arith, used, m));
      clean = λ j unused. tidy.clean j (omega (arith, unused));
      proper = tidy.proper;
      reserved = tidy.reserved;
    }
