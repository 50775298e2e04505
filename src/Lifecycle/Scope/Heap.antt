-- ===== src/Lifecycle/Scope/Heap.antt =====
-- The heap of storages: dependents, liveness and children under the updates of a scope.
use stratae.Prelude.{
  ℕ, suc, ◌+◌, ◌≤◌, ==_iff, subst, Bool, false, Option, none, some, List, [], ◌∷◌, ◌==◌, ◌&&◌,
  length, ◌≡◌, refl, if◌then◌else◌, arith, Bool-cases, inl, inr, ap, some_inj,
}
use stratae.Lifecycle.Scope.{Storage, find, update, cleared}

abbrev pub dependents? : Option Storage → ℕ
dependents? none = 0
dependents? (some x) = x.dependents

-- The count that is kept at an address.
abbrev pub dependents_at : ℕ → List Storage → ℕ
dependents_at a heap = dependents? (find a heap)

abbrev pub is_parent : ℕ → Option ℕ → Bool
is_parent p none = false
is_parent p (some q) = p == q

-- One for a live child of the address `p`.
abbrev pub child : ℕ → Storage → ℕ
child p x = if x.live && is_parent p x.parent then 1 else 0

-- The live children of the address `p`.
unfoldable pub children : ℕ → List Storage → ℕ
children p [] = 0
children p (x ∷ xs) = child p x + children p xs

pub length-update :
    (a : ℕ) (f : Storage → Storage) (xs : List Storage) → length (update a f xs) ≡ length xs
unfolding update
length-update a f [] = refl
length-update a f (x ∷ xs) = elim (Bool-cases (a == length xs)) [
  | inl h ↦ rw h refl
  | inr h ↦ rw h (ap suc (length-update a f xs))
]

abbrev pub map_found : (Storage → Storage) → Option Storage → Option Storage
map_found f none = none
map_found f (some x) = some (f x)

pub find-update :
    (a : ℕ) (f : Storage → Storage) (xs : List Storage)
    → find a (update a f xs) ≡ map_found f (find a xs)
unfolding find update
find-update a f [] = refl
find-update a f (x ∷ xs) = elim (Bool-cases (a == length xs)) [
  | inl h ↦ rw h (rw h refl)
  | inr h ↦ rw h (rw (length-update a f xs) (rw h (find-update a f xs)))
]

pub find-update_other :
    (a b : ℕ) (f : Storage → Storage) (xs : List Storage)
    → (a == b) ≡ false
    → find a (update b f xs) ≡ find a xs
unfolding find update
find-update_other a b f [] n = refl
find-update_other a b f (x ∷ xs) n = elim (Bool-cases (b == length xs)) [
  | inl h ↦ let other : (a == length xs) ≡ false = ground arith in rw h (rw other refl)
  | inr h ↦ rw h (rw (length-update b f xs) (rw (find-update_other a b f xs n) refl))
]

-- An update that leaves liveness and parents alone leaves the children alone.
pub children-update :
    (p a : ℕ) (f : Storage → Storage) (xs : List Storage)
    → ((x : Storage) → child p (f x) ≡ child p x)
    → children p (update a f xs) ≡ children p xs
unfolding children update
children-update p a f [] h = refl
children-update p a f (x ∷ xs) h = elim (Bool-cases (a == length xs)) [
  | inl e ↦ rw e (ap (λ n. n + children p xs) (h x))
  | inr e ↦ rw e (ap (λ n. child p x + n) (children-update p a f xs h))
]

-- Clearing a storage takes it from its parent's children.
pub children-cleared :
    (p a : ℕ) (x : Storage) (xs : List Storage)
    → find a xs ≡ some x
    → children p xs ≡ child p x + children p (update a cleared xs)
unfolding children find update
children-cleared p a x [] h = absurd cc
children-cleared p a x (y ∷ xs) h = elim (Bool-cases (a == length xs)) [
  | inl e ↦ let same : y ≡ x = some_inj (rw e at h) in rw e (rw same (omega arith))
  | inr e ↦
      let there : find a xs ≡ some x = (rw e at h) in
      let rest = children-cleared p a x xs there in rw e (omega (arith, rest))
]

pub find-update_at :
    (p a : ℕ) (f : Storage → Storage) (xs : List Storage)
    → find p (update a f xs) ≡ (if p == a then map_found f (find p xs) else find p xs)
find-update_at p a f xs = elim (Bool-cases (p == a)) [
  | inl h ↦ rw h (
      subst (λ b. find p (update b f xs) ≡ map_found f (find p xs)) ((==_iff p a).0 h)
        (find-update p f xs))
  | inr h ↦ rw h (find-update_other p a f xs h)
]

-- There is no storage at an address that is not used yet.
pub find-unused : (a : ℕ) (xs : List Storage) → length xs ≤ a → find a xs ≡ none
unfolding find
find-unused a [] h = refl
find-unused a (x ∷ xs) h =
    let other : (a == length xs) ≡ false = ground arith in rw other (find-unused a xs (omega arith))
