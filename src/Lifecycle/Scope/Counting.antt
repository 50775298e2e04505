-- ===== src/Lifecycle/Scope/Counting.antt =====
-- Every storage's count of dependents against the live activations and the unfinished releases.
use stratae.Prelude.{
  ℕ, ◌+◌, Bool, true, false, Option, none, some, List, ◌∷◌, ◌==◌, length, ◌≡◌, refl, sym, subst,
  if◌then◌else◌, arith, Bool-cases, inl, inr, clash, ==_iff,
}
use stratae.Lifecycle.Scope.{
  Storage, find, update, is_live, is_live?, count_one, uncount_one, cleared, new_storage,
}
use stratae.Lifecycle.Scope.Heap.{
  dependents_at, dependents?, child, children, is_parent, find-update_at, find-unused, map_found,
  children-update, children-cleared,
}

abbrev pub one : ℕ → ℕ → ℕ
one p q = if p == q then 1 else 0

-- Each count is the number of live children and what else is owed to it, and that of an ended
-- activation, or of none, is zero.
abbrev pub IsCounted : List Storage → (ℕ → ℕ) → Type 0
IsCounted heap owed =
    (p : ℕ)
    → (dependents_at p heap ≡ children p heap + owed p)
      × (is_live p heap ≡ false → dependents_at p heap ≡ 0)

-- The same at one address, of what is found there.
abbrev CountedAt : Option Storage → ℕ → ℕ → Type 0
CountedAt o c owed = (dependents? o ≡ c + owed) × (is_live? o ≡ false → dependents? o ≡ 0)

count_one-CountedAt :
    (same : Bool) (o : Option Storage) (c owed : ℕ)
    → CountedAt o c owed
    → (same ≡ true → is_live? o ≡ true)
    → CountedAt (if same then map_found count_one o else o) c ((if same then 1 else 0) + owed)
count_one-CountedAt false o c owed h live = (omega (arith, h.0), h.1)
count_one-CountedAt true none c owed h live = clash (live refl) refl
count_one-CountedAt true (some x) c owed h live = (omega (arith, h.0), λ d. clash (live refl) d)

uncount_one-CountedAt :
    (same : Bool) (o : Option Storage) (c owed : ℕ)
    → CountedAt o c ((if same then 1 else 0) + owed)
    → CountedAt (if same then map_found uncount_one o else o) c owed
uncount_one-CountedAt false o c owed h = (omega (arith, h.0), h.1)
uncount_one-CountedAt true none c owed h = (omega (arith, h.0), h.1)
uncount_one-CountedAt true (some x) c owed h =
    (omega (arith, h.0), λ d. (let zero = h.1 d in omega (arith, zero)))

pub count_one-IsCounted :
    (q : ℕ) (heap : List Storage) (owed : ℕ → ℕ)
    → IsCounted heap owed
    → is_live q heap ≡ true
    → IsCounted (update q count_one heap) (λ p. one p q + owed p)
count_one-IsCounted q heap owed h live p = rw (find-update_at p q count_one heap) (
    rw (children-update p q count_one heap (λ x. refl)) (
      count_one-CountedAt (p == q) (find p heap) (children p heap) (owed p) (h p)
        (λ e. subst (λ r. is_live r heap ≡ true) (sym ((==_iff p q).0 e)) live)))

pub uncount_one-IsCounted :
    (q : ℕ) (heap : List Storage) (owed : ℕ → ℕ)
    → IsCounted heap (λ p. one p q + owed p)
    → IsCounted (update q uncount_one heap) owed
uncount_one-IsCounted q heap owed h p = rw (find-update_at p q uncount_one heap) (
    rw (children-update p q uncount_one heap (λ x. refl))
      (uncount_one-CountedAt (p == q) (find p heap) (children p heap) (owed p) (h p)))

-- One for the parent `p`, if there is one.
abbrev pub one_of : ℕ → Option ℕ → ℕ
one_of p parent = if is_parent p parent then 1 else 0

child-new :
    (p context : ℕ) (held parent : Option ℕ)
    → child p (new_storage context held parent) ≡ one_of p parent
child-new p context held parent = refl

-- A new storage uses the count that its activation has made.
pub new-IsCounted :
    (context : ℕ) (held parent : Option ℕ) (heap : List Storage) (owed : ℕ → ℕ)
    → IsCounted heap (λ p. one_of p parent + owed p)
    → IsCounted (new_storage context held parent ∷ heap) owed
unfolding find children
new-IsCounted context held parent heap owed h p =
    let made = child-new p context held parent in
    elim (Bool-cases (p == length heap)) [
      | inl e ↦
          let unused =
            subst (λ a. find a heap ≡ none) (sym ((==_iff p (length heap)).0 e))
              (find-unused (length heap) heap (omega arith)) in
          let old : 0 ≡ children p heap + (one_of p parent + owed p) = rw unused at (h p).0 in
          rw e (omega (arith, made, old), λ d. refl)
      | inr e ↦ rw e (let old = (h p).0 in omega (arith, made, old), (h p).1)
    ]

pub child-some : (p : ℕ) (x : Storage) → x.live ≡ true → child p x ≡ one_of p x.parent
child-some p x h = rw h refl

cleared-CountedAt :
    (same : Bool) (o : Option Storage) (c c' owed : ℕ) (used : ℕ)
    → CountedAt o c owed
    → (same ≡ true → dependents? o ≡ 0)
    → c ≡ used + c'
    → CountedAt (if same then map_found cleared o else o) c' (used + owed)
cleared-CountedAt false o c c' owed used h none_left e = (omega (arith, h.0, e), h.1)
cleared-CountedAt true none c c' owed used h none_left e = (omega (arith, h.0, e), λ d. refl)
cleared-CountedAt true (some x) c c' owed used h none_left e =
    let gone = none_left refl in (omega (arith, h.0, e, gone), λ d. refl)

-- An ended activation leaves its parent counted until it is released.
pub cleared-IsCounted :
    (a : ℕ) (x : Storage) (heap : List Storage) (owed : ℕ → ℕ)
    → IsCounted heap owed
    → find a heap ≡ some x
    → x.live ≡ true
    → x.dependents ≡ 0
    → IsCounted (update a cleared heap) (λ p. one_of p x.parent + owed p)
cleared-IsCounted a x heap owed h found live unused p =
    let used = child-some p x live in
    let lost = children-cleared p a x heap found in
    rw (find-update_at p a cleared heap) (
      cleared-CountedAt (p == a) (find p heap) (children p heap)
        (children p (update a cleared heap)) (owed p) (one_of p x.parent) (h p)
        (λ e. subst (λ r. dependents? (find r heap) ≡ 0) (sym ((==_iff p a).0 e)) (rw found unused))
        (rw used at lost))
