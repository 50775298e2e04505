-- ===== src/Events/Outbox/Store/Order.antt =====
-- Which records a claim takes: the oldest of those that it may.
use mathlib.Core.List.{Perm}
use mathlib.Core.List.Perm
use stratae.Prelude.{
  ℕ, zero, suc, ◌+◌, ◌≤◌, Bool, some, List, [], ◌∷◌, ◌++◌, leb, leb→le, keep, take, drop, length,
  if◌then◌else◌, ◌≡◌, refl, ◌⊎◌, inl, inr, arith, Bool-cases, All, All-keep_of, take-append-drop,
}
use stratae.Python.Dict.{lookup, insert, values}
use stratae.Events.Outbox.Record.{OutboxRecord}
use stratae.Events.Outbox.Store.{
  pending, Store, init, insert_by_age, sort_by_age, with_status, is_due, lease_all, claim,
}
use stratae.Events.Outbox.Store.Validity.{run-IsValid, init-IsValid}
use stratae.Events.Outbox.Store.Claimable.{
  has_status, values_indexed, select_lem, is_claimable, keep-is_claimable,
}
use stratae.Events.Outbox.Store.Leases.{Call, run, has_id, lease_all-leased}

-- Only the leases change.
lease_all_lem :
    (until : ℕ) (rs : List OutboxRecord) (s : Store)
    → lease_all until rs s ≡ record s { leased = (lease_all until rs s).leased }
unfolding lease_all
lease_all_lem until [] s = refl
lease_all_lem until (r ∷ rs) s =
    lease_all_lem until rs (record s { leased = insert r.id until s.leased })

-- Oldest first.
abbrev pub IsSorted : List OutboxRecord → Type 0
IsSorted [] = Unit
IsSorted (r ∷ rs) = All (λ q. r.created_at ≤ q.created_at) rs × IsSorted rs

All-insert_by_age :
    (P : OutboxRecord → Type 0) (r : OutboxRecord) (rs : List OutboxRecord)
    → P r
    → All P rs
    → All P (insert_by_age r rs)
unfolding insert_by_age
All-insert_by_age P r [] p h = (p, tt)
All-insert_by_age P r (q ∷ qs) p h = elim (Bool-cases (leb r.created_at q.created_at)) [
  | inl e ↦ rw e (p, h)
  | inr e ↦ rw e (h.0, All-insert_by_age P r qs p h.1)
]

All-le_trans :
    (m n : ℕ) (rs : List OutboxRecord)
    → m ≤ n
    → All (λ q. n ≤ q.created_at) rs
    → All (λ q. m ≤ q.created_at) rs
All-le_trans m n [] h a = tt
All-le_trans m n (r ∷ rs) h a = (omega arith, All-le_trans m n rs h a.1)

insert_by_age-IsSorted :
    (r : OutboxRecord) (rs : List OutboxRecord) → IsSorted rs → IsSorted (insert_by_age r rs)
unfolding insert_by_age
insert_by_age-IsSorted r [] h = (tt, tt)
insert_by_age-IsSorted r (q ∷ qs) h = elim (Bool-cases (leb r.created_at q.created_at)) [
  | inl e ↦ rw e (
      let le : r.created_at ≤ q.created_at = leb→le _ _ e in
      ((le, All-le_trans r.created_at q.created_at qs le h.0), h))
  | inr e ↦ rw e (
    All-insert_by_age (λ p. q.created_at ≤ p.created_at) r qs (ground arith) h.0,
    insert_by_age-IsSorted r qs h.1,
  )
]

sort_by_age-IsSorted : (rs : List OutboxRecord) → IsSorted (sort_by_age rs)
unfolding sort_by_age
sort_by_age-IsSorted [] = tt
sort_by_age-IsSorted (r ∷ rs) = insert_by_age-IsSorted r (sort_by_age rs) (sort_by_age-IsSorted rs)

keep-IsSorted :
    (p : OutboxRecord → Bool) (rs : List OutboxRecord) → IsSorted rs → IsSorted (keep p rs)
keep-IsSorted p [] h = tt
keep-IsSorted p (r ∷ rs) h = elim (Bool-cases (p r)) [
  | inl e ↦ rw e (All-keep_of _ p rs h.0, keep-IsSorted p rs h.1)
  | inr e ↦ rw e (keep-IsSorted p rs h.1)
]

length-take_or :
    (n : ℕ) (rs : List OutboxRecord)
    → (length (take n rs) ≤ n) × ((drop n rs ≡ []) ⊎ (length (take n rs) ≡ n))
length-take_or zero rs = (omega arith, inr refl)
length-take_or (suc n) [] = (omega arith, inl refl)
length-take_or (suc n) (r ∷ rs) = ground (arith, length-take_or n rs)

keep-insert_by_age :
    (p : OutboxRecord → Bool) (r : OutboxRecord) (rs : List OutboxRecord)
    → Perm (keep p (insert_by_age r rs)) (keep p (r ∷ rs))
unfolding insert_by_age
keep-insert_by_age p r [] = Perm.refl _
keep-insert_by_age p r (q ∷ qs) = elim (Bool-cases (leb r.created_at q.created_at)) [
  | inl e ↦ rw e (Perm.refl _)
  | inr e ↦ rw e (elim (Bool-cases (p q)) [
    | inl i ↦ elim (Bool-cases (p r)) [
      | inl j ↦
          rw (i, j)
            (Perm.trans (Perm.cons q (rw j at (keep-insert_by_age p r qs)))
              (Perm.swap r q (keep p qs)))
      | inr j ↦ rw (i, j) (Perm.cons q (rw j at (keep-insert_by_age p r qs)))
    ]
    | inr i ↦ elim (Bool-cases (p r)) [
      | inl j ↦ rw (i, j) (rw j at (keep-insert_by_age p r qs))
      | inr j ↦ rw (i, j) (rw j at (keep-insert_by_age p r qs))
    ]
  ])
]

keep-sort_by_age :
    (p : OutboxRecord → Bool) (rs : List OutboxRecord) → Perm (keep p (sort_by_age rs)) (keep p rs)
unfolding sort_by_age
keep-sort_by_age p [] = Perm.refl _
keep-sort_by_age p (r ∷ rs) =
    Perm.trans (keep-insert_by_age p r (sort_by_age rs)) (elim (Bool-cases (p r)) [
      | inl i ↦ rw i (Perm.cons r (keep-sort_by_age p rs))
      | inr i ↦ rw i (keep-sort_by_age p rs)
    ])

-- After any calls on a new store a claim succeeds, takes as many as it may, at most `limit`, and
-- leases what it takes for the store's lease, which is all that it changes. The records that it
-- takes and those that it leaves are, oldest first, exactly the pending ones that are available and
-- not leased, each as often.
pub claim_oldest_first :
    (lease : ℕ) (cs : List Call) (now limit : ℕ)
    → let s = run cs (init lease) in
      (due rest : List OutboxRecord) × (s' : Store) × (claim now limit s ≡ some (due, s'))
      × Perm (due ++ rest) (keep (is_claimable now s) (values s.records))
      × IsSorted (due ++ rest)
      × (length due ≤ limit)
      × ((rest ≡ []) ⊎ (length due ≡ limit))
      × ((i : ℕ)
          → lookup i s'.leased ≡ (if has_id i due then some (now + s.lease) else lookup i s.leased))
      × (s' ≡ record s { leased = s'.leased })
unfolding claim with_status
claim_oldest_first lease cs now limit =
    let s = run cs (init lease) in
    let v = run-IsValid cs (init lease) (init-IsValid lease) in
    let listed = keep (has_status pending s.status) (values s.records) in
    let chosen =
      select_lem pending s.status (values s.records)
        (values_indexed s.status s.records v.indexed) in
    let all = keep (is_due now s) (sort_by_age listed) in
    let (bound, full) = length-take_or limit all in
    let due = take limit all in
    (
      due,
      drop limit all,
      lease_all (now + s.lease) due s,
      rw (chosen, claim, with_status) refl,
      rw (take-append-drop limit all, ← keep-is_claimable now s (values s.records))
          (keep-sort_by_age (is_due now s) listed),
      rw (take-append-drop limit all)
          (keep-IsSorted (is_due now s) (sort_by_age listed) (sort_by_age-IsSorted listed)),
      bound,
      full,
      λ i. lease_all-leased i (now + s.lease) due s,
      lease_all_lem (now + s.lease) due s,
    )
