-- ===== src/Events/Outbox/Store/Validity.antt =====
-- What holds of a store after any calls: every record is indexed by its id and has a status.
use stratae.Prelude.{
  ℕ, ◌+◌, true, List, [], ◌∷◌, ◌==◌, ==_refl, ◌≡◌, refl, inl, inr, arith, Bool-cases, Option-cases,
  All,
}
use stratae.Python.Dict.{Dict, insert, contains, IsKeyed, contains-insert, insert-IsKeyed}
use stratae.Events.Outbox.Record.{OutboxRecord}
use stratae.Events.Outbox.Store.{
  Status, pending, sent, failed, Store, init, settle, keep_records, with_status, add, lease_all,
  claim, mark_sent, reschedule, mark_failed,
}
use stratae.Events.Outbox.Store.Leases.{
  Call, adds, reschedules, parks, claims, sends, apply, run, after_claim,
}

-- Every record is kept under its id, and has a status.
pub record IsValid (s : Store) : Type 0 where
  pub keyed : IsKeyed s.records
  pub indexed : All (λ e. (e.1.id ≡ e.0) × (contains e.0 s.status ≡ true)) s.records

All-insert :
    (P : ℕ × OutboxRecord → Type 0) (k : ℕ) (r : OutboxRecord) (d : Dict OutboxRecord)
    → All P d
    → P (k, r)
    → All P (insert k r d)
All-insert P k r [] h p = (p, tt)
All-insert P k r (e ∷ d) h p = elim (Bool-cases (k == e.0)) [
  | inl same ↦ rw same (p, h.1)
  | inr other ↦ rw other (h.0, All-insert P k r d h.1 p)
]

indexed_after :
    (k : ℕ) (st : Status) (status : Dict Status) (d : Dict OutboxRecord)
    → All (λ e. (e.1.id ≡ e.0) × (contains e.0 status ≡ true)) d
    → All (λ e. (e.1.id ≡ e.0) × (contains e.0 (insert k st status) ≡ true)) d
indexed_after k st status [] h = tt
indexed_after k st status (e ∷ d) h =
    ((h.0.0, rw (contains-insert e.0 k st status) (ground arith)), indexed_after k st status d h.1)

settle-IsValid : (r : OutboxRecord) (st : Status) (s : Store) → IsValid s → IsValid (settle r st s)
unfolding settle
settle-IsValid r st s v = record {
  keyed = insert-IsKeyed r.id r s.records v.keyed;
  indexed =
      All-insert _ r.id r s.records (indexed_after r.id st s.status s.records v.indexed)
        (refl, rw (contains-insert r.id r.id st s.status) (rw (==_refl r.id)));
}

mark_sent-IsValid : (rs : List OutboxRecord) (s : Store) → IsValid s → IsValid (mark_sent rs s)
unfolding mark_sent
mark_sent-IsValid [] s v = v
mark_sent-IsValid (r ∷ rs) s v = mark_sent-IsValid rs (settle r sent s) (settle-IsValid r sent s v)

add-IsValid : (r : OutboxRecord) (s : Store) → IsValid s → IsValid (add r s)
unfolding add keep_records
add-IsValid r s v = elim (Option-cases s.staged) [
  | inl e ↦ rw (e, add) (settle-IsValid r pending s v)
  | inr (staged, e) ↦ rw (e, add) (record { keyed = v.keyed; indexed = v.indexed })
]

lease_all-IsValid :
    (until : ℕ) (rs : List OutboxRecord) (s : Store) → IsValid s → IsValid (lease_all until rs s)
unfolding lease_all
lease_all-IsValid until [] s v = v
lease_all-IsValid until (r ∷ rs) s v =
    lease_all-IsValid until rs (record s { leased = insert r.id until s.leased })
      (record { keyed = v.keyed; indexed = v.indexed })

claim-IsValid :
    (now limit : ℕ) (s : Store) → IsValid s → IsValid (after_claim s (claim now limit s))
unfolding claim
claim-IsValid now limit s v = elim (Option-cases (with_status pending s)) [
  | inl e ↦ rw (e, claim) v
  | inr (rs, e) ↦ rw (e, claim) (lease_all-IsValid (now + s.lease) _ s v)
]

apply-IsValid : (c : Call) (s : Store) → IsValid s → IsValid (apply c s)
unfolding reschedule mark_failed
apply-IsValid (adds r) s v = add-IsValid r s v
apply-IsValid (reschedules r) s v = settle-IsValid r pending s v
apply-IsValid (parks r) s v = settle-IsValid r failed s v
apply-IsValid (sends rs) s v = mark_sent-IsValid rs s v
apply-IsValid (claims now limit) s v = claim-IsValid now limit s v

pub run-IsValid : (cs : List Call) (s : Store) → IsValid s → IsValid (run cs s)
unfolding run
run-IsValid [] s v = v
run-IsValid (c ∷ cs) s v = run-IsValid cs (apply c s) (apply-IsValid c s v)

pub init-IsValid : (lease : ℕ) → IsValid (init lease)
unfolding init
init-IsValid lease = record { keyed = tt; indexed = tt }
