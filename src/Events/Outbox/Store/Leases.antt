-- ===== src/Events/Outbox/Store/Leases.antt =====
-- Leases: a claimed record stays with the relay that claimed it.
use stratae.Prelude.{
  ℕ, ◌+◌, ◌≤◌, ◌<◌, Bool, true, false, Option, none, some, List, [], ◌∷◌, ltb, ltb→lt, ◌==◌, ==_iff,
  clash, keep, take, if◌then◌else◌, ◌||◌, ◌≡◌, refl, inl, inr, arith, Bool-cases, Option-cases, All,
  All-keep, All-take,
}
use native.Mathlib.Nat.{le_refl}
use stratae.Python.Dict.{lookup, insert, lookup-insert, lookup-erase_ne}
use stratae.Events.Outbox.Record.{OutboxRecord}
use stratae.Events.Outbox.Store.{
  Status, pending, sent, failed, Store, settle, keep_records, with_status, add, is_due, lease_all,
  claim, mark_sent, reschedule, mark_failed,
}

abbrev pub has_id : ℕ → List OutboxRecord → Bool
has_id i [] = false
has_id i (r ∷ rs) = i == r.id || has_id i rs

-- The calls that a store gets outside a transaction.
pub data Call : Type 0 where
  adds reschedules parks : OutboxRecord → Call
  claims : ℕ → ℕ → Call
  sends : List OutboxRecord → Call

abbrev pub after_claim : Store → Option (List OutboxRecord × Store) → Store
after_claim s none = s
after_claim s (some (due, s')) = s'

abbrev pub apply : Call → Store → Store
apply (adds r) s = add r s
apply (reschedules r) s = reschedule r s
apply (parks r) s = mark_failed r s
apply (claims now limit) s = after_claim s (claim now limit s)
apply (sends rs) s = mark_sent rs s

unfoldable pub run : List Call → Store → Store
run [] s = s
run (c ∷ cs) s = run cs (apply c s)

-- Whether a call stores anew the record of that id.
abbrev pub stores : ℕ → Call → Bool
stores i (adds r) = i == r.id
stores i (reschedules r) = i == r.id
stores i (parks r) = i == r.id
stores i (claims now limit) = false
stores i (sends rs) = has_id i rs

-- A lease on the record that runs until `until` at least.
abbrev IsLeased : ℕ → ℕ → Store → Type 0
IsLeased i until s = (u : ℕ) × (lookup i s.leased ≡ some u) × (until ≤ u)

pub lease_all-leased :
    (i until : ℕ) (rs : List OutboxRecord) (s : Store)
    → lookup i (lease_all until rs s).leased
      ≡ (if has_id i rs then some until else lookup i s.leased)
unfolding lease_all
lease_all-leased i until [] s = refl
lease_all-leased i until (r ∷ rs) s = ground (
  arith,
  lease_all-leased i until rs (record s { leased = insert r.id until s.leased }),
  lookup-insert i r.id until s.leased,
)

abbrev claimable : ℕ → ℕ → Store → List OutboxRecord → List OutboxRecord
claimable now limit s rs = take limit (keep (is_due now s) rs)

is_due-le :
    (now u : ℕ) (s : Store) (r : OutboxRecord)
    → is_due now s r ≡ true
    → lookup r.id s.leased ≡ some u
    → u ≤ now
is_due-le now u s r h e = ground arith

-- A record that is leased past `now` is not due.
not-has_id-claimable :
    (i u now : ℕ) (s : Store) (rs : List OutboxRecord)
    → lookup i s.leased ≡ some u
    → now < u
    → All (λ r. is_due now s r ≡ true) rs
    → has_id i rs ≡ false
not-has_id-claimable i u now s [] e h a = refl
not-has_id-claimable i u now s (r ∷ rs) e h a = elim (Bool-cases (i == r.id)) [
  | inl same ↦
      let le : u ≤ now = is_due-le now u s r a.0 (rw ((==_iff i r.id).0 same) at e) in
      absurd (omega arith)
  | inr other ↦ rw other (not-has_id-claimable i u now s rs e h a.1)
]

All-claimable :
    (now limit : ℕ) (s : Store) (rs : List OutboxRecord)
    → All (λ r. is_due now s r ≡ true) (claimable now limit s rs)
All-claimable now limit s rs = All-take _ limit _ (All-keep (is_due now s) rs)

-- A successful claim, taken apart.
claim-some :
    (now limit : ℕ) (s s' : Store) (due : List OutboxRecord)
    → claim now limit s ≡ some (due, s')
    → (rs : List OutboxRecord) × (with_status pending s ≡ some rs)
      × (due ≡ claimable now limit s rs)
      × (s' ≡ lease_all (now + s.lease) due s)
unfolding claim
claim-some now limit s s' due h = elim (Option-cases (with_status pending s)) [
  | inl e ↦ ground (arith, e)
  | inr (rs, e) ↦ (rs, e, ground (arith, e), ground (arith, e))
]

-- A claim leases what it takes, for the store's lease.
claim-leases :
    (i now limit : ℕ) (s s' : Store) (due : List OutboxRecord)
    → claim now limit s ≡ some (due, s')
    → has_id i due ≡ true
    → IsLeased i (now + s.lease) s'
claim-leases i now limit s s' due h m =
    let (rs, e, d, l) = claim-some now limit s s' due h in
    (now + s.lease, rw l (rw (lease_all-leased i (now + s.lease) due s) (rw m)), omega arith)

-- A claim takes nothing that is leased past its time.
claim-skips :
    (i until now limit : ℕ) (s s' : Store) (due : List OutboxRecord)
    → IsLeased i until s
    → now < until
    → claim now limit s ≡ some (due, s')
    → has_id i due ≡ false
claim-skips i until now limit s s' due (u, e, le) lt h =
    let (rs, _, d, _) = claim-some now limit s s' due h in
    rw d (
      not-has_id-claimable i u now s (claimable now limit s rs) e (omega arith)
        (All-claimable now limit s rs))

-- A claim shortens no lease.
claim-IsLeased :
    (i until now limit : ℕ) (s s' : Store) (due : List OutboxRecord)
    → IsLeased i until s
    → claim now limit s ≡ some (due, s')
    → IsLeased i until s'
claim-IsLeased i until now limit s s' due (u, e, le) h = elim (Bool-cases (has_id i due)) [
  | inl taken ↦ elim (Bool-cases (ltb now u)) [
    | inl early ↦
        clash taken (claim-skips i u now limit s s' due (u, e, le_refl u) (ltb→lt now u early) h)
    | inr late ↦
        let (v, ev, lv) = claim-leases i now limit s s' due h taken in (v, ev, ground arith)
  ]
  | inr left ↦
      let (rs, _, d, l) = claim-some now limit s s' due h in
      (u, rw l (rw (lease_all-leased i (now + s.lease) due s) (rw left e)), le)
]

settle-IsLeased :
    (i until : ℕ) (r : OutboxRecord) (st : Status) (s : Store)
    → (i == r.id) ≡ false
    → IsLeased i until s
    → IsLeased i until (settle r st s)
unfolding settle
settle-IsLeased i until r st s ne (u, e, le) = (u, rw (lookup-erase_ne i r.id s.leased ne) e, le)

mark_sent-IsLeased :
    (i until : ℕ) (rs : List OutboxRecord) (s : Store)
    → has_id i rs ≡ false
    → IsLeased i until s
    → IsLeased i until (mark_sent rs s)
unfolding mark_sent
mark_sent-IsLeased i until [] s h l = l
mark_sent-IsLeased i until (r ∷ rs) s h l =
    mark_sent-IsLeased i until rs (settle r sent s) (ground arith)
      (settle-IsLeased i until r sent s (ground arith) l)

add-IsLeased :
    (i until : ℕ) (r : OutboxRecord) (s : Store)
    → (i == r.id) ≡ false
    → IsLeased i until s
    → IsLeased i until (add r s)
unfolding add keep_records
add-IsLeased i until r s ne l = elim (Option-cases s.staged) [
  | inl e ↦ rw (e, add) (settle-IsLeased i until r pending s ne l)
  | inr (staged, e) ↦ rw (e, add) l
]

apply-IsLeased :
    (i until : ℕ) (c : Call) (s : Store)
    → stores i c ≡ false
    → IsLeased i until s
    → IsLeased i until (apply c s)
unfolding reschedule mark_failed
apply-IsLeased i until (adds r) s ne l = add-IsLeased i until r s ne l
apply-IsLeased i until (reschedules r) s ne l = settle-IsLeased i until r pending s ne l
apply-IsLeased i until (parks r) s ne l = settle-IsLeased i until r failed s ne l
apply-IsLeased i until (sends rs) s ne l = mark_sent-IsLeased i until rs s ne l
apply-IsLeased i until (claims now limit) s ne l = elim (Option-cases (claim now limit s)) [
  | inl e ↦ rw e l
  | inr (d, e) ↦ rw e (claim-IsLeased i until now limit s d.1 d.0 l e)
]

run-IsLeased :
    (i until : ℕ) (cs : List Call) (s : Store)
    → All (λ c. stores i c ≡ false) cs
    → IsLeased i until s
    → IsLeased i until (run cs s)
unfolding run
run-IsLeased i until [] s h l = l
run-IsLeased i until (c ∷ cs) s h l =
    run-IsLeased i until cs (apply c s) h.1 (apply-IsLeased i until c s h.0 l)

-- A claimed record is not claimed again before its lease runs out, whatever other calls the store
-- gets in between, unless one of them stores that record anew.
pub claim_exclusive :
    (i now limit : ℕ) (s s₁ : Store) (due : List OutboxRecord) (cs : List Call)
    → (later limit₂ : ℕ) (s₂ : Store) (due₂ : List OutboxRecord)
    → claim now limit s ≡ some (due, s₁)
    → has_id i due ≡ true
    → All (λ c. stores i c ≡ false) cs
    → later < now + s.lease
    → claim later limit₂ (run cs s₁) ≡ some (due₂, s₂)
    → has_id i due₂ ≡ false
claim_exclusive i now limit s s₁ due cs later limit₂ s₂ due₂ first m between early second =
    claim-skips i (now + s.lease) later limit₂ (run cs s₁) s₂ due₂
      (run-IsLeased i (now + s.lease) cs s₁ between (claim-leases i now limit s s₁ due first m))
      early second
