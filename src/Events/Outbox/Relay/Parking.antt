-- ===== src/Events/Outbox/Relay/Parking.antt =====
-- The relay over the in-memory store: how often a record is retried.
use stratae.Prelude.{
  ℕ, suc, ◌+◌, ◌-◌, ◌*◌, ◌^◌, ◌≤◌, ◌<◌, min, true, false, Option, none, some, List, [], ◌∷◌, leb,
  ltb, ==_refl, length, if◌then◌else◌, ◌≡◌, refl, subst, inl, inr, arith, Bool-cases,
}
use stratae.Python.{Exc, Outcome, returned, raised}
use stratae.Python.Dict.{lookup, lookup-insert}
use stratae.Events.Outbox.Record.{OutboxRecord}
use stratae.Events.Outbox.Store.{
  Store, Status, pending, failed, claim, mark_sent, reschedule, mark_failed, settle,
}
use stratae.Events.Outbox.Relay.{OutboxStore, Config, delay, exhausted, counted, fail_record}

abbrev claimed_of :
    Exc → Store → Option (List OutboxRecord × Store) → Outcome (List OutboxRecord) × Store
claimed_of key_error s none = (raised key_error, s)
claimed_of key_error s (some (due, s')) = (returned due, s')

-- `InMemoryOutboxStore` as the relay's store, at one reading of the clock.
unfoldable pub in_memory : Exc → ℕ → OutboxStore Store
in_memory key_error now = record {
  claim = λ limit s. claimed_of key_error s (claim now limit s);
  mark_sent = λ rs s. (returned tt, mark_sent rs s);
  reschedule = λ r s. (returned tt, reschedule r s);
  mark_failed = λ r s. (returned tt, mark_failed r s);
}

-- One more failed publish of the record of that id, if the store still has it pending.
abbrev pub fail_found :
    Config → (OutboxRecord → ℕ) → Exc → Store → Option OutboxRecord → Option Status → Store
fail_found c clock e s (some r) (some pending) = (fail_record (in_memory e 0) c clock r e s).1
fail_found c clock e s _ _ = s

pub fail_again : Config → (OutboxRecord → ℕ) → ℕ → Exc → Store → Store
fail_again c clock i e s = fail_found c clock e s (lookup i s.records) (lookup i s.status)

pub fail_often : Config → (OutboxRecord → ℕ) → ℕ → List Exc → Store → Store
fail_often c clock i [] s = s
fail_often c clock i (e ∷ es) s = fail_often c clock i es (fail_again c clock i e s)

-- What the store has under an id.
abbrev pub Has : ℕ → ℕ → Status → Store → Type 0
Has i attempts st s =
    (r : OutboxRecord) × (lookup i s.records ≡ some r)
    × (r.id ≡ i)
    × (r.attempts ≡ attempts)
    × (lookup i s.status ≡ some st)

settle-Has :
    (i : ℕ) (r : OutboxRecord) (st : Status) (s : Store)
    → r.id ≡ i
    → Has i r.attempts st (settle r st s)
unfolding settle
settle-Has i r st s e = (
  r,
  rw (lookup-insert i r.id r s.records) (rw e (rw (==_refl i) refl)),
  e,
  refl,
  rw (lookup-insert i r.id st s.status) (rw e (rw (==_refl i) refl)),
)

-- A parked record is left alone.
fail_often-parked :
    (c : Config) (clock : OutboxRecord → ℕ) (i k : ℕ) (es : List Exc) (s : Store)
    → Has i k failed s
    → fail_often c clock i es s ≡ s
unfolding fail_often fail_again
fail_often-parked c clock i k [] s h = refl
fail_often-parked c clock i k (e ∷ es) s (r, found, same, count, parked) =
    rw (found, parked) (fail_often-parked c clock i k es s (r, found, same, count, parked))

fail_again_pending :
    (c : Config) (clock : OutboxRecord → ℕ) (i : ℕ) (e : Exc) (s : Store) (r : OutboxRecord)
    → lookup i s.records ≡ some r
    → lookup i s.status ≡ some pending
    → (wait : ℕ)
    → (exhausted c.max_attempts (r.attempts + 1) ≡ false → delay c (r.attempts + 1) ≡ some wait)
    → fail_again c clock i e s ≡ (
        if exhausted c.max_attempts (r.attempts + 1)
        then settle (counted r e) failed s
        else settle (record (counted r e) { available_at = clock r + wait }) pending s)
unfolding fail_again fail_record in_memory reschedule mark_failed
fail_again_pending c clock i e s r found waits wait fits =
    rw (found, waits)
      (elim (Bool-cases (exhausted c.max_attempts (r.attempts + 1))) [
        | inl h ↦ rw (h, fail_found, fail_record) refl
        | inr h ↦ rw (h, fail_found, fail_record) (rw (fits h) refl)
      ])

fail_again-Has :
    (c : Config) (clock : OutboxRecord → ℕ) (i k m : ℕ) (e : Exc) (s : Store)
    → c.max_attempts ≡ some m
    → m ≤ 1025
    → Has i k pending s
    → Has i (k + 1) (if leb m (k + 1) then failed else pending) (fail_again c clock i e s)
fail_again-Has c clock i k m e s limit few (r, found, same, count, waits) =
    let wait = min (c.retry_delay * 2 ^ (r.attempts + 1 - 1)) c.max_retry_delay in
    let tests : exhausted c.max_attempts (r.attempts + 1) ≡ leb m (k + 1) = rw (limit, count) in
    let later : OutboxRecord = record (counted r e) { available_at = clock r + wait } in
    rw
      (fail_again_pending c clock i e s r found waits wait (λ h.
        let under : leb m (r.attempts + 1) ≡ false = rw limit at h in
        let short : leb 1024 (r.attempts + 1 - 1) ≡ false = ground arith in
        elim (Bool-cases c.float_delay) [ inl j ↦ rw (j, short) refl | inr j ↦ rw j refl ]))
      (rw tests (elim (Bool-cases (leb m (k + 1))) [
        | inl park ↦ rw park (
            subst (λ n. Has i (n + 1) failed (settle (counted r e) failed s)) count
              (settle-Has i (counted r e) failed s same))
        | inr retry ↦ rw retry (
            subst (λ n. Has i (n + 1) pending (settle later pending s)) count
              (settle-Has i later pending s same))
      ]))

fail_often-Has :
    (c : Config) (clock : OutboxRecord → ℕ) (i k m : ℕ) (es : List Exc) (s : Store)
    → c.max_attempts ≡ some m
    → m ≤ 1025
    → k < m
    → Has i k pending s
    → Has i
        (min (k + length es) m)
        (if ltb (k + length es) m then pending else failed)
        (fail_often c clock i es s)
unfolding fail_often
fail_often-Has c clock i k m [] s limit few lt h =
    let size : min (k + 0) m ≡ k = omega arith in
    let under : ltb (k + 0) m ≡ true = ground arith in rw size (rw under h)
fail_often-Has c clock i k m (e ∷ es) s limit few lt h =
    let next = fail_again-Has c clock i k m e s limit few h in
    elim (Bool-cases (leb m (k + 1))) [
      | inl park ↦
          let now_parked : Has i (k + 1) failed (fail_again c clock i e s) = rw park at next in
          let size : min (k + suc (length es)) m ≡ k + 1 = ground arith in
          let over : ltb (k + suc (length es)) m ≡ false = ground arith in
          rw (fail_often-parked c clock i (k + 1) es (fail_again c clock i e s) now_parked)
            (rw size (rw over now_parked))
      | inr retry ↦
          let sum : k + suc (length es) ≡ (k + 1) + length es = omega arith in
          rw sum (
            fail_often-Has c clock i (k + 1) m es (fail_again c clock i e s) limit few
              (ground arith) (rw retry at next))
    ]

-- A pending record that no publish has failed for is retried while it has failed fewer than
-- `max_attempts` times and parked as failed from then on, if that is at most 1025: after any number
-- of failures the store has counted them up to that bound, and has the record under the status that
-- goes with it.
pub parks_after_max_attempts :
    (c : Config) (clock : OutboxRecord → ℕ) (i m : ℕ) (es : List Exc) (s : Store)
    → c.max_attempts ≡ some m
    → m ≤ 1025
    → 0 < m
    → Has i 0 pending s
    → Has i
        (min (length es) m)
        (if ltb (length es) m then pending else failed)
        (fail_often c clock i es s)
parks_after_max_attempts c clock i m es s limit few pos h =
    let sum : 0 + length es ≡ length es = omega arith in
    rw sum at (fail_often-Has c clock i 0 m es s limit few pos h)
