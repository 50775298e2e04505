-- ===== src/Events/Outbox/Relay/Attempts.antt =====
-- The single steps of the relay's loop, against the description: a failure's clause, its counted
-- attempt, and the records that are put back.
use mathlib.Core.List.{Perm, perm_middle}
use mathlib.Core.List.Perm
use stratae.Prelude.{
  ℕ, ◌+◌, ◌-◌, ◌*◌, ◌^◌, min, leb, Bool, true, false, none, some, List, [], ◌∷◌, ◌++◌, keep, not,
  ◌&&◌, if◌then◌else◌, ◌≡◌, refl, ap, subst, ◌∙◌, inl, inr, Bool-cases, clash, arith,
}
use stratae.Python.{
  Kind, stop_iteration, stop_async_iteration, runtime_error, type_error, not_connected,
  connection_error, exception, cancelled_error, base_exception, Exc, is_exception, Outcome,
  returned, raised,
}
use stratae.Events.Outbox.Record.{OutboxRecord}
use stratae.Events.Outbox.Relay.{
  OutboxStore, Config, Failure, unreachable, counts, aborts, failure_of, fail_record, put_back,
  counted, delay, and_then, exhausted,
}
use stratae.Events.Outbox.Relay.Described.{
  IsTotal, is_outage, is_returned, at_limit, overflows, stops_at, handled, unhandled, sent_of,
  failed_of, attempted, put_back_all,
}

-- What each clause of the `try` takes.
abbrev pub Takes : Failure → Kind → Type 0
Takes unreachable k = is_outage k ≡ true
Takes counts k = (is_outage k ≡ false) × (is_exception k ≡ true)
Takes aborts k = (is_outage k ≡ false) × (is_exception k ≡ false)

pub failure_of-Takes : (k : Kind) → Takes (failure_of k) k
failure_of-Takes not_connected = refl
failure_of-Takes connection_error = refl
failure_of-Takes cancelled_error = (refl, refl)
failure_of-Takes base_exception = (refl, refl)
failure_of-Takes stop_iteration = (refl, refl)
failure_of-Takes stop_async_iteration = (refl, refl)
failure_of-Takes runtime_error = (refl, refl)
failure_of-Takes type_error = (refl, refl)
failure_of-Takes exception = (refl, refl)

exhausted_lem :
    (c : Config) (r : OutboxRecord) → exhausted c.max_attempts (r.attempts + 1) ≡ at_limit c r
exhausted_lem c r =
    elim c.max_attempts
      as (λ m.
        exhausted m (r.attempts + 1) ≡ elim m [ none ↦ false | some n ↦ leb n (r.attempts + 1) ]) [
          | none ↦ refl
          | some m ↦ refl
        ]

keep-perm :
    (p : OutboxRecord → Bool) (rs : List OutboxRecord)
    → Perm (keep p rs ++ keep (λ r. not (p r)) rs) rs
keep-perm p [] = Perm.refl []
keep-perm p (r ∷ rs) = elim (Bool-cases (p r)) [
  | inl h ↦ rw h (Perm.cons r (keep-perm p rs))
  | inr h ↦ rw h (
      Perm.trans (perm_middle (keep p rs) (keep (λ q. not (p q)) rs))
        (Perm.cons r (keep-perm p rs)))
]

handled-append :
    (c : Config) (publish : OutboxRecord → Outcome (Unit {0})) (rs : List OutboxRecord)
    → handled c publish rs ++ unhandled c publish rs ≡ rs
unfolding handled unhandled
handled-append c publish [] = refl
handled-append c publish (r ∷ rs) = elim (Bool-cases (stops_at c r (publish r))) [
  | inl h ↦ rw h refl
  | inr h ↦ rw h (ap (◌∷◌ r) (handled-append c publish rs))
]

-- Nothing is lost and nothing is taken twice.
pub batch-perm :
    (c : Config) (publish : OutboxRecord → Outcome (Unit {0})) (records : List OutboxRecord)
    → Perm
        ((sent_of publish (handled c publish records)
            ++ failed_of publish (handled c publish records))
          ++ unhandled c publish records)
        records
batch-perm c publish records =
    subst
      (λ rs.
        Perm
          ((sent_of publish (handled c publish records)
              ++ failed_of publish (handled c publish records))
            ++ unhandled c publish records)
          rs)
      (handled-append c publish records)
      (Perm.append (keep-perm (λ r. is_returned (publish r)) (handled c publish records))
        (Perm.refl (unhandled c publish records)))

module _ {S : Type 0} (store : OutboxStore S) (c : Config) (clock : OutboxRecord → ℕ) where
  and_then_lem :
      (k : S → Outcome (Unit {0}) × S) (p : Outcome (Unit {0}) × S)
      → p.0 ≡ returned tt
      → and_then store c clock k p ≡ k p.1
  and_then_lem k (returned _, s) h = refl
  and_then_lem k (raised e, s) h = cc

  pub put_back_lem :
      IsTotal store
      → (rs : List OutboxRecord) (s : S)
      → put_back store c clock rs s ≡ (returned tt, put_back_all store c clock rs s)
  unfolding put_back put_back_all
  put_back_lem total [] s = refl
  put_back_lem total (r ∷ rs) s =
      and_then_lem (put_back store c clock rs) (store.reschedule r s) (total.reschedules r s)
      ∙ put_back_lem total rs (store.reschedule r s).1

  whole : (p : Outcome (Unit {0}) × S) → p.0 ≡ returned tt → p ≡ (returned tt, p.1)
  whole (returned _, s) h = refl
  whole (raised e, s) h = cc

  delay_lem :
      (r : OutboxRecord)
      → delay c (r.attempts + 1) ≡ (
          if c.float_delay && leb 1024 r.attempts
          then none
          else some (min (c.retry_delay * 2 ^ r.attempts) c.max_retry_delay))
  delay_lem r = let one : r.attempts + 1 - 1 ≡ r.attempts = omega arith in rw one refl

  pub fail_record-attempted :
      IsTotal store
      → (r : OutboxRecord) (e : Exc) (s : S) → overflows c r ≡ false
      → fail_record store c clock r e s ≡ (returned tt, attempted store c clock r e s)
  unfolding fail_record attempted
  fail_record-attempted total r e s h = elim (Bool-cases (at_limit c r)) [
    | inl park ↦
        rw (exhausted_lem c r, park) (whole (store.mark_failed (counted r e) s) (total.parks _ s))
    | inr retry ↦
        let fits : (c.float_delay && leb 1024 r.attempts) ≡ false = rw retry at h in
        rw (exhausted_lem c r, retry, delay_lem r, fits) (whole _ (total.reschedules _ s))
  ]

  pub fail_record-overflows :
      (r : OutboxRecord) (e : Exc) (s : S)
      → overflows c r ≡ true
      → fail_record store c clock r e s ≡ (raised c.overflow, s)
  unfolding fail_record
  fail_record-overflows r e s h = elim (Bool-cases (at_limit c r)) [
    | inl park ↦ clash h (rw park refl)
    | inr retry ↦
        let over : (c.float_delay && leb 1024 r.attempts) ≡ true = rw retry at h in
        rw (exhausted_lem c r, retry, delay_lem r, over) refl
  ]
