-- ===== src/Events/Outbox/Relay/Described.antt =====
-- What one batch of the relay should do, described record by record.
use stratae.Prelude.{
  ℕ, ◌+◌, ◌*◌, ◌^◌, min, Bool, true, false, none, some, List, [], ◌∷◌, leb, keep, not, ◌&&◌, ◌||◌,
  if◌then◌else◌, ◌≡◌,
}
use stratae.Python.{
  Kind, not_connected, connection_error, Exc, is_exception, Outcome, returned, raised,
}
use stratae.Events.Outbox.Record.{OutboxRecord}
use stratae.Events.Outbox.Relay.{OutboxStore, Config}

-- A store none of whose methods raises.
pub record IsTotal {S : Type 0} (store : OutboxStore S) : Type 0 where
  pub marks : (rs : List OutboxRecord) (s : S) → (store.mark_sent rs s).0 ≡ returned tt
  pub reschedules : (r : OutboxRecord) (s : S) → (store.reschedule r s).0 ≡ returned tt
  pub parks : (r : OutboxRecord) (s : S) → (store.mark_failed r s).0 ≡ returned tt

-- The broker cannot be reached.
abbrev pub is_outage : Kind → Bool
is_outage not_connected = true
is_outage connection_error = true
is_outage _ = false

abbrev pub is_returned : Outcome (Unit {0}) → Bool
is_returned (returned _) = true
is_returned (raised e) = false

module _ (c : Config) where
  -- One failure more exhausts the attempts that the record has.
  abbrev pub at_limit : OutboxRecord → Bool
  at_limit r = elim c.max_attempts [ none ↦ false | some m ↦ leb m (r.attempts + 1) ]

  -- The wait before the record's next attempt is more than a float takes.
  abbrev pub overflows : OutboxRecord → Bool
  overflows r = not (at_limit r) && (c.float_delay && leb 1024 r.attempts)

  -- Whether the batch ends at a record: its publish met an outage, raised no `Exception`, or failed
  -- once more than its wait can count.
  abbrev pub stops_at : OutboxRecord → Outcome (Unit {0}) → Bool
  stops_at r (returned _) = false
  stops_at r (raised e) = is_outage e.kind || (not (is_exception e.kind) || overflows r)

  -- How the batch ends at a record: with an outage, or with an exception.
  abbrev pub end_at : OutboxRecord → Outcome (Unit {0}) → Outcome Bool
  end_at r (returned _) = returned false
  end_at r (raised e) =
      if is_outage e.kind
      then returned true
      else if is_exception e.kind
      then if overflows r then raised c.overflow else returned false
      else raised e

  module _ (publish : OutboxRecord → Outcome (Unit {0})) where
    -- The records before the one at which the batch ends, and the others.
    unfoldable pub handled : List OutboxRecord → List OutboxRecord
    handled [] = []
    handled (r ∷ rs) = if stops_at r (publish r) then [] else r ∷ handled rs

    unfoldable pub unhandled : List OutboxRecord → List OutboxRecord
    unhandled [] = []
    unhandled (r ∷ rs) = if stops_at r (publish r) then r ∷ rs else unhandled rs

    abbrev pub end_of : List OutboxRecord → Outcome Bool
    end_of [] = returned false
    end_of (r ∷ rs) = end_at r (publish r)

    -- The records that are put back as they were: all from the outage on.
    abbrev pub waiting_of : List OutboxRecord → List OutboxRecord
    waiting_of rs = elim (end_of rs) [ returned outage ↦ if outage then rs else [] | raised e ↦ [] ]

-- Those of the handled records that were published, and those whose publish failed.
module _ (publish : OutboxRecord → Outcome (Unit {0})) where
  abbrev pub sent_of : List OutboxRecord → List OutboxRecord
  sent_of rs = keep (λ r. is_returned (publish r)) rs

  abbrev pub failed_of : List OutboxRecord → List OutboxRecord
  failed_of rs = keep (λ r. not (is_returned (publish r))) rs

module _ {S : Type 0} (store : OutboxStore S) (c : Config) (clock : OutboxRecord → ℕ) where
  -- One failed attempt more: the record is parked at its limit, and else due again once its wait is
  -- over, which doubles with each attempt up to the maximum.
  unfoldable pub attempted : OutboxRecord → Exc → S → S
  attempted r e s =
      let failed : OutboxRecord = record r { attempts = r.attempts + 1; error = some e } in
      if at_limit c r
      then (store.mark_failed failed s).1
      else (store.reschedule
          (record failed {
            available_at = clock r + min (c.retry_delay * 2 ^ r.attempts) c.max_retry_delay;
          })
          s).1

  abbrev pub fail_step : OutboxRecord → Outcome (Unit {0}) → S → S
  fail_step r (returned _) s = s
  fail_step r (raised e) s = attempted r e s

  -- The state after the failures of some records were counted, and after some were put back.
  unfoldable pub fail_all : (OutboxRecord → Outcome (Unit {0})) → List OutboxRecord → S → S
  fail_all publish [] s = s
  fail_all publish (r ∷ rs) s = fail_all publish rs (fail_step r (publish r) s)

  unfoldable pub mark_all : List OutboxRecord → S → S
  mark_all [] s = s
  mark_all (r ∷ rs) s = (store.mark_sent (r ∷ rs) s).1

  unfoldable pub put_back_all : List OutboxRecord → S → S
  put_back_all [] s = s
  put_back_all (r ∷ rs) s = put_back_all rs (store.reschedule r s).1

-- What the batch reports, or raises.
abbrev pub reported : {S : Type 0} → ℕ → ℕ → Outcome Bool → S → Outcome (ℕ × ℕ × Bool) × S
reported claimed count (returned outage) s = (returned (claimed, count, outage), s)
reported claimed count (raised e) s = (raised e, s)
