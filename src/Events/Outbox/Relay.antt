-- ===== src/Events/Outbox/Relay.antt =====
-- stratae/events/outbox.py: `OutboxRelay`. The store and the publisher are the application's: the
-- store is an interface of actions on a state of its own, and publishing is a function of what it
-- is given. Logging is left out. Delays and intervals count the clock's ticks.
pub mod Described
pub mod Attempts
pub mod Batch
pub mod Backoff
pub mod Parking
use stratae.Prelude.{
  ℕ, ◌+◌, ◌-◌, ◌*◌, ◌^◌, min, Bool, true, false, Option, none, some, List, [], ◌∷◌, ◌++◌, leb, ◌==◌,
  length, keep, not, if◌then◌else◌, is_empty, ◌&&◌,
}
use stratae.Python.{
  Kind, not_connected, connection_error, cancelled_error, base_exception, Exc, Text, Outcome,
  returned, raised,
}
use stratae.Python.Dict.{Dict, lookup}
use stratae.Events.Envelope.{Envelope, Codec, from_headers}
use stratae.Events.Headers.{is_envelope_header}
use stratae.Events.Outbox.Record.{OutboxRecord}

-- `OutboxStore`'s methods that the relay calls, on the application's state `S`; each may raise.
pub record OutboxStore (S : Type 0) : Type 0 where
  pub claim : ℕ → S → Outcome (List OutboxRecord) × S
  pub mark_sent : List OutboxRecord → S → Outcome (Unit {0}) × S
  pub reschedule : OutboxRecord → S → Outcome (Unit {0}) × S
  pub mark_failed : OutboxRecord → S → Outcome (Unit {0}) × S

-- The arguments of `OutboxRelay.__init__`. Whether `retry_delay` is a float, as it is annotated and
-- by default, and the `OverflowError` that its product with a too large int raises.
pub record Config : Type 0 where
  pub batch_size : ℕ
  pub poll_interval : ℕ
  pub max_poll_interval : ℕ
  pub max_attempts : Option ℕ
  pub retry_delay : ℕ
  pub max_retry_delay : ℕ
  pub float_delay : Bool
  pub overflow : Exc

-- The clauses of the `try` around a publish: `except _OUTAGES`, `except Exception`, and none.
pub data Failure : Type 0 where
  unreachable counts aborts : Failure

abbrev pub failure_of : Kind → Failure
failure_of not_connected = unreachable
failure_of connection_error = unreachable
failure_of cancelled_error = aborts
failure_of base_exception = aborts
failure_of _ = counts

-- The names and values of `_added(headers)`.
unfoldable pub added : Dict Text → Dict Text
added headers = keep (λ e. not (is_envelope_header e.0)) headers

-- `_publish`, for routes to `R` (an event with its publisher config): what the publisher's `emit`
-- does with the body, the envelope and the added headers. `invalid` is the `ValueError` of a header
-- that does not parse and `unknown` the `LookupError` of a route that no binding has registered.
module _ {R : Type 0} (codec : Codec)
    (emit : R → ℕ → Envelope → Dict Text → Outcome (Unit {0})) where
  unfoldable pub publish : Exc → Exc → ℕ → ℕ → ℕ → Dict R → OutboxRecord → Outcome (Unit {0})
  publish unknown invalid fresh fresh' now routes r = elim (lookup r.route routes) [
    | none ↦ raised unknown
    | some route ↦ elim (from_headers codec fresh fresh' now r.headers) [
      | none ↦ raised invalid
      | some envelope ↦ emit route r.body envelope (added r.headers)
    ]
  ]

-- `min(retry_delay * 2 ** (attempts - 1), max_retry_delay)`: `none` is the `OverflowError` of an int
-- that is no float. Below that the product is exact, or infinite and over every maximum.
abbrev pub delay : Config → ℕ → Option ℕ
delay c attempts =
    if c.float_delay && leb 1024 (attempts - 1)
    then none
    else some (min (c.retry_delay * 2 ^ (attempts - 1)) c.max_retry_delay)

-- Whether `attempts` failures park a record.
abbrev pub exhausted : Option ℕ → ℕ → Bool
exhausted none attempts = false
exhausted (some m) attempts = leb m attempts

-- `replace(record, attempts=attempts, error=...)`
abbrev pub counted : OutboxRecord → Exc → OutboxRecord
counted r e = record r { attempts = r.attempts + 1; error = some e }

module _ {S : Type 0} (store : OutboxStore S) (c : Config) (clock : OutboxRecord → ℕ) where
  abbrev pub retry_after : OutboxRecord → ℕ → Option ℕ → S → Outcome (Unit {0}) × S
  retry_after failed now none s = (raised c.overflow, s)
  retry_after failed now (some wait) s =
      store.reschedule (record failed { available_at = now + wait }) s

  -- `OutboxRelay._failed`; `clock r` is the time at which it handles the record.
  unfoldable pub fail_record : OutboxRecord → Exc → S → Outcome (Unit {0}) × S
  fail_record r e =
      if exhausted c.max_attempts (r.attempts + 1)
      then store.mark_failed (counted r e)
      else retry_after (counted r e) (clock r) (delay c (r.attempts + 1))

  abbrev pub and_then :
      (S → Outcome (Unit {0}) × S) → Outcome (Unit {0}) × S → Outcome (Unit {0}) × S
  and_then continue (returned _, s) = continue s
  and_then continue (raised e, s) = (raised e, s)

  -- `for waiting in records[index:]: reschedule(waiting)`
  unfoldable pub put_back : List OutboxRecord → S → Outcome (Unit {0}) × S
  put_back [] s = (returned tt, s)
  put_back (r ∷ rs) s = and_then (put_back rs) (store.reschedule r s)

  -- What the `try` block of `_relay_batch` leaves: whether it met an outage or raised, and `sent`.
  abbrev pub Progress : Type 0
  Progress = Outcome Bool × List OutboxRecord × S

  abbrev pub put_back_end : List OutboxRecord → Outcome (Unit {0}) × S → Progress
  put_back_end sent (returned _, s) = (returned true, sent, s)
  put_back_end sent (raised e, s) = (raised e, sent, s)

  abbrev pub after_failed :
      (List OutboxRecord → S → Progress) → List OutboxRecord → Outcome (Unit {0}) × S → Progress
  after_failed continue sent (returned _, s) = continue sent s
  after_failed continue sent (raised e, s) = (raised e, sent, s)

  -- The clause that handles a failed publish, by its kind.
  abbrev pub on_failure :
      (List OutboxRecord → S → Progress)
      → OutboxRecord
      → List OutboxRecord
      → Exc
      → Failure
      → List OutboxRecord
      → S
      → Progress
  on_failure continue r rest e unreachable sent s = put_back_end sent (put_back (r ∷ rest) s)
  on_failure continue r rest e counts sent s = after_failed continue sent (fail_record r e s)
  on_failure continue r rest e aborts sent s = (raised e, sent, s)

  abbrev pub on_publish :
      (List OutboxRecord → S → Progress)
      → OutboxRecord
      → List OutboxRecord
      → Outcome (Unit {0})
      → List OutboxRecord
      → S
      → Progress
  on_publish continue r rest (returned _) sent s = continue (sent ++ r ∷ []) s
  on_publish continue r rest (raised e) sent s =
      on_failure continue r rest e (failure_of e.kind) sent s

  -- The loop of `_relay_batch` over the claimed records, with the list `sent`.
  unfoldable pub relay_loop :
      (OutboxRecord → Outcome (Unit {0})) → List OutboxRecord → List OutboxRecord → S → Progress
  relay_loop publish [] sent s = (returned false, sent, s)
  relay_loop publish (r ∷ rest) sent s =
      on_publish (relay_loop publish rest) r rest (publish r) sent s

  -- The `finally` clause, and the values that `_relay_batch` returns: how many records were
  -- claimed and sent, and whether it met an outage.
  abbrev pub ended : ℕ → ℕ → Outcome Bool → S → Outcome (ℕ × ℕ × Bool) × S
  ended claimed count (returned outage) s = (returned (claimed, count, outage), s)
  ended claimed count (raised e) s = (raised e, s)

  abbrev pub after_marked :
      ℕ → ℕ → Outcome Bool → Outcome (Unit {0}) × S → Outcome (ℕ × ℕ × Bool) × S
  after_marked claimed count o (returned _, s) = ended claimed count o s
  after_marked claimed count o (raised e, s) = (raised e, s)

  abbrev pub finish_batch : ℕ → Progress → Outcome (ℕ × ℕ × Bool) × S
  finish_batch claimed (o, [], s) = ended claimed 0 o s
  finish_batch claimed (o, r ∷ rs, s) =
      after_marked claimed (length (r ∷ rs)) o (store.mark_sent (r ∷ rs) s)

  abbrev pub batch_of :
      (OutboxRecord → Outcome (Unit {0}))
      → Outcome (List OutboxRecord) × S
      → Outcome (ℕ × ℕ × Bool) × S
  batch_of publish (returned records, s) =
      finish_batch (length records) (relay_loop publish records [] s)
  batch_of publish (raised e, s) = (raised e, s)

  -- `_relay_batch`
  unfoldable pub relay_batch : (OutboxRecord → Outcome (Unit {0})) → S → Outcome (ℕ × ℕ × Bool) × S
  unfolding relay_loop
  relay_batch publish s = batch_of publish (store.claim c.batch_size s)

-- What a round of `_run` takes from `_relay_batch`: how many records were claimed, and whether it
-- met an outage; an `Exception`, which is logged, counts as one.
abbrev pub round_of : Outcome (ℕ × ℕ × Bool) → ℕ × Bool
round_of (returned (claimed, count, outage)) = (claimed, outage)
round_of (raised e) = (0, true)

-- One round of `_run`, after its batch: the wait that it sleeps, if it does, and the wait that the
-- next round begins with.
unfoldable pub poll_round : Config → ℕ × Bool → ℕ → Option ℕ × ℕ
poll_round c (claimed, outage) wait =
    let current = if not (claimed == 0) && not outage then c.poll_interval else wait in
    if claimed == c.batch_size && not outage
    then (none, wait)
    else (some current, min (current * 2) c.max_poll_interval)

-- The waits that `_run` sleeps over its first rounds, from what their batches returned.
unfoldable pub poll_loop : Config → List (ℕ × Bool) → ℕ → List ℕ
poll_loop c [] wait = []
poll_loop c (b ∷ bs) wait =
    let (slept, wait') = poll_round c b wait in
    let rest = poll_loop c bs wait' in elim slept [ none ↦ rest | some t ↦ t ∷ rest ]
