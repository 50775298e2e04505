-- ===== src/Events/Outbox/Tests.antt =====
-- The outbox theorems at concrete stores, relays and bindings.
use mathlib.Core.List.{Perm}
use stratae.Prelude.{
  ℕ, ◌+◌, ◌≤◌, min, Bool, true, false, none, some, List, [], ◌∷◌, ◌++◌, ◌==◌, keep, length,
  if◌then◌else◌, ◌≡◌, ◌↔◌, suc, refl, ◌⊎◌, arith, ◌*◌,
}
use stratae.Python.{Exc, exception, connection_error, Outcome, returned, raised, Text}
use stratae.Python.Dict.{Dict, lookup, values}
use stratae.Events.Envelope.{Codec, Envelope}
use stratae.Events.Headers.{IsFree}
use stratae.Events.Outbox.Record.{OutboxRecord}
use stratae.Events.Outbox.Store.{
  Store, init, claim, keep_records, with_status, lease_all, add, settle, select, insert_by_age,
  sort_by_age,
}
use stratae.Events.Outbox.Store.Leases.{adds, run, has_id, claim_exclusive}
use stratae.Events.Outbox.Store.Validity.{IsValid, run-IsValid}
use stratae.Events.Outbox.Store.Claimable.{is_claimable}
use stratae.Events.Outbox.Store.Order.{IsSorted, claim_oldest_first}
use stratae.Events.Outbox.Store.Transactions.{
  Work, done, fails, within, attempts, perform, written, perform_lem, transaction_atomic,
}
use stratae.Events.Outbox.Store.Transactions
use stratae.Events.Outbox.Relay.{OutboxStore, Config, relay_batch, delay, publish}
use stratae.Events.Outbox.Relay.Described.{
  IsTotal, handled, unhandled, sent_of, failed_of, end_of, waiting_of, mark_all, put_back_all,
  fail_all, reported,
}
use stratae.Events.Outbox.Relay.Batch.{relay_batch_lem}
use stratae.Events.Outbox.Relay.Backoff.{delay_doubles}
use stratae.Events.Outbox.Relay.Parking.{in_memory}
use stratae.Events.Outbox.Producer.{Event, OutboxConfig, Binding, route_name, register, record_of}
use stratae.Events.Outbox.Producer.Registration.{IsBound, register_lem}
use stratae.Events.Outbox.Producer.Delivery.{publish-record_of}

abbrev message : ℕ → ℕ → OutboxRecord
message id at = record {
  id = id;
  route = 4;
  body = 5;
  headers = [];
  created_at = at;
  available_at = at;
  key = none;
  attempts = 0;
  error = none;
}

abbrev an_error : Exc
an_error = record { id = 1; kind = exception; cause = none }

abbrev an_outage : Exc
an_outage = record { id = 2; kind = connection_error; cause = none }

-- A store with two pending records, the later one added first.
abbrev two_pending : Store
two_pending = run (adds (message 2 20) ∷ adds (message 1 10) ∷ []) (init 60)

abbrev after_one : Store
after_one = lease_all 90 (message 1 10 ∷ []) two_pending

claim_exclusive_example : has_id 1 (message 2 20 ∷ []) ≡ false
unfolding claim with_status select sort_by_age insert_by_age lease_all run add keep_records settle
    init
claim_exclusive_example =
    claim_exclusive 1 30 1 two_pending after_one (message 1 10 ∷ []) [] 80 5
      (lease_all 140 (message 2 20 ∷ []) after_one) (message 2 20 ∷ []) refl refl tt (omega arith)
      refl

claim_oldest_first_example :
    let s = run (adds (message 2 20) ∷ adds (message 1 10) ∷ []) (init 60) in
    (due rest : List OutboxRecord) × (s' : Store) × (claim 30 1 s ≡ some (due, s'))
    × Perm (due ++ rest) (keep (is_claimable 30 s) (values s.records))
    × IsSorted (due ++ rest)
    × (length due ≤ 1)
    × ((rest ≡ []) ⊎ (length due ≡ 1))
    × ((i : ℕ)
        → lookup i s'.leased ≡ (if has_id i due then some (30 + s.lease) else lookup i s.leased))
    × (s' ≡ record s { leased = s'.leased })
claim_oldest_first_example =
    claim_oldest_first 60 (adds (message 2 20) ∷ adds (message 1 10) ∷ []) 30 1

two_pending-IsValid : IsValid two_pending
unfolding init
two_pending-IsValid =
    run-IsValid (adds (message 2 20) ∷ adds (message 1 10) ∷ []) (init 60)
      (record { keyed = tt; indexed = tt })

-- One record is added, a block that adds another fails and is caught, and a third is added.
abbrev caught : Work
caught = Transactions.adds (message 1 10) (
    attempts (Transactions.adds (message 2 20) (fails an_error))
      (Transactions.adds (message 3 30) done))

perform_lem_example :
    perform caught (init 60)
    ≡ (returned tt, keep_records (message 1 10 ∷ message 3 30 ∷ []) (init 60))
unfolding init written keep_records settle
perform_lem_example = perform_lem caught (init 60) refl

abbrev too_large : Exc
too_large = record { id = 3; kind = exception; cause = none }

abbrev five_attempts : Config
five_attempts = record {
  batch_size = 3;
  poll_interval = 1;
  max_poll_interval = 30;
  max_attempts = some 5;
  retry_delay = 2;
  max_retry_delay = 60;
  float_delay = true;
  overflow = too_large;
}

abbrev at_forty : OutboxRecord → ℕ
at_forty r = 40

abbrev relayed : OutboxStore Store
relayed = in_memory an_error 30

-- The publisher fails on record 1, and meets an outage on the others.
abbrev publisher : OutboxRecord → Outcome (Unit {0})
publisher r = if r.id == 1 then raised an_error else raised an_outage

relayed-IsTotal : IsTotal relayed
unfolding in_memory
relayed-IsTotal = record { marks = λ rs s. refl; reschedules = λ r s. refl; parks = λ r s. refl }

abbrev claimed_both : Store
claimed_both = lease_all 90 (message 1 10 ∷ message 2 20 ∷ []) two_pending

relay_batch_lem_example :
    let records = message 1 10 ∷ message 2 20 ∷ [] in
    let sent_records = sent_of publisher (handled five_attempts publisher records) in
    let rest = unhandled five_attempts publisher records in
    (relay_batch relayed five_attempts at_forty publisher two_pending
      ≡ reported 2 (length sent_records) (end_of five_attempts publisher rest) (
          mark_all relayed five_attempts at_forty sent_records (
            put_back_all relayed five_attempts at_forty (waiting_of five_attempts publisher rest) (
              fail_all relayed five_attempts at_forty publisher
                (handled five_attempts publisher records)
                claimed_both))))
    × Perm
        ((sent_records ++ failed_of publisher (handled five_attempts publisher records)) ++ rest)
        records
unfolding in_memory claim with_status select sort_by_age insert_by_age lease_all run add
    keep_records settle init
relay_batch_lem_example =
    relay_batch_lem relayed five_attempts at_forty relayed-IsTotal publisher
      (message 1 10 ∷ message 2 20 ∷ []) two_pending claimed_both refl

delay_doubles_example :
    (60 ≡ min (32 * 2) 60)
    × (32 ≤ 60)
    × (32 ≤ 60)
    × (delay five_attempts 1 ≡ some 2)
    × ((n : ℕ) → (delay five_attempts (suc n) ≡ none) ↔ ((true ≡ true) × (1024 ≤ n)))
delay_doubles_example = delay_doubles five_attempts 4 32 60 refl refl

abbrev order_placed : Event
order_placed = record { id = 1; name = 6; is_pubsub = true; is_signal = false }

abbrev default_config : OutboxConfig
default_config = record { config = 9; route = none; key = none }

abbrev never_equal : ℕ → ℕ → Bool
never_equal known given = false

register_lem_example :
    let (o, routes') =
      register never_equal an_error order_placed default_config ((6, (2, 9)) ∷ []) in
    ((j : Text) (b : Binding) → lookup j ((6, (2, 9)) ∷ []) ≡ some b → lookup j routes' ≡ some b)
    × (((o ≡ returned (route_name order_placed default_config))
          × IsBound never_equal an_error order_placed default_config ((6, (2, 9)) ∷ []) routes')
        ⊎ ((o ≡ raised an_error)
            × (routes' ≡ (6, (2, 9)) ∷ [])
            × (IsBound never_equal an_error order_placed default_config ((6, (2, 9)) ∷ []) routes'
                → ⊥)))
register_lem_example =
    register_lem never_equal an_error order_placed default_config ((6, (2, 9)) ∷ [])

abbrev numerals : Codec
numerals = record {
  print_id = λ i. i;
  parse_id = λ t. some t;
  print_time = λ i. i;
  parse_time = λ t. some t;
  parse-print_id = λ i. refl;
  parse-print_time = λ t. refl;
}

abbrev an_envelope : Envelope
an_envelope = record {
  message_id = 11;
  correlation_id = 12;
  causation_id = some 13;
  timestamp = 14;
}

-- A publisher that raises for a body of 0, and else returns.
abbrev emits : ℕ → ℕ → Envelope → Dict Text → Outcome (Unit {0})
emits route body envelope headers = if body == 0 then raised an_error else returned tt

no_headers-IsFree : IsFree []
no_headers-IsFree = record { keyed = tt; unreserved = λ name r. refl }

publish-record_of_example :
    publish numerals emits an_error an_error 0 0 50
      ((4, 8) ∷ [])
      (record_of numerals default_config 7 an_envelope 4 [] 40 5)
    ≡ returned tt
publish-record_of_example =
    publish-record_of numerals emits an_error an_error 0 0 50 ((4, 8) ∷ []) 8 default_config 7
      an_envelope 4 [] 40 5 no_headers-IsFree refl
