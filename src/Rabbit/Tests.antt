-- ===== src/Rabbit/Tests.antt =====
-- Runs of the consumer on small messages, and the theorems at them.
use stratae.Prelude.{
  ℕ, true, false, none, some, List, [], ◌∷◌, ◌++◌, map, ◌+◌, ◌*◌, ◌≡◌, refl, some_inj, arith,
}
use stratae.Python.{Text, Exc, exception, returned, raised}
use stratae.Events.Envelope.{Codec, root}
use stratae.Events.Envelope.Scope.{Draw, scope}
use stratae.Rabbit.{Runtime, Message, no_properties, attempts, failed, stamp}
use stratae.Rabbit.Policy.{Policy, retry_queue, retry_queue_name, dead_letter_target, new_config}
use stratae.Rabbit.Consumer.{
  in_scope, publish, ack, Consumer, Registration, next_queue, forward, fail, deserialize, dispatch,
  deliver,
}
use stratae.Rabbit.Settling.{IsSettled, deliver-IsSettled}
use stratae.Rabbit.Keeping.{acks, IsKept, deliver-IsKept}
use stratae.Rabbit.Queues.{IsAmong, consumed_queue, declare}
use stratae.Rabbit.Routing.{Reaches, deliver-Reaches}
use stratae.Rabbit.Journey.{journey, KeepsFailing, IsApart, takes_all, listed, journey-retries}
use stratae.Rabbit.Publisher.{Target, taken, opens, drops, refused, new_publisher}
use stratae.Rabbit.Declaring.{Op, sends, changes, IsOrdered, perform_all, perform_all-IsOrdered}
use stratae.Rabbit.Registrations.{
  Move, register, remove, advance, connect, connected, new_world, move, run,
}
use stratae.Rabbit.Consuming.{AreCalm, FitsStatus, run-FitsStatus}
use stratae.Rabbit.Envelopes.{resent}
use stratae.Rabbit.Receiving.{dispatch-resent}
use stratae.Python.Dict.{Dict, lookup}

abbrev runtime : Runtime
runtime = record {
  is_positive = λ seconds. true;
  round_milliseconds = λ seconds. 1000 * seconds;
  retry_name = λ queue ms. 100000 + ms;
  dead_letter_name = λ queue. 77;
  describe = λ e. e.id;
  str = λ v. 0;
}

abbrev codec : Codec
codec = record {
  print_id = λ i. i;
  parse_id = λ t. some t;
  print_time = λ t. t;
  parse_time = λ t. some t;
  parse-print_id = λ i. refl;
  parse-print_time = λ t. refl;
}

abbrev draw : Draw
draw = record { id = 91; other_id = 92; now = 93 }

abbrev policy : Policy
policy = record { retry_delays = 1 ∷ 10 ∷ []; dead_letter = true; dead_letter_queue = none }

abbrev error : Exc
error = record { id = 55; kind = exception; cause = none }

abbrev consumer : Consumer ℕ
consumer = record {
  deserializer = λ body. returned body;
  scope = none;
  no_payload = 0;
  around = none;
}

abbrev failing : Registration ℕ
failing = record {
  is_signal = false;
  deserializer = none;
  config = record { queue = some 7; on_failure = some policy };
  handler = λ e headers payload. raised error;
}

abbrev message : Message
message = record { body = 3; properties = no_properties; delivery_tag = some 40 }

-- It goes to the first retry queue, and is acked then.
failing_run :
    (deliver runtime codec draw consumer failing takes_all message).calls
    ≡ publish 101000 (failed runtime no_properties 1 error) 3 ∷ ack 40 ∷ []
unfolding deliver deserialize dispatch scope fail forward next_queue retry_queue attempts failed
failing_run = refl

-- A policy for a queue whose name is the empty text is accepted.
empty_queue :
    new_config (some 0) none (some policy)
    ≡ some (record { queue = some 0; on_failure = some policy })
unfolding new_config
empty_queue = refl

acked : acks (deliver runtime codec draw consumer failing takes_all message).calls ≡ true
acked = rw failing_run refl

keeps_failing : KeepsFailing runtime codec draw consumer failing policy 3 error 3
unfolding deserialize dispatch scope
keeps_failing = record { under = refl; decodes = refl; ordinary = refl; raises = λ m. refl }

unattempted : attempts no_properties ≡ 0
unfolding attempts
unattempted = refl

is_apart : IsApart runtime codec draw consumer failing policy 3 error
unfolding dead_letter_target
is_apart t delay h = rw (← some_inj h) (ground arith)

deliver-IsSettled_example :
    IsSettled (some 40) (deliver runtime codec draw consumer failing takes_all message)
deliver-IsSettled_example = deliver-IsSettled runtime takes_all codec draw consumer failing message

deliver-IsKept_example :
    IsKept runtime takes_all codec draw consumer failing message 40
      (deliver runtime codec draw consumer failing takes_all message).calls
deliver-IsKept_example =
    deliver-IsKept runtime takes_all codec draw consumer failing message 40 refl acked

deliver-Reaches_example :
    Reaches
      (λ name.
        IsAmong (consumed_queue failing.config none) name (declare runtime failing.config none))
      (deliver runtime codec draw consumer failing takes_all message).calls
deliver-Reaches_example =
    deliver-Reaches runtime codec draw consumer failing takes_all message 7 none refl refl

journey-retries_example :
    journey runtime codec draw consumer failing policy (40 ∷ 41 ∷ 42 ∷ []) 3 no_properties
    ≡ map (retry_queue_name runtime 7) (1 ∷ 10 ∷ []) ++ listed (dead_letter_target runtime policy 7)
journey-retries_example =
    journey-retries runtime codec draw consumer failing policy 3 error (40 ∷ 41 ∷ 42 ∷ []) 3 0
      no_properties keeps_failing is_apart unattempted (omega arith)

dispatch-resent_example :
    (seen : Dict Text) × (dispatch runtime codec draw consumer failing
        (record {
          body = 3;
          properties =
              resent runtime codec
                ((1, error) ∷ (2, error) ∷ [])
                (stamp codec none (root 11 12 13) ((70, 8) ∷ []));
          delivery_tag = some 40;
        })
        3
      ≡ in_scope none (raised error))
    × (lookup 70 seen ≡ some 8)
dispatch-resent_example =
    dispatch-resent runtime codec draw consumer failing 3 40 ((1, error) ∷ (2, error) ∷ []) none
      (root 11 12 13) ((70, 8) ∷ []) 3 70 tt refl refl (refl, tt) refl (omega arith)

-- A handler that is removed while the connection is being opened keeps its consumer.
removed_while_opening :
    (run (register ∷ connect ∷ advance ∷ advance ∷ remove ∷ connected ∷ []) new_world).live ≡ 0 ∷ []
unfolding run move
removed_while_opening = refl

-- A handler that is registered meanwhile is not started.
registered_while_opening : (run (connect ∷ register ∷ connected ∷ []) new_world).starts ≡ []
unfolding run move
registered_while_opening = refl

abbrev removed_early : List Move
removed_early = connect ∷ connected ∷ register ∷ advance ∷ remove ∷ advance ∷ []

calm_removal : AreCalm removed_early new_world
unfolding move
calm_removal = (tt, (tt, (refl, (tt, (refl, (tt, tt))))))

-- The handler is removed while its start is in flight, which cancels the consumer then.
run-FitsStatus_example :
    FitsStatus (run removed_early new_world).status (run removed_early new_world)
run-FitsStatus_example = run-FitsStatus removed_early calm_removal

abbrev orders : Target
orders = record {
  exchange = 200;
  routing_key = 201;
  exchange_type = some 202;
  mandatory = false;
  properties = none;
}

abbrev sending : Op
sending = sends (root 11 12 13) [] orders (returned 3) none taken

abbrev reconnected : List Op
reconnected =
    changes (opens [])
    ∷ sending
    ∷ sending
    ∷ changes (drops true)
    ∷ sending
    ∷ changes (opens (refused ∷ []))
    ∷ changes (opens [])
    ∷ sending
    ∷ []

-- The exchange is declared by the topology and by a publish on each of the two connections; between
-- them the topology is refused once.
perform_all-IsOrdered_example :
    IsOrdered (perform_all codec reconnected (new_publisher (some 200 ∷ []))).log
perform_all-IsOrdered_example = perform_all-IsOrdered codec (some 200 ∷ []) reconnected
