-- ===== src/Events/Tests.antt =====
-- The theorems on envelopes, headers, middleware, hooks and dispatch at concrete values.
use stratae.Prelude.{
  ℕ, ◌+◌, Bool, true, false, none, some, List, [], ◌∷◌, ◌==◌, if◌then◌else◌, ◌≡◌, refl,
}
use stratae.Python.{Exc, exception, base_exception, Outcome, returned, raised}
use stratae.Events.Envelope.{Envelope, Codec, to_headers, from_headers}
use stratae.Events.Envelope.RoundTrip.{union, from_headers-to_headers}
use stratae.Events.Envelope.Scope.{Draw, chain, Follows, chain-Follows}
use stratae.Events.Headers.{Lower}
use stratae.Events.Middleware.{
  value, Middleware, run_middleware, run_middleware_async, open_manager, enter_layer, exit_layer,
  entry, checked, refuse_swallow, run_from, unwind,
}
use stratae.Events.Middleware.Nesting.{nested, run_middleware-nested}
use stratae.Events.Hooks.{Hook, Hooks, run_hooks}
use stratae.Events.Hooks.Outcomes.{guarded, run_hooks-guarded}
use stratae.Events.Direct.{Bus, Registration, has, handlers}
use stratae.Events.Direct.Handlers.{AreSync}
use stratae.Events.Direct.Registry.{Call, registers, removes, run, is_registered, run-registered}
use stratae.Events.Dispatch.{handler_errors, fan_out}
use stratae.Events.Dispatch.Failures.{run_all, fan_out-run_all}

abbrev numerals : Codec
numerals = record {
  print_id = λ i. i;
  parse_id = λ t. some t;
  print_time = λ i. i;
  parse_time = λ t. some t;
  parse-print_id = λ i. refl;
  parse-print_time = λ t. refl;
}

abbrev an_envelope : Envelope
an_envelope = record { message_id = 11; correlation_id = 12; causation_id = none; timestamp = 14 }

-- The header 70 is another's.
from_headers-to_headers_example :
    from_headers numerals 1 2 3 (union ((70, 8) ∷ []) (to_headers numerals an_envelope))
    ≡ some an_envelope
from_headers-to_headers_example =
    from_headers-to_headers numerals 1 2 3 an_envelope ((70, 8) ∷ []) refl

abbrev draw : ℕ → Draw
draw n = record { id = n; other_id = n + 1; now = n }

chain-Follows_example :
    (es : List Envelope) × (chain ((draw 20, none) ∷ (draw 30, some an_envelope) ∷ []) none
      ≡ (returned es, none))
    × Follows ((draw 20, none) ∷ (draw 30, some an_envelope) ∷ []) none es
chain-Follows_example = chain-Follows ((draw 20, none) ∷ (draw 30, some an_envelope) ∷ []) none

abbrev lower_case : Lower
lower_case = record { lower = λ name. name; lower_reserved = λ name r. refl }

abbrev an_error : ℕ → Exc
an_error id = record { id = id; kind = exception; cause = none }

-- A middleware that counts its exits, and tries to swallow every error.
abbrev swallowing : Middleware ℕ ℕ
swallowing = record {
  make = λ seen. (
    returned (record {
      has_async = false;
      has_sync = true;
      enter = λ seen'. (returned (value true), seen'.1);
      aenter = λ seen'. (returned (value true), seen'.1);
      exit = λ error seen'. (returned (value true), seen'.1 + 1);
      aexit = λ error seen'. (returned (value true), seen'.1 + 1);
    }),
    seen.1,
  );
  new_error = 40;
}

abbrev fails_at_three : ℕ → Outcome ℕ × ℕ
fails_at_three s = if s == 3 then (raised (an_error 1), s) else (returned s, s)

-- The error that the middleware swallows is raised in another's place.
swallowed :
    (run_middleware fails_at_three (swallowing ∷ []) (none, 3)).0
    ≡ raised (record { id = 40; kind = exception; cause = some 1 })
unfolding run_middleware run_from open_manager entry enter_layer exit_layer checked refuse_swallow
    unwind
swallowed = refl

abbrev never_cancelling : ℕ → Bool
never_cancelling s = false

run_middleware-nested_example :
    (run_middleware fails_at_three (swallowing ∷ swallowing ∷ []) (none, 3)
      ≡ nested (λ s. true) false fails_at_three (swallowing ∷ swallowing ∷ []) (none, 3))
    × (run_middleware_async never_cancelling fails_at_three (swallowing ∷ swallowing ∷ []) (none, 3)
        ≡ nested never_cancelling true fails_at_three (swallowing ∷ swallowing ∷ []) (none, 3))
run_middleware-nested_example =
    run_middleware-nested never_cancelling fails_at_three (swallowing ∷ swallowing ∷ []) (none, 3)

-- A `before` hook that counts, and a `success` hook that fails.
abbrev counting : Hook (Unit {0}) ℕ
counting = record { run = λ a s. (returned false, s + 1); new_error = 50 }

abbrev failing : Hook ℕ ℕ
failing = record { run = λ a s. (raised (an_error 2), s); new_error = 51 }

abbrev two_hooks : Hooks ℕ ℕ
two_hooks = record { before = counting ∷ []; success = failing ∷ []; failure = []; complete = [] }

run_hooks-guarded_example :
    run_hooks two_hooks fails_at_three ([], 2)
    ≡ guarded (counting ∷ []) two_hooks fails_at_three [] 2
run_hooks-guarded_example =
    run_hooks-guarded two_hooks fails_at_three [] 2 ((λ a s. refl, tt), (tt, tt))

abbrev adds_one : ℕ → Outcome ℕ × ℕ
adds_one s = (returned s, s + 1)

abbrev raises_one : ℕ → Outcome ℕ × ℕ
raises_one s = (raised (an_error 1), s)

fan_out-run_all_example :
    fan_out (raises_one ∷ adds_one ∷ raises_one ∷ []) 0
    ≡ (handler_errors (an_error 1 ∷ an_error 1 ∷ []), 1)
unfolding run_all
fan_out-run_all_example =
    fan_out-run_all (raises_one ∷ adds_one ∷ raises_one ∷ []) 0 (refl, (tt, (refl, tt)))

abbrev an_interrupt : Exc
an_interrupt = record { id = 3; kind = base_exception; cause = none }

abbrev three_results : List (Outcome ℕ)
three_results = raised (an_error 1) ∷ returned 5 ∷ raised an_interrupt ∷ []

abbrev sync_bus : Bus
sync_bus = record { asynchronous = false; has_middleware = true }

abbrev sync_handler : Registration
sync_handler = record { fn_async = false; hooks_async = none }

abbrev async_handler : Registration
async_handler = record { fn_async = true; hooks_async = none }

abbrev every_event : ℕ → Bool
every_event event = true

-- Handlers 7 and 9 are registered, 8 is refused, and 7 is removed.
abbrev four_calls : List Call
four_calls =
    registers 1 7 sync_handler
    ∷ registers 1 8 async_handler
    ∷ registers 1 9 sync_handler
    ∷ removes 1 7
    ∷ []

run-registered_example :
    ((id : ℕ)
      → has id (handlers 1 (run every_event sync_bus four_calls []))
        ≡ is_registered every_event sync_bus 1 id four_calls false)
    × (false ≡ false → AreSync (handlers 1 (run every_event sync_bus four_calls [])))
run-registered_example = run-registered every_event sync_bus four_calls 1
