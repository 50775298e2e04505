-- ===== src/Events/Dispatch.antt =====
-- stratae/events/_dispatch.py: `only_responder`, the request dispatchers, `fan_out` and
-- `fan_out_async`. A handler with its payload is the application's: an action on a state `S` that
-- may raise.
pub mod Failures
use stratae.Prelude.{ℕ, Bool, true, false, List, [], ◌∷◌, ◌++◌, ltb, length, keep, if◌then◌else◌}
use stratae.Python.{Exc, is_exception, Outcome, returned, raised, errors}

-- What `only_responder` gives or raises.
pub data Responder (H : Type 0) : Type 0 where
  responder : H → Responder H
  no_responder : Responder H
  multiple_responders : ℕ → Responder H

-- `only_responder`
unfoldable pub only_responder : {H : Type 0} → List H → Responder H
only_responder [] = no_responder
only_responder (h ∷ []) = responder h
only_responder (h ∷ g ∷ hs) = multiple_responders (length (h ∷ g ∷ hs))

-- What an emit comes to: a value, an exception as it is, or a failure of the bus.
pub data Dispatched (R : Type 0) : Type 0 where
  replied : R → Dispatched R
  propagated : Exc → Dispatched R
  handler_errors : List Exc → Dispatched R
  base_handler_errors : List Exc → Dispatched R
  no_responder_error : Dispatched R
  multiple_responders_error : ℕ → Dispatched R

abbrev pub as_dispatched : {R : Type 0} → Outcome R → Dispatched R
as_dispatched (returned r) = replied r
as_dispatched (raised e) = propagated e

-- `dispatch_request`, and `dispatch_request_async` of a handler that is awaited.
unfoldable pub dispatch_request : {R S : Type 0} → List (S → Outcome R × S) → S → Dispatched R × S
dispatch_request handlers s = elim (only_responder handlers) [
  | responder h ↦ (let r = h s in (as_dispatched r.0, r.1))
  | no_responder ↦ (no_responder_error, s)
  | multiple_responders n ↦ (multiple_responders_error n, s)
]

-- The end of `fan_out`.
abbrev pub raise_errors : List Exc → Dispatched (Unit {0})
raise_errors [] = replied tt
raise_errors (e ∷ es) = handler_errors (e ∷ es)

module _ {S : Type 0} where
  abbrev pub on_error :
      (List Exc → S → Dispatched (Unit {0}) × S)
      → List Exc
      → Exc
      → Bool
      → S
      → Dispatched (Unit {0}) × S
  on_error continue exceptions e true s = continue (exceptions ++ e ∷ []) s
  on_error continue exceptions e false s = (propagated e, s)

module _ {A S : Type 0} where
  abbrev pub on_handler :
      (List Exc → S → Dispatched (Unit {0}) × S)
      → List Exc
      → Outcome A × S
      → Dispatched (Unit {0}) × S
  on_handler continue exceptions (returned _, s) = continue exceptions s
  on_handler continue exceptions (raised e, s) =
      on_error continue exceptions e (is_exception e.kind) s

  -- The loop of `fan_out`.
  unfoldable pub fan_out_loop : List (S → Outcome A × S) → List Exc → S → Dispatched (Unit {0}) × S
  fan_out_loop [] exceptions s = (raise_errors exceptions, s)
  fan_out_loop (h ∷ hs) exceptions s = on_handler (fan_out_loop hs) exceptions (h s)

  -- `fan_out`, over the handlers in the order of its copy of them.
  unfoldable pub fan_out : List (S → Outcome A × S) → S → Dispatched (Unit {0}) × S
  fan_out handlers s = fan_out_loop handlers [] s

-- `fan_out_async` once `asyncio.gather` has given every handler's result, in the handlers' order.
unfoldable pub fan_out_async : {A : Type 0} → List (Outcome A) → Dispatched (Unit {0})
fan_out_async results =
    let raised_errors = keep (λ e. is_exception e.kind) (errors results) in
    if ltb (length raised_errors) (length (errors results))
    then base_handler_errors (errors results)
    else raise_errors raised_errors
