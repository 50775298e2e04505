-- ===== src/Rabbit/Consumer.antt =====
-- stratae/integrations/rabbitmq.py: what the consumer does with a delivered message. The broker is
-- a parameter: what each call of a delivery raises, if anything. So are the deserializer, the
-- handler with its hooks and middleware, and the consumer's scope.
use stratae.Prelude.{
  ℕ, suc, Bool, true, false, Option, none, some, List, [], ◌∷◌, ◌++◌, if◌then◌else◌,
}
use stratae.Python.{Text, Exc, Outcome, returned, raised, is_exception}
use stratae.Python.Dict.{Dict}
use stratae.Events.Envelope.{Codec, Envelope}
use stratae.Events.Envelope.Scope.{Draw, scope}
use stratae.Rabbit.{
  Runtime, Properties, Message, attempts, failed, texts, given_headers, envelope_from,
}
use stratae.Rabbit.Policy.{Policy, Config, queue_of, retry_queue, dead_letter_target}

-- `basic_publish` to the default exchange, `basic_ack`, and `basic_nack` without requeue.
pub data Call : Type 0 where
  publish : Text → Properties → ℕ → Call
  ack nack : ℕ → Call

-- What a call raises in this delivery.
abbrev pub Broker : Type 0
Broker = Call → Option Exc

-- The calls that were made, in order, and how the delivery ended.
pub record Run : Type 0 where
  pub calls : List Call
  pub outcome : Outcome (Unit {0})

abbrev pub silent : Outcome (Unit {0}) → Run
silent o = record { calls = []; outcome = o }

abbrev pub answer : Option Exc → Outcome (Unit {0})
answer none = returned tt
answer (some e) = raised e

abbrev pub issue : Broker → Call → Run
issue broker c = record { calls = c ∷ []; outcome = answer (broker c) }

-- `a; b`, where an error of `a` skips `b`.
abbrev pub then_issue : List Call → Outcome (Unit {0}) → Run → Run
then_issue calls (raised e) next = record { calls = calls; outcome = raised e }
then_issue calls (returned _) next = record { calls = calls ++ next.calls; outcome = next.outcome }

-- `async with scope:`, as far as a body's outcome goes.
pub record Block : Type 0 where
  pub enter : Outcome (Unit {0})
  pub exit : Option Exc → Outcome Bool

abbrev pub exited : Outcome (Unit {0}) → Outcome Bool → Outcome (Unit {0})
exited body (raised e) = raised e
exited (returned u) (returned swallowed) = returned u
exited (raised e) (returned swallowed) = if swallowed then returned tt else raised e

abbrev pub error_of : Outcome (Unit {0}) → Option Exc
error_of (returned u) = none
error_of (raised e) = some e

abbrev pub entered : Block → Outcome (Unit {0}) → Outcome (Unit {0}) → Outcome (Unit {0})
entered s (raised e) body = raised e
entered s (returned u) body = exited body (s.exit (error_of body))

abbrev pub in_scope : Option Block → Outcome (Unit {0}) → Outcome (Unit {0})
in_scope none body = body
in_scope (some s) body = entered s s.enter body

-- `_Registration`: its event, its deserializer with the schema, and its handler, which sees the
-- active envelope and the received headers.
pub record Registration (P : Type 0) : Type 0 where
  pub is_signal : Bool
  pub deserializer : Option (ℕ → Outcome P)
  pub config : Config
  pub handler : Option Envelope → Dict Text → P → Outcome (Unit {0})

-- The consumer's own deserializer, its scope, the payload of a signal, and the envelope that is
-- active where deliveries start.
pub record Consumer (P : Type 0) : Type 0 where
  pub deserializer : ℕ → Outcome P
  pub scope : Option Block
  pub no_payload : P
  pub around : Option Envelope

module _ (r : Runtime) where
  abbrev pub fail_target : Policy → Text → ℕ → Option Text → Option Text
  fail_target policy queue earlier (some t) = some t
  fail_target policy queue earlier none = dead_letter_target r policy queue

  -- Where a failed message goes, or `none` to drop it.
  unfoldable pub next_queue : Policy → Text → ℕ → Bool → Option Text
  next_queue policy queue earlier retry =
      fail_target policy queue earlier (if retry then retry_queue r policy queue earlier else none)

  -- The message is published to its next queue, if any, and acked then.
  unfoldable pub forward : Broker → Message → Exc → ℕ → ℕ → Option Text → Run
  forward broker m e tag n none = issue broker (ack tag)
  forward broker m e tag n (some target) =
      let sent = publish target (failed r m.properties n e) m.body in
      then_issue (sent ∷ []) (answer (broker sent)) (issue broker (ack tag))

  abbrev pub fail_tagged : Broker → Config → Message → Exc → Bool → Option Policy → ℕ → Run
  fail_tagged broker config m e retry none tag = issue broker (nack tag)
  fail_tagged broker config m e retry (some policy) tag =
      let earlier = attempts m.properties in
      forward broker m e tag (suc earlier) (next_queue policy (queue_of config) earlier retry)

  abbrev pub fail_delivery : Broker → Config → Message → Exc → Bool → Option ℕ → Run
  fail_delivery broker config m e retry none = silent (returned tt)
  fail_delivery broker config m e retry (some tag) =
      fail_tagged broker config m e retry config.on_failure tag

  -- `_fail`: without a delivery tag nothing is sent.
  unfoldable pub fail : Broker → Config → Message → Exc → Bool → Run
  fail broker config m e retry = fail_delivery broker config m e retry m.delivery_tag

  abbrev pub ack_tagged : Broker → Option ℕ → Run
  ack_tagged broker none = silent (returned tt)
  ack_tagged broker (some tag) = issue broker (ack tag)

  -- `except Exception` of either try: an interrupt goes on, and the message stays unacked.
  abbrev pub caught : Broker → Config → Message → Exc → Bool → Run
  caught broker config m e retry =
      if is_exception e.kind then fail broker config m e retry else silent (raised e)

  module _ {P : Type 0} (codec : Codec) (d : Draw) (consumer : Consumer P)
      (reg : Registration P) where
    abbrev decode : Option (ℕ → Outcome P) → ℕ → Outcome P
    decode none body = consumer.deserializer body
    decode (some own) body = own body

    -- `_deserialize`
    unfoldable pub deserialize : ℕ → Outcome P
    deserialize body =
        if reg.is_signal then returned consumer.no_payload else decode reg.deserializer body

    -- The dispatch of a decoded message: its envelope is active, its headers are received, and the
    -- scope is around the handler.
    unfoldable pub dispatch : Message → P → Outcome (Unit {0})
    dispatch m payload =
        (scope d (envelope_from r codec d m.properties)
          (λ e active. (
            in_scope consumer.scope
                (reg.handler active (texts (given_headers m.properties.headers)) payload),
            active,
          ))
          consumer.around).0

    abbrev pub on_handled : Broker → Message → Outcome (Unit {0}) → Run
    on_handled broker m (returned _) = ack_tagged broker m.delivery_tag
    on_handled broker m (raised e) = caught broker reg.config m e true

    abbrev pub on_decoded : Broker → Message → Outcome P → Run
    on_decoded broker m (returned payload) = on_handled broker m (dispatch m payload)
    on_decoded broker m (raised e) = caught broker reg.config m e false

    -- `_deliver`
    unfoldable pub deliver : Broker → Message → Run
    deliver broker m = on_decoded broker m (deserialize m.body)
