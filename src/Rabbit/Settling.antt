-- ===== src/Rabbit/Settling.antt =====
-- How deliveries settle their messages: acks and nacks, and what becomes of a failed message.
use stratae.Prelude.{
  ℕ, suc, Bool, true, false, Option, none, some, List, [], ◌∷◌, ◌≡◌, refl, ◌⊎◌, inl, inr,
  Bool-cases, Option-cases,
}
use stratae.Python.{Text, Exc, Outcome, returned, raised, is_exception}
use stratae.Events.Envelope.{Codec}
use stratae.Events.Envelope.Scope.{Draw}
use stratae.Rabbit.{Runtime, Message, attempts, failed}
use stratae.Rabbit.Policy.{Policy, Config, queue_of}
use stratae.Rabbit.Consumer.{
  Call, publish, ack, nack, Broker, Run, Consumer, Registration, silent, next_queue, forward,
  fail_delivery, fail, ack_tagged, caught, deserialize, dispatch, on_handled, on_decoded, deliver,
}

-- The tags that are acked or nacked.
abbrev pub settlements : List Call → List ℕ
settlements [] = []
settlements (publish q p body ∷ cs) = settlements cs
settlements (ack tag ∷ cs) = tag ∷ settlements cs
settlements (nack tag ∷ cs) = tag ∷ settlements cs

-- The message is acked or nacked once, or the delivery raises without; without a tag, nothing is
-- sent.
abbrev pub IsSettled : Option ℕ → Run → Type 0
IsSettled none run = run.calls ≡ []
IsSettled (some tag) run =
    (settlements run.calls ≡ tag ∷ [])
    ⊎ ((settlements run.calls ≡ []) × (e : Exc) × (run.outcome ≡ raised e))

module _ (r : Runtime) (broker : Broker) where
  forward-IsSettled :
      (m : Message) (e : Exc) (tag n : ℕ) (target : Option Text)
      → IsSettled (some tag) (forward r broker m e tag n target)
  unfolding forward
  forward-IsSettled m e tag n none = inl refl
  forward-IsSettled m e tag n (some t) =
      elim (Option-cases (broker (publish t (failed r m.properties n e) m.body))) [
        | inl accepted ↦ rw accepted (inl refl)
        | inr (x, refused) ↦ rw refused (inr (refl, x, refl))
      ]

  fail-IsSettled :
      (config : Config) (m : Message) (e : Exc) (retry : Bool) (policy : Option Policy)
      (tag : Option ℕ)
      → config.on_failure ≡ policy
      → IsSettled tag (fail_delivery r broker config m e retry tag)
  fail-IsSettled config m e retry policy none h = refl
  fail-IsSettled config m e retry none (some tag) h = rw h (inl refl)
  fail-IsSettled config m e retry (some policy) (some tag) h = rw h (
      let earlier = attempts m.properties in
      forward-IsSettled m e tag (suc earlier) (next_queue r policy (queue_of config) earlier retry))

  ack-IsSettled : (tag : Option ℕ) → IsSettled tag (ack_tagged r broker tag)
  ack-IsSettled none = refl
  ack-IsSettled (some tag) = inl refl

  interrupt-IsSettled : (tag : Option ℕ) (e : Exc) → IsSettled tag (silent (raised e))
  interrupt-IsSettled none e = refl
  interrupt-IsSettled (some tag) e = inr (refl, e, refl)

  caught-IsSettled :
      (config : Config) (m : Message) (e : Exc) (retry : Bool)
      → IsSettled m.delivery_tag (caught r broker config m e retry)
  unfolding fail
  caught-IsSettled config m e retry = elim (Bool-cases (is_exception e.kind)) [
    | inl i ↦ rw i (fail-IsSettled config m e retry config.on_failure m.delivery_tag refl)
    | inr i ↦ rw i (interrupt-IsSettled m.delivery_tag e)
  ]

  module _ {P : Type 0} (codec : Codec) (d : Draw) (consumer : Consumer P)
      (reg : Registration P) where
    handled-IsSettled :
        (m : Message) (o : Outcome (Unit {0}))
        → IsSettled m.delivery_tag (on_handled r codec d consumer reg broker m o)
    handled-IsSettled m (returned u) = ack-IsSettled m.delivery_tag
    handled-IsSettled m (raised e) = caught-IsSettled reg.config m e true

    decoded-IsSettled :
        (m : Message) (o : Outcome P)
        → IsSettled m.delivery_tag (on_decoded r codec d consumer reg broker m o)
    decoded-IsSettled m (returned p) = handled-IsSettled m (dispatch r codec d consumer reg m p)
    decoded-IsSettled m (raised e) = caught-IsSettled reg.config m e false

    -- Whatever a message's decoding, handler and scope come to, and whatever the broker's calls
    -- raise, a delivery acks or nacks the message once, or raises without having done either; of a
    -- message without a delivery tag nothing is sent.
    pub deliver-IsSettled :
        (m : Message) → IsSettled m.delivery_tag (deliver r codec d consumer reg broker m)
    unfolding deliver
    deliver-IsSettled m = decoded-IsSettled m (deserialize r codec d consumer reg m.body)
