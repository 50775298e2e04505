-- ===== src/Rabbit/Routing.antt =====
-- That whatever a delivery publishes goes to a queue that was declared.
use stratae.Prelude.{
  ℕ, suc, Bool, true, false, Option, none, some, List, [], ◌∷◌, ◌==◌, ◌≡◌, refl, inl, inr,
  Bool-cases, Option-cases,
}
use stratae.Python.{Text, Exc, Outcome, returned, raised, is_exception}
use stratae.Events.Envelope.{Codec}
use stratae.Events.Envelope.Scope.{Draw}
use stratae.Rabbit.{Runtime, Message, attempts, failed}
use stratae.Rabbit.Policy.{Policy, Config, queue_of}
use stratae.Rabbit.Consumer.{
  Call, publish, ack, nack, Broker, Consumer, Registration, next_queue, forward, fail_delivery,
  fail, ack_tagged, caught, deserialize, dispatch, on_handled, on_decoded, deliver,
}
use stratae.Rabbit.Queues.{IsAmong, consumed_queue, declare, next_queue-IsAmong}

-- Every publish among the calls is to such a queue.
abbrev pub Reaches : (Text → Type 0) → List Call → Type 0
Reaches Q [] = Unit {0}
Reaches Q (publish name p body ∷ cs) = Q name × Reaches Q cs
Reaches Q (ack tag ∷ cs) = Reaches Q cs
Reaches Q (nack tag ∷ cs) = Reaches Q cs

module _ (r : Runtime) (broker : Broker) (Q : Text → Type 0) where
  forward-Reaches :
      (m : Message) (e : Exc) (tag n : ℕ) (target : Option Text)
      → ((t : Text) → target ≡ some t → Q t)
      → Reaches Q (forward r broker m e tag n target).calls
  unfolding forward
  forward-Reaches m e tag n none q = tt
  forward-Reaches m e tag n (some t) q =
      elim (Option-cases (broker (publish t (failed r m.properties n e) m.body))) [
        | inl accepted ↦ rw accepted (q t refl, tt)
        | inr (x, refused) ↦ rw refused (q t refl, tt)
      ]

  module _ (config : Config) (m : Message) where
    -- What the policy chooses for the message.
    abbrev Chosen : Type 0
    Chosen =
        (policy : Policy) (retry : Bool) (t : Text)
        → config.on_failure ≡ some policy
        → next_queue r policy (queue_of config) (attempts m.properties) retry ≡ some t
        → Q t

    fail-Reaches :
        (e : Exc) (retry : Bool) (policy : Option Policy) (tag : Option ℕ)
        → Chosen
        → config.on_failure ≡ policy
        → Reaches Q (fail_delivery r broker config m e retry tag).calls
    fail-Reaches e retry policy none q h = tt
    fail-Reaches e retry none (some tag) q h = rw h tt
    fail-Reaches e retry (some policy) (some tag) q h =
        let n = attempts m.properties in
        rw h (
          forward-Reaches m e tag (suc n) (next_queue r policy (queue_of config) n retry)
            (λ t. q policy retry t h))

    caught-Reaches :
        (e : Exc) (retry : Bool) → Chosen → Reaches Q (caught r broker config m e retry).calls
    unfolding fail
    caught-Reaches e retry q = elim (Bool-cases (is_exception e.kind)) [
      | inl i ↦ rw i (fail-Reaches e retry config.on_failure m.delivery_tag q refl)
      | inr i ↦ rw i tt
    ]

    ack-Reaches : (tag : Option ℕ) → Reaches Q (ack_tagged r broker tag).calls
    ack-Reaches none = tt
    ack-Reaches (some tag) = tt

  module _ {P : Type 0} (codec : Codec) (d : Draw) (consumer : Consumer P)
      (reg : Registration P) where
    handled-Reaches :
        (m : Message) (o : Outcome (Unit {0}))
        → Chosen reg.config m
        → Reaches Q (on_handled r codec d consumer reg broker m o).calls
    handled-Reaches m (returned u) q = ack-Reaches reg.config m m.delivery_tag
    handled-Reaches m (raised e) q = caught-Reaches reg.config m e true q

    decoded-Reaches :
        (m : Message) (o : Outcome P)
        → Chosen reg.config m
        → Reaches Q (on_decoded r codec d consumer reg broker m o).calls
    decoded-Reaches m (returned p) q = handled-Reaches m (dispatch r codec d consumer reg m p) q
    decoded-Reaches m (raised e) q = caught-Reaches reg.config m e false q

module _ {P : Type 0} (r : Runtime) (codec : Codec) (d : Draw) (consumer : Consumer P) where
  -- Where a config names its queue by a text that is not empty, whatever a delivery publishes goes
  -- to a queue that was declared with the consumed one: a retry queue, which hands its messages
  -- back to the queue that is consumed, or the dead-letter queue.
  pub deliver-Reaches :
      (reg : Registration P) (broker : Broker) (m : Message) (q : Text) (answered : Option Text)
      → reg.config.queue ≡ some q
      → (q == 0) ≡ false
      → Reaches
          (λ name.
            IsAmong (consumed_queue reg.config answered) name (declare r reg.config answered))
          (deliver r codec d consumer reg broker m).calls
  unfolding deliver declare consumed_queue
  deliver-Reaches reg broker m q answered is_named full =
      decoded-Reaches r broker
        (λ name. IsAmong (consumed_queue reg.config answered) name (declare r reg.config answered))
        codec d consumer reg m (deserialize r codec d consumer reg m.body)
        (λ policy retry t kept h.
          rw (is_named, full, kept)
            (next_queue-IsAmong r policy q (attempts m.properties) retry t (rw is_named at h)))
