-- ===== src/Rabbit/Keeping.antt =====
-- What a message that the consumer acks has come to: no failed message is lost that its policy
-- keeps.
use stratae.Prelude.{
  ℕ, suc, Bool, true, false, Option, none, some, List, [], ◌∷◌, ◌≡◌, refl, ◌⊎◌, inl, inr,
  Bool-cases, Option-cases, clash,
}
use stratae.Python.{Text, Exc, Outcome, returned, raised, is_exception}
use stratae.Events.Envelope.{Codec}
use stratae.Events.Envelope.Scope.{Draw}
use stratae.Rabbit.{Runtime, Message, Properties, attempts, failed}
use stratae.Rabbit.Handled.{DecodesAs, HandlesAs, deserialize-DecodesAs, dispatch-HandlesAs}
use stratae.Rabbit.Saved.{
  FailedBefore, IsCountedFrom, GoesTo, attempts-FailedBefore, failed-IsCountedFrom,
  next_queue-GoesTo,
}
use stratae.Rabbit.Policy.{Policy, Config, queue_of}
use stratae.Rabbit.Consumer.{
  Call, publish, ack, nack, Broker, Consumer, Registration, next_queue, forward, fail_delivery,
  fail, caught, deserialize, dispatch, on_handled, on_decoded, deliver,
}

-- An ack is among the calls.
abbrev pub acks : List Call → Bool
acks [] = false
acks (publish q p body ∷ cs) = acks cs
acks (ack tag ∷ cs) = true
acks (nack tag ∷ cs) = acks cs

module _ (r : Runtime) (broker : Broker) where
  abbrev IsForwarded : Message → Exc → ℕ → ℕ → Option Text → List Call → Type 0
  IsForwarded m e tag n none calls = calls ≡ ack tag ∷ []
  IsForwarded m e tag n (some target) calls =
      let sent = publish target (failed r m.properties n e) m.body in
      (calls ≡ sent ∷ ack tag ∷ []) × (broker sent ≡ none)

  forward-IsForwarded :
      (m : Message) (e : Exc) (tag n : ℕ) (target : Option Text)
      → acks (forward r broker m e tag n target).calls ≡ true
      → IsForwarded m e tag n target (forward r broker m e tag n target).calls
  unfolding forward
  forward-IsForwarded m e tag n none h = refl
  forward-IsForwarded m e tag n (some t) h =
      elim (Option-cases (broker (publish t (failed r m.properties n e) m.body))) [
        | inl accepted ↦ rw accepted (refl, refl)
        | inr (x, refused) ↦ clash h (rw refused refl)
      ]

  -- The message is dropped, and it is only acked; or it was published to a queue before, with its
  -- failure and one attempt more than it had, and the broker took it.
  abbrev pub IsDelivered : Message → Exc → ℕ → ℕ → Option Text → List Call → Type 0
  IsDelivered m e tag n none calls = calls ≡ ack tag ∷ []
  IsDelivered m e tag n (some target) calls =
      (q : Properties) × (calls ≡ publish target q m.body ∷ ack tag ∷ [])
      × IsCountedFrom r m.properties n e q
      × (broker (publish target q m.body) ≡ none)

  -- A failure under a policy after some before, and where the message went.
  abbrev pub IsSaved : Config → Message → Exc → Bool → ℕ → List Call → Type 0
  IsSaved config m e retry tag calls =
      (policy : Policy) × (config.on_failure ≡ some policy)
      × (n : ℕ) × FailedBefore m.properties n
      × (target : Option Text) × GoesTo r policy (queue_of config) n retry target
      × IsDelivered m e tag n target calls

  forwarded-IsDelivered :
      (m : Message) (e : Exc) (tag n : ℕ) (target : Option Text) (calls : List Call)
      → IsForwarded m e tag (suc n) target calls
      → IsDelivered m e tag n target calls
  forwarded-IsDelivered m e tag n none calls h = h
  forwarded-IsDelivered m e tag n (some t) calls (same, taken) =
      (failed r m.properties (suc n) e, same, failed-IsCountedFrom r m.properties n e, taken)

  fail-IsSaved :
      (config : Config) (m : Message) (e : Exc) (retry : Bool) (policy : Option Policy) (tag : ℕ)
      → config.on_failure ≡ policy
      → acks (fail_delivery r broker config m e retry (some tag)).calls ≡ true
      → IsSaved config m e retry tag (fail_delivery r broker config m e retry (some tag)).calls
  fail-IsSaved config m e retry none tag p h = clash h (rw p refl)
  fail-IsSaved config m e retry (some policy) tag p h =
      let n = attempts m.properties in
      let target = next_queue r policy (queue_of config) n retry in
      (
        policy,
        p,
        n,
        attempts-FailedBefore m.properties,
        target,
        next_queue-GoesTo r policy (queue_of config) n retry,
        rw p (
            forwarded-IsDelivered m e tag n target (forward r broker m e tag (suc n) target).calls
              (forward-IsForwarded m e tag (suc n) target (rw p at h))),
      )

  caught-IsSaved :
      (config : Config) (m : Message) (e : Exc) (retry : Bool) (tag : ℕ)
      → m.delivery_tag ≡ some tag
      → acks (caught r broker config m e retry).calls ≡ true
      → IsSaved config m e retry tag (caught r broker config m e retry).calls
  unfolding fail forward
  caught-IsSaved config m e retry tag t h = elim (Bool-cases (is_exception e.kind)) [
    | inl i ↦ rw (i, t) (fail-IsSaved config m e retry config.on_failure tag refl (rw (i, t) at h))
    | inr i ↦ clash h (rw i refl)
  ]

  module _ {P : Type 0} (codec : Codec) (d : Draw) (consumer : Consumer P)
      (reg : Registration P) where
    -- The message's decoding raised (no retry), or what handled it did.
    abbrev pub FailsWith : Message → Exc → Bool → Type 0
    FailsWith m e false = DecodesAs r codec d consumer reg m (raised e)
    FailsWith m e true =
        (p : P) × DecodesAs r codec d consumer reg m (returned p)
        × HandlesAs r codec d consumer reg m p (raised e)

    abbrev pub IsHandled : Message → Type 0
    IsHandled m =
        (p : P) × DecodesAs r codec d consumer reg m (returned p)
        × HandlesAs r codec d consumer reg m p (returned tt)

    abbrev pub IsKept : Message → ℕ → List Call → Type 0
    IsKept m tag calls =
        IsHandled m
        ⊎ ((e : Exc) × (retry : Bool) × FailsWith m e retry
            × IsSaved reg.config m e retry tag calls)

    handled-IsKept :
        (m : Message) (tag : ℕ) (p : P) (o : Outcome (Unit {0}))
        → m.delivery_tag ≡ some tag
        → deserialize r codec d consumer reg m.body ≡ returned p
        → dispatch r codec d consumer reg m p ≡ o
        → acks (on_handled r codec d consumer reg broker m o).calls ≡ true
        → IsKept m tag (on_handled r codec d consumer reg broker m o).calls
    handled-IsKept m tag p (returned u) t i j h = inl (
      p,
      deserialize-DecodesAs r codec d consumer reg m (returned p) i,
      dispatch-HandlesAs r codec d consumer reg m p (returned tt) j,
    )
    handled-IsKept m tag p (raised e) t i j h =
        let decoded = deserialize-DecodesAs r codec d consumer reg m (returned p) i in
        let handled = dispatch-HandlesAs r codec d consumer reg m p (raised e) j in
        inr (e, true, (p, decoded, handled), caught-IsSaved reg.config m e true tag t h)

    decoded-IsKept :
        (m : Message) (tag : ℕ) (o : Outcome P)
        → m.delivery_tag ≡ some tag
        → deserialize r codec d consumer reg m.body ≡ o
        → acks (on_decoded r codec d consumer reg broker m o).calls ≡ true
        → IsKept m tag (on_decoded r codec d consumer reg broker m o).calls
    decoded-IsKept m tag (returned p) t i h =
        handled-IsKept m tag p (dispatch r codec d consumer reg m p) t i refl h
    decoded-IsKept m tag (raised e) t i h =
        let decoded = deserialize-DecodesAs r codec d consumer reg m (raised e) i in
        inr (e, false, decoded, caught-IsSaved reg.config m e false tag t h)

    -- A message that a delivery acks was decoded, and its handler, given the payload, the headers
    -- and an active envelope, returned inside the scope, or the scope swallowed its error; or the
    -- message failed, in its decoding or its handling, under a policy. Then it was published before,
    -- with its body, its failure and one attempt more in its headers, all else as it was, and the
    -- broker took it: to the retry queue of the delay at its number of failures before, if it was
    -- decoded and there is one, and else to the dead-letter queue, or, only if the policy keeps no
    -- dead letters, to none.
    pub deliver-IsKept :
        (m : Message) (tag : ℕ)
        → m.delivery_tag ≡ some tag
        → acks (deliver r codec d consumer reg broker m).calls ≡ true
        → IsKept m tag (deliver r codec d consumer reg broker m).calls
    unfolding deliver
    deliver-IsKept m tag t h =
        decoded-IsKept m tag (deserialize r codec d consumer reg m.body) t refl h
