-- ===== src/Rabbit/Journey.antt =====
-- Where a message goes whose handling keeps failing: its deliveries one after the other, where the
-- broker hands what waits in a retry queue back to the consumed queue, as the queue was declared.
use stratae.Prelude.{
  ℕ, zero, suc, Bool, true, false, Option, none, some, List, [], ◌∷◌, ◌++◌, map, ◌==◌, ◌<◌,
  if◌then◌else◌, ◌≡◌, refl, ap, ◌∙◌, length, drop, arith, Bool-cases, clash, inl, inr, ==_refl,
}
use stratae.Python.{Text, Exc, returned, raised, is_exception}
use stratae.Python.Dict.{insert, lookup-insert}
use stratae.Events.Envelope.{Codec}
use stratae.Events.Envelope.Scope.{Draw}
use stratae.Rabbit.{
  Runtime, whole, text, Properties, Message, attempts, failed, given_headers, attempts_header,
  failure_header,
}
use stratae.Rabbit.Policy.{
  Policy, delay_at, retry_queue_name, retry_queue, dead_letter_target, queue_of,
}
use stratae.Rabbit.Consumer.{
  Call, publish, ack, nack, Broker, Consumer, Registration, forward, fail, next_queue, deserialize,
  dispatch, deliver,
}
use stratae.Rabbit.Queues.{
  Declared, declare_failure_queues, retry_declared, dead_letter_declared, fromkeys, Mem-fromkeys,
  Mem-delay_at,
}
use mathlib.Core.List.{Memᴰ}
use mathlib.Core.List.Memᴰ

-- The queue that an expired message of a queue goes on to.
abbrev pub expires_to : Text → List Declared → Option Text
expires_to name [] = none
expires_to name (q ∷ qs) =
    if name == q.name
    then elim q.expires [ none ↦ none | some e ↦ some e.1 ]
    else expires_to name qs

-- The first message published.
abbrev pub published : List Call → Option (Text × Properties)
published [] = none
published (publish name p body ∷ cs) = some (name, p)
published (ack tag ∷ cs) = published cs
published (nack tag ∷ cs) = published cs

-- A broker that takes every call.
abbrev pub takes_all : Broker
takes_all c = none

module _ {P : Type 0} (r : Runtime) (codec : Codec) (d : Draw) (consumer : Consumer P)
    (reg : Registration P) (policy : Policy) where
  abbrev pub goes_back : Text → Option Text → Bool
  goes_back queue none = false
  goes_back queue (some q) = q == queue

  -- The queues that a message is published to, one after the other, over deliveries of the tags:
  -- from a queue that expires into the consumed one it is delivered again.
  abbrev pub on_published : (Properties → List Text) → Option (Text × Properties) → List Text
  on_published again none = []
  on_published again (some sent) =
      if goes_back (queue_of reg.config)
        (expires_to sent.0 (declare_failure_queues r (queue_of reg.config) policy))
      then sent.0 ∷ again sent.1
      else sent.0 ∷ []

  unfoldable pub journey : List ℕ → ℕ → Properties → List Text
  journey [] body p = []
  journey (tag ∷ tags) body p = on_published (journey tags body) (
      published
        (deliver r codec d consumer reg takes_all
          (record { body = body; properties = p; delivery_tag = some tag })).calls)

attempts-failed : (r : Runtime) (p : Properties) (n : ℕ) (e : Exc) → attempts (failed r p n e) ≡ n
unfolding attempts failed
attempts-failed r p n e =
    let h = insert attempts_header (whole n) (given_headers p.headers) in
    rw
      (
        lookup-insert attempts_header failure_header (text (r.describe e)) h,
        lookup-insert attempts_header attempts_header (whole n) (given_headers p.headers),
      )
      refl

abbrev next_of : Option ℕ → List ℕ → List ℕ
next_of none ds = []
next_of (some d) ds = d ∷ ds

drop-delay_at : (n : ℕ) (ds : List ℕ) → drop n ds ≡ next_of (delay_at ds n) (drop (suc n) ds)
drop-delay_at zero [] = refl
drop-delay_at (suc n) [] = refl
drop-delay_at zero (x ∷ xs) = refl
drop-delay_at (suc n) (x ∷ xs) = drop-delay_at n xs

-- What waits in a retry queue goes back to the consumed one.
expires_to-retry :
    (r : Runtime) (queue : Text) (rest : List Declared) (d : ℕ) (ds : List ℕ)
    → Memᴰ d ds
    → expires_to (retry_queue_name r queue d) (map (retry_declared r queue) ds ++ rest) ≡ some queue
expires_to-retry r queue rest d [] m = elim (Memᴰ.not-nil m) [ ]
expires_to-retry r queue rest d (x ∷ xs) m =
    elim (Bool-cases (retry_queue_name r queue d == retry_queue_name r queue x)) [
      | inl same ↦ rw same refl
      | inr differs ↦ elim (Memᴰ.cases_cons m) [
        | inl i ↦ clash (rw i (==_refl (retry_queue_name r queue x))) differs
        | inr n ↦ rw differs (expires_to-retry r queue rest d xs n)
      ]
    ]

-- What is in another queue stays there.
expires_to-other :
    (r : Runtime) (queue name : Text) (rest : List Declared) (ds : List ℕ)
    → ((d : ℕ) → (name == retry_queue_name r queue d) ≡ false)
    → expires_to name (map (retry_declared r queue) ds ++ rest) ≡ expires_to name rest
expires_to-other r queue name rest [] h = refl
expires_to-other r queue name rest (x ∷ xs) h = rw (h x) (expires_to-other r queue name rest xs h)

abbrev pub listed : Option Text → List Text
listed none = []
listed (some t) = t ∷ []

abbrev pub sent_of : Runtime → Properties → ℕ → Exc → Option Text → Option (Text × Properties)
sent_of r p n e none = none
sent_of r p n e (some t) = some (t, failed r p n e)

published-forward :
    (r : Runtime) (m : Message) (e : Exc) (tag n : ℕ) (target : Option Text)
    → published (forward r takes_all m e tag n target).calls ≡ sent_of r m.properties n e target
unfolding forward
published-forward r m e tag n none = refl
published-forward r m e tag n (some t) = refl

module _ {P : Type 0} (r : Runtime) (codec : Codec) (d : Draw) (consumer : Consumer P)
    (reg : Registration P) (policy : Policy) (payload : P) (e : Exc) where
  -- The message decodes, and what handles it raises the same ordinary error whenever it is
  -- delivered.
  pub record KeepsFailing (body : ℕ) : Type 0 where
    pub under : reg.config.on_failure ≡ some policy
    pub decodes : deserialize r codec d consumer reg body ≡ returned payload
    pub ordinary : is_exception e.kind ≡ true
    pub raises : (m : Message) → dispatch r codec d consumer reg m payload ≡ raised e

  deliver-failing :
      (body tag : ℕ) (p : Properties)
      → KeepsFailing body
      → published
          (deliver r codec d consumer reg takes_all
            (record { body = body; properties = p; delivery_tag = some tag })).calls
        ≡ sent_of r p
            (suc (attempts p))
            e
            (next_queue r policy (queue_of reg.config) (attempts p) true)
  unfolding deliver fail
  deliver-failing body tag p k =
      let m : Message = record { body = body; properties = p; delivery_tag = some tag } in
      let target = next_queue r policy (queue_of reg.config) (attempts p) true in
      rw (k.decodes, k.raises m, k.ordinary, k.under)
        (published-forward r m e tag (suc (attempts p)) target)

  -- The dead-letter queue is none of the retry queues.
  abbrev pub IsApart : Type 0
  IsApart =
      (t : Text) (delay : ℕ)
      → dead_letter_target r policy (queue_of reg.config) ≡ some t
      → (t == retry_queue_name r (queue_of reg.config) delay) ≡ false

  on_published-dead :
      (p : Properties) (n : ℕ) (again : Properties → List Text) (dead : Option Text)
      → IsApart
      → dead_letter_target r policy (queue_of reg.config) ≡ dead
      → on_published r codec d consumer reg policy again (sent_of r p n e dead) ≡ listed dead
  unfolding declare_failure_queues
  on_published-dead p n again none apart i = refl
  on_published-dead p n again (some t) apart i = rw i (
      rw
        (
          expires_to-other r (queue_of reg.config) t (dead_letter_declared (some t))
              (fromkeys policy.retry_delays) (λ delay. apart t delay i),
          ==_refl t,
        )
        refl)

  on_published-retry :
      (p : Properties) (n delay : ℕ) (again : Properties → List Text)
      → Memᴰ delay policy.retry_delays
      → on_published r codec d consumer reg policy again
          (sent_of r p n e (some (retry_queue_name r (queue_of reg.config) delay)))
        ≡ retry_queue_name r (queue_of reg.config) delay ∷ again (failed r p n e)
  unfolding declare_failure_queues
  on_published-retry p n delay again m =
      let queue = queue_of reg.config in
      rw
        (
          expires_to-retry r queue (dead_letter_declared (dead_letter_target r policy queue)) delay
              (fromkeys policy.retry_delays) (Mem-fromkeys delay policy.retry_delays m),
          ==_refl queue,
        )
        refl

  -- The step of the journey by the delay that the message's count leads to.
  on_published-next :
      (tags : List ℕ) (body : ℕ) (p : Properties) (n : ℕ) (o : Option ℕ)
      → IsApart
      → delay_at policy.retry_delays n ≡ o
      → ((delay : ℕ)
          → o ≡ some delay
          → journey r codec d consumer reg policy tags body (failed r p (suc n) e)
            ≡ map (retry_queue_name r (queue_of reg.config)) (drop (suc n) policy.retry_delays)
              ++ listed (dead_letter_target r policy (queue_of reg.config)))
      → on_published r codec d consumer reg policy
          (journey r codec d consumer reg policy tags body)
          (sent_of r p (suc n) e (next_queue r policy (queue_of reg.config) n true))
        ≡ map
            (retry_queue_name r (queue_of reg.config))
            (next_of o (drop (suc n) policy.retry_delays))
          ++ listed (dead_letter_target r policy (queue_of reg.config))
  unfolding next_queue retry_queue
  on_published-next tags body p n none apart i later = rw i (
      on_published-dead p (suc n) (journey r codec d consumer reg policy tags body)
        (dead_letter_target r policy (queue_of reg.config)) apart refl)
  on_published-next tags body p n (some delay) apart i later = rw i (
      on_published-retry p (suc n) delay (journey r codec d consumer reg policy tags body)
        (Mem-delay_at policy.retry_delays n delay i)
      ∙ ap (λ l. retry_queue_name r (queue_of reg.config) delay ∷ l) (later delay refl))

  -- A message that keeps failing, after any number of attempts, is published to the retry queue of
  -- each delay that is left, in order, coming back from each, and then to the dead-letter queue if
  -- the policy has one, and to none after: over one delivery more than there are delays left,
  -- where the broker takes every call and the dead-letter queue is none of the retry queues.
  pub journey-retries :
      (tags : List ℕ) (body n : ℕ) (p : Properties)
      → KeepsFailing body
      → IsApart
      → attempts p ≡ n
      → length (drop n policy.retry_delays) < length tags
      → journey r codec d consumer reg policy tags body p
        ≡ map (retry_queue_name r (queue_of reg.config)) (drop n policy.retry_delays)
          ++ listed (dead_letter_target r policy (queue_of reg.config))
  unfolding journey
  journey-retries [] body n p k apart a size = let no : ⊥ = omega arith in elim no [ ]
  journey-retries (tag ∷ tags) body n p k apart a size =
      let o = delay_at policy.retry_delays n in
      rw (deliver-failing body tag p k, a, drop-delay_at n policy.retry_delays)
        (on_published-next tags body p n o apart refl (λ delay i.
          let left = rw (drop-delay_at n policy.retry_delays, i) at size in
          journey-retries tags body (suc n) (failed r p (suc n) e) k apart
            (attempts-failed r p (suc n) e) (omega (arith, left))))
