-- ===== src/Rabbit/Receiving.antt =====
-- What a handler sees of a message that was published: its envelope and its headers.
use stratae.Prelude.{
  ℕ, ◌<◌, false, Option, none, some, List, [], ◌∷◌, ◌==◌, ◌≡◌, refl, ◌∙◌, inl, inr, Bool-cases,
  Option-cases, ==_iff, ap, arith,
}
use stratae.Python.{Text, Exc}
use stratae.Python.Dict.{
  Dict, lookup, contains, insert, IsKeyed, insert-IsKeyed, lookup-insert, lookup-none,
}
use stratae.Events.Envelope.{Codec, Envelope, causation_id_header, to_headers}
use stratae.Events.Envelope.RoundTrip.{union, to_headers-IsKeyed}
use stratae.Events.Envelope.Scope.{Draw, scope}
use stratae.Rabbit.{
  Runtime, HeaderValue, nothing, whole, negative, text, object, Properties, failed, texts,
  given_headers, given_properties, as_values, stamp, attempts_header, failure_header,
}
use stratae.Rabbit.Consumer.{Consumer, Registration, in_scope, dispatch}
use stratae.Rabbit.Envelopes.{
  lookup-union-some, lookup-union-none, union-IsKeyed, as_values-IsKeyed, resent,
  envelope_from-resent,
}

abbrev text_of : Option HeaderValue → Option Text
text_of none = none
text_of (some (text t)) = some t
text_of (some nothing) = none
text_of (some (whole n)) = none
text_of (some (negative n)) = none
text_of (some (object n)) = none

lookup-texts_skip :
    (j name : Text) (v : HeaderValue) (h : Dict HeaderValue)
    → text_of (some v) ≡ none
    → contains name h ≡ false
    → lookup j (texts h) ≡ text_of (lookup j h)
    → lookup j (texts h) ≡ text_of (lookup j ((name, v) ∷ h))
lookup-texts_skip j name v h skipped fresh rest = elim (Bool-cases (j == name)) [
  | inl i ↦
      rw (i, skipped) (rest ∙ ap text_of (lookup-none j h (rw (← (==_iff j name).0 i) at fresh)))
  | inr i ↦ rw i rest
]

lookup-texts :
    (j : Text) (h : Dict HeaderValue) → IsKeyed h → lookup j (texts h) ≡ text_of (lookup j h)
unfolding texts
lookup-texts j [] k = refl
lookup-texts j ((name, text t) ∷ h) k = elim (Bool-cases (j == name)) [
  | inl i ↦ rw i refl
  | inr i ↦ rw i (lookup-texts j h k.1)
]
lookup-texts j ((name, nothing) ∷ h) k =
    lookup-texts_skip j name nothing h refl k.0 (lookup-texts j h k.1)
lookup-texts j ((name, whole n) ∷ h) k =
    lookup-texts_skip j name (whole n) h refl k.0 (lookup-texts j h k.1)
lookup-texts j ((name, negative n) ∷ h) k =
    lookup-texts_skip j name (negative n) h refl k.0 (lookup-texts j h k.1)
lookup-texts j ((name, object n) ∷ h) k =
    lookup-texts_skip j name (object n) h refl k.0 (lookup-texts j h k.1)

text_of-as_values : (j : Text) (h : Dict Text) → text_of (lookup j (as_values h)) ≡ lookup j h
text_of-as_values j [] = refl
text_of-as_values j (e ∷ es) = elim (Bool-cases (j == e.0)) [
  | inl i ↦ rw i refl
  | inr i ↦ rw i (text_of-as_values j es)
]

lookup-insert_above :
    {V : Type 0} (j name : Text) (v : V) (h : Dict V)
    → name < j
    → lookup j (insert name v h) ≡ lookup j h
lookup-insert_above j name v h above = ground (arith, lookup-insert j name v h)

-- A name that is not of the first dict is looked up in the second.
lookup-union_second :
    {V : Type 0} (j : Text) (h other : Dict V)
    → IsKeyed other
    → lookup j h ≡ none
    → lookup j (union h other) ≡ lookup j other
lookup-union_second j h other k free = elim (Option-cases (lookup j other)) [
  | inl i ↦ rw i (lookup-union-none j h other k i ∙ free)
  | inr (v, i) ↦ rw i (lookup-union-some j v h other k i)
]

module _ (r : Runtime) (codec : Codec) where
  to_headers_other :
      (j m c : ℕ) (p : Option ℕ) (t : ℕ)
      → 6 < j
      → lookup j (
          as_values (
            to_headers codec
              (record { message_id = m; correlation_id = c; causation_id = p; timestamp = t })))
        ≡ none
  unfolding to_headers
  to_headers_other j m c none t above = ground arith
  to_headers_other j m c (some i) t above = ground arith

  -- A message's headers are a dict, and this is what one of its own names is in it.
  abbrev Holds : Text → Option HeaderValue → Properties → Type 0
  Holds j v q = IsKeyed (given_headers q.headers) × (lookup j (given_headers q.headers) ≡ v)

  stamp-Holds :
      (j : Text) (given : Option Properties) (e : Envelope) (headers : Dict Text)
      → IsKeyed (given_headers (given_properties given).headers)
      → lookup j (given_headers (given_properties given).headers) ≡ none
      → IsKeyed headers
      → 6 < j
      → Holds j (lookup j (as_values headers)) (stamp codec given e headers)
  unfolding stamp
  stamp-Holds j given e headers k free l above =
      let base = given_headers (given_properties given).headers in
      let own = as_values (to_headers codec e) in
      let mixed = union base (as_values headers) in
      let m = as_values-IsKeyed headers l in
      (
        union-IsKeyed mixed own (union-IsKeyed base (as_values headers) k),
        lookup-union-none j mixed own
              (as_values-IsKeyed (to_headers codec e)
                (to_headers-IsKeyed codec e.message_id e.correlation_id e.causation_id e.timestamp))
              (to_headers_other j e.message_id e.correlation_id e.causation_id e.timestamp above)
            ∙ lookup-union_second j base (as_values headers) m free,
      )

  resent-Holds :
      (j : Text) (v : Option HeaderValue) (fs : List (ℕ × Exc)) (q : Properties)
      → 6 < j
      → Holds j v q
      → Holds j v (resent r codec fs q)
  unfolding resent failed
  resent-Holds j v [] q above h = h
  resent-Holds j v (f ∷ fs) q above h =
      let own = given_headers q.headers in
      let counted = insert attempts_header (whole f.0) own in
      resent-Holds j v fs (failed r q f.0 f.1) above (
        insert-IsKeyed failure_header (text (r.describe f.1)) counted
            (insert-IsKeyed attempts_header (whole f.0) own h.0),
        lookup-insert_above j failure_header (text (r.describe f.1)) counted (omega arith)
            ∙ (lookup-insert_above j attempts_header (whole f.0) own (omega arith) ∙ h.1),
      )

  module _ {P : Type 0} (d : Draw) (consumer : Consumer P) (reg : Registration P) where
    -- What handles a message that was published, and has failed any number of times since, runs in
    -- the consumer's scope with the envelope that it was published with, and sees each of the
    -- headers that it was published with, beside those that the library sets itself; where the
    -- config's properties have none of that name, and neither they nor the headers name a
    -- causation id.
    pub dispatch-resent :
        (body tag : ℕ) (fs : List (ℕ × Exc)) (given : Option Properties) (e : Envelope)
        (headers : Dict Text) (payload : P) (name : Text)
        → IsKeyed (given_headers (given_properties given).headers)
        → lookup causation_id_header (given_headers (given_properties given).headers) ≡ none
        → lookup name (given_headers (given_properties given).headers) ≡ none
        → IsKeyed headers
        → contains causation_id_header headers ≡ false
        → 6 < name
        → (seen : Dict Text) × (dispatch r codec d consumer reg
              (record {
                body = body;
                properties = resent r codec fs (stamp codec given e headers);
                delivery_tag = some tag;
              })
              payload
            ≡ in_scope consumer.scope (reg.handler (some e) seen payload))
          × (lookup name seen ≡ lookup name headers)
    unfolding dispatch scope
    dispatch-resent body tag fs given e headers payload name k free free' l apart above =
        let q = resent r codec fs (stamp codec given e headers) in
        let held =
          resent-Holds name (lookup name (as_values headers)) fs (stamp codec given e headers) above
            (stamp-Holds name given e headers k free' l above) in
        (
          texts (given_headers q.headers),
          rw (envelope_from-resent r codec d fs given e headers k free l apart) refl,
          lookup-texts name (given_headers q.headers) held.0
              ∙ (ap text_of held.1 ∙ text_of-as_values name headers),
        )
