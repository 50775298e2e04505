-- ===== src/Rabbit/Envelopes.antt =====
-- The envelope of a message on its way from the publisher over any failures to a handler.
use stratae.Prelude.{
  ℕ, ◌<◌, false, Option, none, some, List, [], ◌∷◌, ◌≡◌, refl, ◌∙◌, inl, inr, Bool-cases, arith,
}
use stratae.Python.{Text, Exc}
use stratae.Python.Dict.{
  Dict, lookup, contains, insert, IsKeyed, insert-IsKeyed, lookup-insert, lookup-none,
  contains-lookup,
}
use stratae.Events.Envelope.{
  Codec, Envelope, message_id_header, correlation_id_header, causation_id_header, timestamp_header,
  to_headers, from_headers,
}
use stratae.Events.Envelope.RoundTrip.{union, lookup-union, uuid-print}
use stratae.Events.Envelope.Scope.{Draw}
use stratae.Rabbit.{
  Runtime, HeaderValue, text, whole, Properties, failed, given_headers, given_properties, as_values,
  native, stamp, envelope_headers, envelope_from, attempts_header, failure_header,
}

module _ {V : Type 0} where
  pub lookup-union-some :
      (j : Text) (v : V) (headers other : Dict V)
      → IsKeyed other
      → lookup j other ≡ some v
      → lookup j (union headers other) ≡ some v
  lookup-union-some j v headers other k h = elim (Bool-cases (contains j other)) [
    | inl i ↦ rw (lookup-union j headers other k, i) h
    | inr i ↦ cc (h, lookup-none j other i)
  ]

  pub lookup-union-none :
      (j : Text) (headers other : Dict V)
      → IsKeyed other
      → lookup j other ≡ none
      → lookup j (union headers other) ≡ lookup j headers
  lookup-union-none j headers other k h = elim (Bool-cases (contains j other)) [
    | inl i ↦ let (v, found) = contains-lookup j other i in cc (h, found)
    | inr i ↦ rw (lookup-union j headers other k, i) refl
  ]

  pub union-IsKeyed : (headers other : Dict V) → IsKeyed headers → IsKeyed (union headers other)
  unfolding union
  union-IsKeyed headers [] k = k
  union-IsKeyed headers (e ∷ es) k =
      union-IsKeyed (insert e.0 e.1 headers) es (insert-IsKeyed e.0 e.1 headers k)

  -- A name that neither dict has.
  lookup-union_neither :
      (j : Text) (headers other : Dict V)
      → IsKeyed other
      → lookup j headers ≡ none
      → lookup j other ≡ none
      → lookup j (union headers other) ≡ none
  lookup-union_neither j headers other k h i = lookup-union-none j headers other k i ∙ h

lookup-insert_below :
    {V : Type 0} (j name : Text) (v : V) (h : Dict V)
    → j < name
    → lookup j (insert name v h) ≡ lookup j h
lookup-insert_below j name v h below = ground (arith, lookup-insert j name v h)

lookup-as_values-none :
    (j : Text) (h : Dict Text) → contains j h ≡ false → lookup j (as_values h) ≡ none
lookup-as_values-none j [] i = refl
lookup-as_values-none j (e ∷ es) i = ground (arith, lookup-as_values-none j es)

contains-as_values : (j : Text) (h : Dict Text) → contains j (as_values h) ≡ contains j h
contains-as_values j [] = refl
contains-as_values j (e ∷ es) = ground (arith, contains-as_values j es)

pub as_values-IsKeyed : (h : Dict Text) → IsKeyed h → IsKeyed (as_values h)
as_values-IsKeyed [] k = tt
as_values-IsKeyed (e ∷ es) k = (contains-as_values e.0 es ∙ k.0, as_values-IsKeyed es k.1)

module _ (r : Runtime) (codec : Codec) where
  abbrev caused : Option ℕ → Option HeaderValue
  caused none = none
  caused (some i) = some (text (codec.print_id i))

  -- The headers of a message with these ids and this time.
  record Carries (m c : ℕ) (p : Option ℕ) (t : ℕ) (h : Dict HeaderValue) : Type 0 where
    keyed : IsKeyed h
    message : lookup message_id_header h ≡ some (text (codec.print_id m))
    correlation : lookup correlation_id_header h ≡ some (text (codec.print_id c))
    causation : lookup causation_id_header h ≡ caused p
    time : lookup timestamp_header h ≡ some (text (codec.print_time t))

  abbrev envelope_of : ℕ → ℕ → Option ℕ → ℕ → Envelope
  envelope_of m c p t = record {
    message_id = m;
    correlation_id = c;
    causation_id = p;
    timestamp = t;
  }

  to_headers-Carries :
      (m c : ℕ) (p : Option ℕ) (t : ℕ)
      → Carries m c p t (as_values (to_headers codec (envelope_of m c p t)))
  unfolding to_headers
  to_headers-Carries m c none t = record {
    keyed = (refl, (refl, (refl, tt)));
    message = refl;
    correlation = refl;
    causation = refl;
    time = refl;
  }
  to_headers-Carries m c (some i) t = record {
    keyed = (refl, (refl, (refl, (refl, tt))));
    message = refl;
    correlation = refl;
    causation = refl;
    time = refl;
  }

  causation-union :
      (p : Option ℕ) (h other : Dict HeaderValue)
      → IsKeyed other
      → lookup causation_id_header h ≡ none
      → lookup causation_id_header other ≡ caused p
      → lookup causation_id_header (union h other) ≡ caused p
  causation-union none h other k free i = lookup-union_neither causation_id_header h other k free i
  causation-union (some v) h other k free i =
      lookup-union-some causation_id_header (text (codec.print_id v)) h other k i

  union-Carries :
      (m c : ℕ) (p : Option ℕ) (t : ℕ) (h other : Dict HeaderValue)
      → IsKeyed h
      → lookup causation_id_header h ≡ none
      → Carries m c p t other
      → Carries m c p t (union h other)
  union-Carries m c p t h other k free o = record {
    keyed = union-IsKeyed h other k;
    message =
        lookup-union-some message_id_header (text (codec.print_id m)) h other o.keyed o.message;
    correlation =
        lookup-union-some correlation_id_header (text (codec.print_id c)) h other o.keyed
          o.correlation;
    causation = causation-union p h other o.keyed free o.causation;
    time = lookup-union-some timestamp_header (text (codec.print_time t)) h other o.keyed o.time;
  }

  insert-Carries :
      (m c : ℕ) (p : Option ℕ) (t : ℕ) (name : Text) (v : HeaderValue) (h : Dict HeaderValue)
      → 4 < name
      → Carries m c p t h
      → Carries m c p t (insert name v h)
  insert-Carries m c p t name v h apart o = record {
    keyed = insert-IsKeyed name v h o.keyed;
    message = lookup-insert_below message_id_header name v h (omega arith) ∙ o.message;
    correlation = lookup-insert_below correlation_id_header name v h (omega arith) ∙ o.correlation;
    causation = lookup-insert_below causation_id_header name v h (omega arith) ∙ o.causation;
    time = lookup-insert_below timestamp_header name v h (omega arith) ∙ o.time;
  }

  failed-Carries :
      (m c : ℕ) (p : Option ℕ) (t : ℕ) (q : Properties) (n : ℕ) (e : Exc)
      → Carries m c p t (given_headers q.headers)
      → Carries m c p t (given_headers (failed r q n e).headers)
  unfolding failed
  failed-Carries m c p t q n e o =
      let h = given_headers q.headers in
      insert-Carries m c p t failure_header (text (r.describe e))
        (insert attempts_header (whole n) h) (omega arith)
        (insert-Carries m c p t attempts_header (whole n) h (omega arith) o)

  abbrev caused_text : Option ℕ → Option Text
  caused_text none = none
  caused_text (some i) = some (codec.print_id i)

  -- What is read of such headers, whatever the native properties are.
  from_headers-Carries :
      (d : Draw) (m c : ℕ) (p : Option ℕ) (t : ℕ) (h : Dict HeaderValue)
      → lookup message_id_header h ≡ some (text (codec.print_id m))
      → lookup correlation_id_header h ≡ some (text (codec.print_id c))
      → lookup causation_id_header h ≡ caused p
      → lookup timestamp_header h ≡ some (text (codec.print_time t))
      → from_headers codec d.id d.other_id d.now (envelope_headers r h) ≡ some (envelope_of m c p t)
  unfolding from_headers
  from_headers-Carries d m c none t h i j k l =
      rw (i, j, k, l)
        (rw (codec.parse-print_time t, uuid-print codec m) (rw (uuid-print codec c) refl))
  from_headers-Carries d m c (some v) t h i j k l =
      rw (i, j, k, l)
        (rw (codec.parse-print_time t, uuid-print codec m)
          (rw (uuid-print codec c) (rw (uuid-print codec v) refl)))

  native-free : (q : Properties) → lookup causation_id_header (native codec q) ≡ none
  native-free q = refl

  envelope_from-Carries :
      (d : Draw) (m c : ℕ) (p : Option ℕ) (t : ℕ) (q : Properties)
      → Carries m c p t (given_headers q.headers)
      → envelope_from r codec d q ≡ some (envelope_of m c p t)
  unfolding envelope_from
  envelope_from-Carries d m c p t q o =
      let u =
        union-Carries m c p t (native codec q) (given_headers q.headers) (refl, (refl, (refl, tt)))
          (native-free q) o in
      from_headers-Carries d m c p t (union (native codec q) (given_headers q.headers)) u.message
        u.correlation u.causation u.time

  -- The properties after some failures, each with a count of attempts.
  unfoldable pub resent : List (ℕ × Exc) → Properties → Properties
  resent [] q = q
  resent (f ∷ fs) q = resent fs (failed r q f.0 f.1)

  resent-Carries :
      (m c : ℕ) (p : Option ℕ) (t : ℕ) (fs : List (ℕ × Exc)) (q : Properties)
      → Carries m c p t (given_headers q.headers)
      → Carries m c p t (given_headers (resent fs q).headers)
  unfolding resent
  resent-Carries m c p t [] q o = o
  resent-Carries m c p t (f ∷ fs) q o =
      resent-Carries m c p t fs (failed r q f.0 f.1) (failed-Carries m c p t q f.0 f.1 o)

  stamp-Carries :
      (given : Option Properties) (e : Envelope) (headers : Dict Text)
      → IsKeyed (given_headers (given_properties given).headers)
      → lookup causation_id_header (given_headers (given_properties given).headers) ≡ none
      → IsKeyed headers
      → contains causation_id_header headers ≡ false
      → Carries e.message_id e.correlation_id e.causation_id e.timestamp
          (given_headers (stamp codec given e headers).headers)
  unfolding stamp
  stamp-Carries given e headers k free l free' =
      let base = given_headers (given_properties given).headers in
      union-Carries e.message_id e.correlation_id e.causation_id e.timestamp
        (union base (as_values headers)) (as_values (to_headers codec e))
        (union-IsKeyed base (as_values headers) k)
        (lookup-union_neither causation_id_header base (as_values headers)
          (as_values-IsKeyed headers l) free
          (lookup-as_values-none causation_id_header headers free'))
        (to_headers-Carries e.message_id e.correlation_id e.causation_id e.timestamp)

  -- However often a message fails and is sent on, its consumer reads the envelope that it was
  -- published with, id for id, where neither the config's properties nor the message's own headers
  -- name a causation id.
  pub envelope_from-resent :
      (d : Draw) (fs : List (ℕ × Exc)) (given : Option Properties) (e : Envelope)
      (headers : Dict Text)
      → IsKeyed (given_headers (given_properties given).headers)
      → lookup causation_id_header (given_headers (given_properties given).headers) ≡ none
      → IsKeyed headers
      → contains causation_id_header headers ≡ false
      → envelope_from r codec d (resent fs (stamp codec given e headers)) ≡ some e
  envelope_from-resent d fs given e headers k free l free' =
      envelope_from-Carries d e.message_id e.correlation_id e.causation_id e.timestamp
        (resent fs (stamp codec given e headers))
        (resent-Carries e.message_id e.correlation_id e.causation_id e.timestamp fs
          (stamp codec given e headers) (stamp-Carries given e headers k free l free'))
