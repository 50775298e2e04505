-- ===== src/Events/Outbox/Producer/Delivery.antt =====
-- From an emission to its publication: what the producer writes, the relay publishes.
use stratae.Prelude.{
  ℕ, true, false, Option, none, some, [], ◌∷◌, ◌==◌, ==_refl, ==_iff, ◌≡◌, refl, ap, ◌∙◌, arith,
  Bool-cases, inl, inr, clash,
}
use stratae.Python.{Exc, Text, Outcome}
use stratae.Python.Dict.{Dict, lookup, insert, contains}
use stratae.Events.Envelope.{
  Envelope, Codec, to_headers, message_id_header, correlation_id_header, causation_id_header,
  timestamp_header,
}
use stratae.Events.Envelope.RoundTrip.{union, from_headers-to_headers}
use stratae.Events.Headers.{is_envelope_header, IsFree}
use stratae.Events.Outbox.Relay.{added, publish}
use stratae.Events.Outbox.Producer.{OutboxConfig, record_of}

added-insert :
    (name value : Text) (h : Dict Text)
    → is_envelope_header name ≡ true
    → added (insert name value h) ≡ added h
unfolding added
added-insert name value [] r = rw r
added-insert name value (e ∷ h) r = elim (Bool-cases (name == e.0)) [
  | inl same ↦
      let old : is_envelope_header e.0 ≡ true = rw ((==_iff name e.0).0 same) at r in
      rw same (rw r (rw old refl))
  | inr other ↦ rw other (elim (Bool-cases (is_envelope_header e.0)) [
    | inl h₁ ↦ rw h₁ (added-insert name value h r)
    | inr h₁ ↦ rw h₁ (ap (◌∷◌ e) (added-insert name value h r))
  ])
]

not-contains :
    (name : Text) (e : ℕ × Text) (h : Dict Text)
    → contains name (e ∷ h) ≡ false
    → contains name h ≡ false
not-contains name e h n = ground arith

added_free :
    (h : Dict Text)
    → ((name : Text) → is_envelope_header name ≡ true → contains name h ≡ false)
    → added h ≡ h
unfolding added
added_free [] free = refl
added_free (e ∷ h) free = elim (Bool-cases (is_envelope_header e.0)) [
  | inl r ↦ clash (rw (==_refl e.0) refl) (free e.0 r)
  | inr n ↦ rw n (ap (◌∷◌ e) (added_free h (λ name r. not-contains name e h (free name r))))
]

is_envelope_header_table :
    (is_envelope_header message_id_header ≡ true)
    × (is_envelope_header correlation_id_header ≡ true)
    × (is_envelope_header causation_id_header ≡ true)
    × (is_envelope_header timestamp_header ≡ true)
unfolding is_envelope_header
is_envelope_header_table = (refl, refl, refl, refl)

module _ (codec : Codec) where
  added-union :
      (m c : ℕ) (p : Option ℕ) (t : ℕ) (h : Dict Text)
      → added (
          union h (
            to_headers codec
              (record { message_id = m; correlation_id = c; causation_id = p; timestamp = t })))
        ≡ added h
  unfolding union to_headers
  added-union m c none t h =
      let (h₁, h₂, h₃, h₄) = is_envelope_header_table in
      added-insert timestamp_header _ _ h₄
      ∙ (added-insert correlation_id_header _ _ h₂ ∙ added-insert message_id_header _ h h₁)
  added-union m c (some i) t h =
      let (h₁, h₂, h₃, h₄) = is_envelope_header_table in
      added-insert causation_id_header _ _ h₃
      ∙ (added-insert timestamp_header _ _ h₄
          ∙ (added-insert correlation_id_header _ _ h₂ ∙ added-insert message_id_header _ h h₁))

  -- The relay publishes a written record with the event and config that its route is bound to,
  -- under the very envelope of its emission, and with exactly the headers that publish middleware
  -- added to it, none of them the envelope's.
  pub publish-record_of :
      {R : Type 0}
      → (emit : R → ℕ → Envelope → Dict Text → Outcome (Unit {0}))
      → (unknown invalid : Exc) (fresh fresh' later : ℕ) (routes : Dict R) (target : R)
      → (config : OutboxConfig) (payload : ℕ) (envelope : Envelope) (route : Text)
      → (headers : Dict Text) (now body : ℕ) → IsFree headers
      → lookup route routes ≡ some target
      → publish codec emit unknown invalid fresh fresh' later routes
          (record_of codec config payload envelope route headers now body)
        ≡ emit target body envelope headers
  unfolding publish
  publish-record_of emit unknown invalid fresh fresh' later routes target config payload envelope
        route headers now body free bound =
      let parsed =
        from_headers-to_headers codec fresh fresh' later envelope headers
          (free.unreserved causation_id_header is_envelope_header_table.2) in
      let kept =
        added-union envelope.message_id envelope.correlation_id envelope.causation_id
          envelope.timestamp headers
        ∙ added_free headers free.unreserved in
      rw (bound, parsed, kept, publish) refl
