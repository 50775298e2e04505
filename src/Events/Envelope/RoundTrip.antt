-- ===== src/Events/Envelope/RoundTrip.antt =====
-- An envelope survives its headers, also next to other headers.
use stratae.Prelude.{ℕ, false, Option, none, some, [], ◌∷◌, if◌then◌else◌, ◌≡◌, refl, arith}
use stratae.Python.{Text}
use stratae.Python.Dict.{Dict, lookup, insert, contains, lookup-insert, lookup-none, IsKeyed}
use stratae.Events.Envelope.{causation_id_header, Envelope, Codec, uuid, to_headers, from_headers}

-- `headers | other`: the entries of `other` over those of `headers`.
unfoldable pub union {ℓ} : {V : Type ℓ} → Dict V → Dict V → Dict V
union headers [] = headers
union headers (e ∷ other) = union (insert e.0 e.1 headers) other

pub lookup-union {ℓ} :
    {V : Type ℓ} (j : Text) (headers other : Dict V)
    → IsKeyed other
    → lookup j (union headers other)
      ≡ (if contains j other then lookup j other else lookup j headers)
unfolding union
lookup-union j headers [] k = refl
lookup-union j headers (e ∷ other) k = ground (
  arith,
  lookup-union j (insert e.0 e.1 headers) other k.1,
  lookup-insert j e.0 e.1 headers,
  lookup-none j other,
)

abbrev pub envelope_of : ℕ → ℕ → Option ℕ → ℕ → Envelope
envelope_of m c p t = record { message_id = m; correlation_id = c; causation_id = p; timestamp = t }

module _ (codec : Codec) where
  pub uuid-print : (i : ℕ) → uuid codec (some (codec.print_id i)) ≡ some (some i)
  uuid-print i = rw (codec.parse-print_id i, uuid) refl

  pub to_headers-IsKeyed :
      (m c : ℕ) (p : Option ℕ) (t : ℕ) → IsKeyed (to_headers codec (envelope_of m c p t))
  unfolding to_headers
  to_headers-IsKeyed m c none t = (refl, (refl, (refl, tt)))
  to_headers-IsKeyed m c (some i) t = (refl, (refl, (refl, (refl, tt))))

  lookup-to_headers :
      (j m c : ℕ) (p : Option ℕ) (t : ℕ) (headers : Dict Text)
      → lookup j (union headers (to_headers codec (envelope_of m c p t))) ≡ (
          if contains j (to_headers codec (envelope_of m c p t))
          then lookup j (to_headers codec (envelope_of m c p t))
          else lookup j headers)
  lookup-to_headers j m c p t headers =
      lookup-union j headers (to_headers codec (envelope_of m c p t)) (to_headers-IsKeyed m c p t)

  from_headers-union :
      (fresh fresh' now m c : ℕ) (p : Option ℕ) (t : ℕ) (headers : Dict Text)
      → contains causation_id_header headers ≡ false
      → from_headers codec fresh fresh' now (union headers (to_headers codec (envelope_of m c p t)))
        ≡ some (envelope_of m c p t)
  unfolding from_headers to_headers
  from_headers-union fresh fresh' now m c none t headers h =
      rw
        (
          lookup-to_headers 1 m c none t headers,
          lookup-to_headers 2 m c none t headers,
          lookup-to_headers 3 m c none t headers,
          lookup-to_headers 4 m c none t headers,
          lookup-none causation_id_header headers h,
          codec.parse-print_time t,
          uuid-print m,
        )
        (rw (uuid-print c) refl)
  from_headers-union fresh fresh' now m c (some i) t headers h =
      rw
        (
          lookup-to_headers 1 m c (some i) t headers,
          lookup-to_headers 2 m c (some i) t headers,
          lookup-to_headers 3 m c (some i) t headers,
          lookup-to_headers 4 m c (some i) t headers,
          codec.parse-print_time t,
          uuid-print m,
        )
        (rw (uuid-print c) (rw (uuid-print i) refl))

  -- An envelope is rebuilt as it was from its own headers, whatever other headers they are merged
  -- into that carry no causation id, and whatever fresh ids and time are at hand.
  pub from_headers-to_headers :
      (fresh fresh' now : ℕ) (e : Envelope) (headers : Dict Text)
      → contains causation_id_header headers ≡ false
      → from_headers codec fresh fresh' now (union headers (to_headers codec e)) ≡ some e
  from_headers-to_headers fresh fresh' now e headers h =
      from_headers-union fresh fresh' now e.message_id e.correlation_id e.causation_id e.timestamp
        headers h
