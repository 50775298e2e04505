-- ===== src/Rabbit.antt =====
-- stratae/integrations/rabbitmq.py: the properties of messages, with what is stamped on them and
-- read from them. Floats stand by number, and what the language does with them and with f-strings
-- is `Runtime`.
pub mod Policy
pub mod Consumer
pub mod Settling
pub mod Handled
pub mod Saved
pub mod Keeping
pub mod Envelopes
pub mod Receiving
pub mod Journey
pub mod Queues
pub mod Routing
pub mod Publisher
pub mod Declaring
pub mod Registrations
pub mod Consuming
pub mod Tests
use stratae.Prelude.{
  ℕ, zero, suc, Bool, true, false, Option, none, some, List, [], ◌∷◌, ◌==◌, if◌then◌else◌, max,
}
use stratae.Python.{Text, Exc}
use stratae.Python.Dict.{Dict, lookup, insert, get_or}
use stratae.Events.Envelope.{
  Codec, Envelope, message_id_header, correlation_id_header, causation_id_header, timestamp_header,
  to_headers, from_headers,
}
use stratae.Events.Envelope.RoundTrip.{union}
use stratae.Events.Envelope.Scope.{Draw}

-- The value of a header: `None`, an int that is not negative (a bool is one), a negative int, a
-- text, or another object.
pub data HeaderValue : Type 0 where
  nothing : HeaderValue
  whole negative text object : ℕ → HeaderValue

-- The language: `seconds > 0`, `round(seconds * 1000)`, `f"{queue}.retry.{ms}"`,
-- `f"{queue}.dead-letter"`, `f"{type(exc).__name__}: {exc}"`, and `str`.
pub record Runtime : Type 0 where
  pub is_positive : ℕ → Bool
  pub round_milliseconds : ℕ → ℕ
  pub retry_name : Text → ℕ → Text
  pub dead_letter_name : Text → Text
  pub describe : Exc → Text
  pub str : HeaderValue → Text

-- `Basic.Properties`; `others` stands for its other fields.
pub record Properties : Type 0 where
  pub headers : Option (Dict HeaderValue)
  pub message_id : Option Text
  pub correlation_id : Option Text
  pub timestamp : Option ℕ
  pub others : ℕ

-- `DeliveredMessage`
pub record Message : Type 0 where
  pub body : ℕ
  pub properties : Properties
  pub delivery_tag : Option ℕ

-- `ATTEMPTS_HEADER` and `FAILURE_HEADER`.
abbrev pub attempts_header : Text
attempts_header = 5

abbrev pub failure_header : Text
failure_header = 6

-- `headers or {}`
abbrev pub given_headers : Option (Dict HeaderValue) → Dict HeaderValue
given_headers none = []
given_headers (some headers) = headers

abbrev pub count_of : Option HeaderValue → ℕ
count_of (some (whole n)) = n
count_of _ = 0

-- `_attempts`
unfoldable pub attempts : Properties → ℕ
attempts properties = count_of (lookup attempts_header (given_headers properties.headers))

-- `_failed`
unfoldable pub failed : Runtime → Properties → ℕ → Exc → Properties
failed r p n e = record {
  headers = some (
      insert failure_header (text (r.describe e))
        (insert attempts_header (whole n) (given_headers p.headers)));
  message_id = p.message_id;
  correlation_id = p.correlation_id;
  timestamp = p.timestamp;
  others = p.others;
}

-- `dict[str, str]` as header values.
abbrev pub as_values : Dict Text → Dict HeaderValue
as_values [] = []
as_values (h ∷ hs) = (h.0, text h.1) ∷ as_values hs

-- `Basic.Properties()`
abbrev pub no_properties : Properties
no_properties = record {
  headers = none;
  message_id = none;
  correlation_id = none;
  timestamp = none;
  others = 0;
}

abbrev pub given_properties : Option Properties → Properties
given_properties none = no_properties
given_properties (some p) = p

-- `_stamp`
unfoldable pub stamp : Codec → Option Properties → Envelope → Dict Text → Properties
stamp codec given e headers = record {
  headers = some (
      union (union (given_headers (given_properties given).headers) (as_values headers))
        (as_values (to_headers codec e)));
  message_id = some (codec.print_id e.message_id);
  correlation_id = some (codec.print_id e.correlation_id);
  timestamp = some e.timestamp;
  others = (given_properties given).others;
}

-- `_headers_from`
unfoldable pub texts : Dict HeaderValue → Dict Text
texts [] = []
texts (h ∷ hs) = elim h.1 [
  | text t ↦ (h.0, t) ∷ texts hs
  | nothing ↦ texts hs
  | whole n ↦ texts hs
  | negative n ↦ texts hs
  | object n ↦ texts hs
]

abbrev native_id : Option Text → HeaderValue
native_id none = nothing
native_id (some t) = text t

abbrev native_time : Codec → Option ℕ → HeaderValue
native_time codec none = nothing
native_time codec (some t) = text (codec.print_time t)

-- `native`
abbrev pub native : Codec → Properties → Dict HeaderValue
native codec p =
    (message_id_header, native_id p.message_id)
    ∷ (correlation_id_header, native_id p.correlation_id)
    ∷ (timestamp_header, native_time codec p.timestamp)
    ∷ []

abbrev readable : Runtime → Option HeaderValue → Option Text
readable r none = none
readable r (some nothing) = none
readable r (some (text t)) = some t
readable r (some v) = some (r.str v)

abbrev picked : Text → Option Text → Dict Text → Dict Text
picked name none headers = headers
picked name (some t) headers = (name, t) ∷ headers

-- The headers that `Envelope.from_headers` reads, each made a text; `None` is as good as a missing
-- one.
abbrev pub envelope_headers : Runtime → Dict HeaderValue → Dict Text
envelope_headers r h = picked message_id_header (readable r (lookup message_id_header h)) (
    picked correlation_id_header (readable r (lookup correlation_id_header h)) (
      picked causation_id_header (readable r (lookup causation_id_header h))
        (picked timestamp_header (readable r (lookup timestamp_header h)) [])))

-- `_envelope_from`, given what a missing id or time is made of; `none` also stands for the
-- `ValueError` that it catches.
unfoldable pub envelope_from : Runtime → Codec → Draw → Properties → Option Envelope
envelope_from r codec d p =
    from_headers codec d.id d.other_id d.now
      (envelope_headers r (union (native codec p) (given_headers p.headers)))
