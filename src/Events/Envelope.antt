-- ===== src/Events/Envelope.antt =====
-- stratae/events/envelope.py: the ids of a message, its headers, and the active envelope. Fresh
-- ids and the clock's reading are arguments, and `str(UUID)`, `UUID(str)` and the ISO form of a time
-- are a codec with the laws that the standard library documents for them.
pub mod RoundTrip
pub mod Scope
use stratae.Prelude.{ℕ, Option, none, some, List, [], ◌∷◌, ◌≡◌}
use stratae.Python.{Text, Outcome, returned, raised}
use stratae.Python.Dict.{Dict, lookup, insert}

-- `MESSAGE_ID_HEADER` to `TIMESTAMP_HEADER`.
abbrev pub message_id_header : Text
message_id_header = 1

abbrev pub correlation_id_header : Text
correlation_id_header = 2

abbrev pub causation_id_header : Text
causation_id_header = 3

abbrev pub timestamp_header : Text
timestamp_header = 4

pub record Envelope : Type 0 where
  pub message_id : ℕ
  pub correlation_id : ℕ
  pub causation_id : Option ℕ
  pub timestamp : ℕ

-- The texts of ids and times. Parsing may fail (`ValueError`), but not on what was printed.
pub record Codec : Type 0 where
  pub print_id : ℕ → Text
  pub parse_id : Text → Option ℕ
  pub print_time : ℕ → Text
  pub parse_time : Text → Option ℕ
  pub parse-print_id : (i : ℕ) → parse_id (print_id i) ≡ some i
  pub parse-print_time : (t : ℕ) → parse_time (print_time t) ≡ some t

-- `child()`, given the new message's id and time.
pub child : ℕ → ℕ → Envelope → Envelope
child fresh now e = record {
  message_id = fresh;
  correlation_id = e.correlation_id;
  causation_id = some e.message_id;
  timestamp = now;
}

-- `Envelope()`, given two fresh ids and the time.
pub root : ℕ → ℕ → ℕ → Envelope
root fresh fresh' now = record {
  message_id = fresh;
  correlation_id = fresh';
  causation_id = none;
  timestamp = now;
}

module _ (codec : Codec) where
  abbrev pub with_causation : Option ℕ → Dict Text → Dict Text
  with_causation none headers = headers
  with_causation (some i) headers = insert causation_id_header (codec.print_id i) headers

  -- `to_headers`
  unfoldable pub to_headers : Envelope → Dict Text
  to_headers e = with_causation e.causation_id (
      insert timestamp_header (codec.print_time e.timestamp) (
        insert correlation_id_header (codec.print_id e.correlation_id)
          (insert message_id_header (codec.print_id e.message_id) [])))

  -- `_uuid(value)`: `none` is the `ValueError`.
  abbrev pub uuid : Option Text → Option (Option ℕ)
  uuid none = some none
  uuid (some v) = elim (codec.parse_id v) [ none ↦ none | some i ↦ some (some i) ]

  -- `_when(value)`
  abbrev pub when : ℕ → Option Text → Option ℕ
  when now none = some now
  when now (some v) = codec.parse_time v

  abbrev or_fresh : ℕ → Option ℕ → ℕ
  or_fresh fresh none = fresh
  or_fresh fresh (some i) = i

  abbrev from_parts :
      ℕ → ℕ → Option (Option ℕ) → Option (Option ℕ) → Option (Option ℕ) → Option ℕ → Option Envelope
  from_parts fresh fresh' (some m) (some c) (some p) (some t) = some (record {
    message_id = or_fresh fresh m;
    correlation_id = or_fresh fresh' c;
    causation_id = p;
    timestamp = t;
  })
  from_parts fresh fresh' _ _ _ _ = none

  -- `from_headers`: `none` is the `ValueError` of a header that does not parse.
  unfoldable pub from_headers : ℕ → ℕ → ℕ → Dict Text → Option Envelope
  from_headers fresh fresh' now headers =
      from_parts fresh fresh' (uuid (lookup message_id_header headers))
        (uuid (lookup correlation_id_header headers)) (uuid (lookup causation_id_header headers))
        (when now (lookup timestamp_header headers))
