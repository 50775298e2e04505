-- ===== src/Events/Outbox/Producer.antt =====
-- stratae/events/outbox.py: `OutboxProducer`. The serializer, the key function and the equality of
-- routing configs are the application's. `emit` is modelled where it has neither hooks nor publish
-- middleware; what middleware adds to a record is the argument `headers` of `write`.
pub mod Registration
pub mod Delivery
use stratae.Prelude.{
  ℕ, Bool, true, false, Option, none, some, List, [], ◌∷◌, ◌==◌, ◌&&◌, ◌||◌, not, if◌then◌else◌,
  ◌≡◌, refl, arith, Bool-cases, Option-cases, inl, inr, ==_refl, ◌⊎◌,
}
use stratae.Python.{Exc, Text, Outcome, returned, raised}
use stratae.Python.Dict.{Dict, lookup, insert, lookup-insert}
use stratae.Events.Envelope.{Envelope, Codec, to_headers, child, root}
use stratae.Events.Envelope.RoundTrip.{union}
use stratae.Events.Envelope.Scope.{Draw, Block, scope}
use stratae.Events.Outbox.Record.{OutboxRecord}
use stratae.Events.Outbox.Store
use stratae.Events.Outbox.Store.{Store}

-- What the producer reads of an event object.
pub record Event : Type 0 where
  pub id : ℕ
  pub name : Text
  pub is_pubsub : Bool
  pub is_signal : Bool

-- `OutboxConfig`: the identity of the publisher's config, a route, and a key function.
pub record OutboxConfig : Type 0 where
  pub config : ℕ
  pub route : Option Text
  pub key : Option (ℕ → Text)

-- An event and the publisher's config, by identity.
abbrev pub Binding : Type 0
Binding = ℕ × ℕ

-- `config.route or event.name`: an empty route counts as none.
abbrev pub route_name : Event → OutboxConfig → Text
route_name event config = elim config.route [
  | none ↦ event.name
  | some route ↦ if route == 0 then event.name else route
]

-- `known[1] is config.config or known[1] == config.config`
abbrev pub same_config : (ℕ → ℕ → Bool) → ℕ → ℕ → Bool
same_config eq known given = known == given || eq known given

abbrev pub or_given : Option Binding → Binding → Binding
or_given none b = b
or_given (some known) b = known

-- `dict.setdefault`
abbrev pub set_default : Text → Binding → Dict Binding → Dict Binding
set_default route b routes = elim (lookup route routes) [
  | none ↦ insert route b routes
  | some _ ↦ routes
]

-- The condition under which `_register` raises.
abbrev pub clashes : (ℕ → ℕ → Bool) → Binding → Event → OutboxConfig → Bool
clashes eq known event config =
    not (known.0 == event.id) || not (same_config eq known.1 config.config)

-- `_register`: `taken` is its `ValueError`.
unfoldable pub register :
    (ℕ → ℕ → Bool) → Exc → Event → OutboxConfig → Dict Binding → Outcome Text × Dict Binding
register eq taken event config routes =
    let route = route_name event config in
    let given : Binding = (event.id, config.config) in
    let known = or_given (lookup route routes) given in
    (
      if clashes eq known event config then raised taken else returned route,
      set_default route given routes,
    )

-- `bind`, up to the callable that it returns: `refused` is `_require_pubsub`'s `TypeError`.
unfoldable pub bind :
    (ℕ → ℕ → Bool) → Exc → Exc → Event → OutboxConfig → Dict Binding → Outcome Text × Dict Binding
bind eq refused taken event config routes =
    if event.is_pubsub then register eq taken event config routes else (raised refused, routes)

abbrev pub key_of : OutboxConfig → ℕ → Option Text
key_of config payload = elim config.key [ none ↦ none | some key ↦ some (key payload) ]

-- The record that `_write` makes.
abbrev pub record_of : Codec → OutboxConfig → ℕ → Envelope → Text → Dict Text → ℕ → ℕ → OutboxRecord
record_of codec config payload envelope route headers now body = record {
  id = envelope.message_id;
  route = route;
  body = body;
  headers = union headers (to_headers codec envelope);
  created_at = now;
  available_at = now;
  key = key_of config payload;
  attempts = 0;
  error = none;
}

-- `serialize` is the binding's serializer or the producer's, which may raise; the body of a signal
-- is empty, 0.
abbrev pub body_of : (ℕ → Outcome ℕ) → Event → ℕ → Outcome ℕ
body_of serialize event payload = if event.is_signal then returned 0 else serialize payload

abbrev written : (ℕ → OutboxRecord) → Outcome ℕ → Store → Outcome (Unit {0}) × Store
written record_for (raised e) s = (raised e, s)
written record_for (returned body) s = (returned tt, Store.add (record_for body) s)

-- `_write`
unfoldable pub write :
    Codec
    → (ℕ → Outcome ℕ)
    → Event
    → OutboxConfig
    → ℕ
    → Envelope
    → Text
    → Dict Text
    → ℕ
    → Store
    → Outcome (Unit {0}) × Store
write codec serialize event config payload envelope route headers now =
    written (record_of codec config payload envelope route headers now)
      (body_of serialize event payload)
