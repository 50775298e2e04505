-- ===== src/Rabbit/Publisher.antt =====
-- stratae/integrations/rabbitmq.py: what `RabbitMQPublisher` does to publish a message, one message
-- after the other, while its connection comes and goes. The broker's answers and the serializer's
-- outcome are arguments.
use stratae.Prelude.{ℕ, Bool, true, false, Option, none, some, List, [], ◌∷◌, ◌==◌, if◌then◌else◌}
use stratae.Python.{Text, Exc, Outcome, returned, raised}
use stratae.Events.Envelope.{Codec, Envelope}
use stratae.Python.Dict.{Dict}
use stratae.Rabbit.{Properties, stamp}

-- `RabbitMQConfig`
pub record Target : Type 0 where
  pub exchange : Text
  pub routing_key : Text
  pub exchange_type : Option Text
  pub mandatory : Bool
  pub properties : Option Properties

-- What is put to the broker, and whether it took it: the declaration of an exchange by a publish, or
-- by the topology, and a publish; and the end of the connection.
pub data Event : Type 0 where
  declares prepares : Text → Bool → Event
  publishes : Target → Properties → ℕ → Bool → Event
  loses : Event

-- The broker's answer to a publish: it takes it, it raises `PublishError` as no queue takes the
-- message, or it raises another error.
pub data Answer : Type 0 where
  taken unroutable : Answer
  refuses : Exc → Answer

-- `ConnectionState`
pub data Connection : Type 0 where
  connected reconnecting closed : Connection

-- What a publish comes to; `not_connected` says whether the link is reconnecting.
pub data Published : Type 0 where
  published unroutable_error : Published
  not_connected : Bool → Published
  raises : Exc → Published

-- The exchanges of the topology's configs, the link's state, `_declared`, and the log of events,
-- latest first.
pub record Publisher : Type 0 where
  pub topology : List (Option Text)
  pub connection : Connection
  pub declared : List Text
  pub log : List Event

abbrev pub new_publisher : List (Option Text) → Publisher
new_publisher topology = record {
  topology = topology;
  connection = closed;
  declared = [];
  log = [];
}

abbrev pub among : Text → List Text → Bool
among x [] = false
among x (y ∷ ys) = if x == y then true else among x ys

abbrev pub logged : Event → Publisher → Publisher
logged e p = record p { log = e ∷ p.log }

-- A declaration that the broker takes, or that raises.
abbrev pub on_declared :
    (Publisher → Published × Publisher) → Text → Option Exc → Publisher → Published × Publisher
on_declared continue x none p =
    continue (record p { declared = x ∷ p.declared; log = declares x true ∷ p.log })
on_declared continue x (some e) p = (raises e, logged (declares x false) p)

abbrev pub unless_declared :
    (Publisher → Published × Publisher)
    → Text
    → Option Exc
    → Bool
    → Publisher
    → Published × Publisher
unless_declared continue x answer true p = continue p
unless_declared continue x answer false p = on_declared continue x answer p

-- `_declare_exchange`, and what follows it.
abbrev pub declare_exchange :
    (Publisher → Published × Publisher)
    → Text
    → Option Exc
    → Option Text
    → Publisher
    → Published × Publisher
declare_exchange continue x answer none p = continue p
declare_exchange continue x answer (some type) p =
    unless_declared continue x answer (among x p.declared) p

abbrev pub on_published : Target → Properties → ℕ → Answer → Publisher → Published × Publisher
on_published target q body taken p = (published, logged (publishes target q body true) p)
on_published target q body unroutable p =
    (unroutable_error, logged (publishes target q body false) p)
on_published target q body (refuses e) p = (raises e, logged (publishes target q body false) p)

abbrev pub on_encoded : Target → Properties → Outcome ℕ → Answer → Publisher → Published × Publisher
on_encoded target q (raised e) answer p = (raises e, p)
on_encoded target q (returned body) answer p = on_published target q body answer p

abbrev pub publish_connected :
    Target
    → Properties
    → Outcome ℕ
    → Option Exc
    → Answer
    → Connection
    → Publisher
    → Published × Publisher
publish_connected target q body to_declare to_publish closed p = (not_connected false, p)
publish_connected target q body to_declare to_publish reconnecting p = (not_connected true, p)
publish_connected target q body to_declare to_publish connected p =
    declare_exchange (on_encoded target q body to_publish) target.exchange to_declare
      target.exchange_type p

-- `_publish`, given the serializer's outcome and the broker's answers, should it be asked.
unfoldable pub publish :
    Codec
    → Envelope
    → Dict Text
    → Target
    → Outcome ℕ
    → Option Exc
    → Answer
    → Publisher
    → Published × Publisher
publish codec e headers target body to_declare to_publish p =
    publish_connected target (stamp codec target.properties e headers) body to_declare to_publish
      p.connection p

-- What the broker does with a config of the topology: it takes all its declarations, it refuses one
-- before the exchange's, or the exchange's, or one after it.
pub data Preparation : Type 0 where
  prepared refused_before refused refused_after : Preparation

-- `_Link._open` with the answers to its topology, which is taken where none is given; or the loss
-- of the connection, or the publisher's exit.
pub data Change : Type 0 where
  opens : List Preparation → Change
  drops : Bool → Change

-- A declaration that raises closes the connection, and `_open` raises: the link stays as it was.
abbrev pub given_up : Publisher → Publisher
given_up p = logged loses p

abbrev pub noted : Option Text → Bool → Publisher → Publisher
noted none b p = p
noted (some x) b p = logged (prepares x b) p

abbrev pub on_prepared : (Publisher → Publisher) → Option Text → Preparation → Publisher → Publisher
on_prepared continue x prepared p = continue (noted x true p)
on_prepared continue x refused_before p = given_up p
on_prepared continue x refused p = given_up (noted x false p)
on_prepared continue x refused_after p = given_up (noted x true p)

-- `_declare_topology`, and the connection after it.
unfoldable pub declare_topology : List (Option Text) → List Preparation → Publisher → Publisher
declare_topology [] answers p = record p { connection = connected }
declare_topology (x ∷ xs) [] p = on_prepared (declare_topology xs []) x prepared p
declare_topology (x ∷ xs) (a ∷ answers) p = on_prepared (declare_topology xs answers) x a p

-- `open` raises if the link is connected already.
abbrev pub on_open : List Preparation → Connection → Publisher → Publisher
on_open answers connected p = p
on_open answers reconnecting p = declare_topology p.topology answers p
on_open answers closed p = declare_topology p.topology answers p

abbrev pub on_drop : Bool → Connection → Publisher → Publisher
on_drop reconnects connected p = record p {
  connection = if reconnects then reconnecting else closed;
  declared = [];
  log = loses ∷ p.log;
}
on_drop reconnects _ p = p

unfoldable pub change : Change → Publisher → Publisher
change (opens answers) p = on_open answers p.connection p
change (drops reconnects) p = on_drop reconnects p.connection p
