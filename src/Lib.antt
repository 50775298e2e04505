-- ===== src/Lib.antt =====
-- stratae: scopes whose activations own cached resources, an event system with middleware, hooks
-- and a transactional outbox, dependency injection and overrides, context values, collections of
-- checks, a deserializer directed by types, and adapters to brokers and frameworks. This library
-- models these parts of the Python package in stratae/ and proves what makes them correct.
--
-- How the parts interact. A scope (stratae/lifecycle/scope.py) is activated in an execution
-- context; the activation's storage lists the resources entered in it
-- (stratae/lifecycle/_stack.py), counts the activations that require it, and is emptied at its
-- end, when its resources are closed and its parent is released. A cached function keeps its value
-- in a slot of the storage, and threads that share the activation claim an entry before they
-- compute it. An emit runs middleware around hooks around a dispatch to handlers, inside an
-- envelope whose headers travel with the message (stratae/events/). The outbox producer writes an
-- emission as a record into a store, and the relay claims records, publishes them and marks them.
-- Checks (stratae/checks.py), context values (stratae/context.py) and the overrides of
-- dependencies (stratae/depends/overriding.py), their injection (stratae/depends/injection.py) and
-- deserialisation (stratae/serde.py) stand alone. The RabbitMQ consumer
-- (stratae/integrations/rabbitmq.py) decodes a message, calls its handler inside the envelope that
-- the publisher stamped on it and the consumer's scope, and acks it or sends it on under its
-- failure policy.
--
-- Which file models which code:
-- - Python.antt, Python/Dict.antt: exception objects with an identity and a class, calls that
--   return or raise, and dictionaries in insertion order.
-- - Lifecycle/Stack/Exit.antt: `_exit_generator`, `_exit_async_generator` and `_exit_sync` of
--   stratae/lifecycle/_stack.py; Lifecycle/Stack/Close.antt: `close` and `aclose` with `_record`,
--   `_seed` and `_settle`; Lifecycle/Stack/Enter.antt: the four functions that enter a resource.
-- - Lifecycle/Scope.antt: `_activate`, `_end`, `_release` and the activation holders of
--   stratae/lifecycle/scope.py and stratae/lifecycle/_slots.py; Lifecycle/Scope/World.antt: their
--   interleavings as a step relation, in which an end and the release after it are two steps with
--   any others in between.
-- - Lifecycle/Scope/Slots.antt: `allocate_slot`, `release_slot` and `_extend` of
--   stratae/lifecycle/scope.py, for a shared scope.
-- - Lifecycle/Inflight.antt, Lifecycle/Wrappers.antt: the claims of threads of
--   stratae/lifecycle/_inflight.py, and what the code that stratae/lifecycle/_wrappers.py
--   generates for a cached sync function does where threads share an activation; the interleavings
--   of threads are runs of a step function.
-- - Depends/Injection.antt: the resolution of dependencies of stratae/depends/injection.py;
--   Depends/Injection/Graph.antt: the graph of dependencies without it.
-- - Depends/Overriding.antt: `Provider` of stratae/depends/_provide.py and the overrides of
--   stratae/depends/overriding.py. Context.antt: stratae/context.py.
-- - Events/Envelope.antt, Events/Envelope/Scope.antt: stratae/events/envelope.py.
--   Events/Headers.antt: `MessageHeaders` of stratae/events/middleware.py.
-- - Events/Middleware.antt: the runners of stratae/events/middleware.py with `_manager`, `_exit`,
--   `_unwind` and `_refuse_swallow`, and their asynchronous forms, which share one model with the
--   sync ones.
-- - Events/Hooks.antt: `run_hooks` of stratae/events/hooks.py and `run_emit` of
--   stratae/events/pipeline.py. Events/Dispatch.antt: stratae/events/_dispatch.py.
--   Events/Direct.antt: the registry of stratae/events/direct.py.
-- - Events/Outbox/Record.antt, Events/Outbox/Store.antt, Events/Outbox/Relay.antt,
--   Events/Outbox/Producer.antt: `OutboxRecord`, `InMemoryOutboxStore`, `OutboxRelay` and
--   `OutboxProducer` of stratae/events/outbox.py; Events/Outbox/Relay/Described.antt describes a
--   batch of the relay without the code's definitions.
-- - Rabbit.antt, Rabbit/Policy.antt, Rabbit/Consumer.antt, Rabbit/Queues.antt: the properties of
--   messages, the failure policy, the deliveries and the failure queues of
--   stratae/integrations/rabbitmq.py; Rabbit/Journey.antt: the deliveries of one message after the
--   other, over as many as tags are given; Rabbit/Publisher.antt: `_publish` and what it declares,
--   with the topology that each opening of the connection declares; Rabbit/Registrations.antt: the
--   start and removal of a handler while the connection is opened, lost and reopened, as moves
--   between two awaits. Rabbit/Handled.antt and Rabbit/Saved.antt describe without the code's
--   definitions how a message should be handled and where a failed one should go.
-- - Checks.antt: stratae/checks.py. Serde.antt: `Deserialize` of stratae/serde.py;
--   Serde/Decoders.antt: some of the decoders registered there.
--
-- What the models stand on. The application's code (resources, middleware, hooks, handlers,
-- checks, publishers) is a function on a state of its own, that may raise; a theorem holds for all
-- of them. Texts, identities and payloads are numbers where the code only compares and passes them
-- on. A clock's reading and a fresh identity are arguments, and times count ticks, whose products
-- with powers of two are exact; that a float takes no int from 2 ** 1024 on is modelled. The ends
-- of generators are what finishing, throwing and closing come to. Every loop is a recursion over
-- the list that the code iterates over, so no fuel is needed, but for the resolution of
-- dependencies, whose fuel is one more than the number of functions, which is proved to be enough,
-- as a function is never resolved inside itself, and for `construct` of stratae/serde.py, which is
-- proved to end with some fuel unless type aliases go round in a circle; the relay's endless poll
-- loop is modelled over any number of its rounds.
--
-- What is not modelled: logging, tracebacks and message texts; the event loop, whose interleavings
-- appear as sequences of whole operations; keyed, asynchronous and context-manager cache wrappers,
-- serialisation and json, code generation, the connections of the RabbitMQ adapter and the
-- adapters to frameworks. What a broker's call raises is a parameter, and that an expired message
-- of a queue goes on as the queue was declared is what its arguments say.
pub mod Prelude
pub mod Python
pub mod Lifecycle
pub mod Depends
pub mod Context
pub mod Events
pub mod Checks
pub mod Serde
pub mod Rabbit
