-- ===== src/Lifecycle/Stack/Exit.antt =====
-- stratae/lifecycle/_stack.py: finishing one resource, `_exit_generator` to `_exit_sync`.
pub mod Contract
use stratae.Prelude.{
  ℕ, Bool, true, false, Option, none, some, List, ◌&&◌, ◌||◌, not, ◌==◌, if◌then◌else◌,
}
use stratae.Python.{
  Kind, stop_iteration, stop_async_iteration, runtime_error, Exc, is_same, Outcome, returned,
  raised,
}

-- How a generator that is suspended at its yield answers `next` or `throw`. A generator that
-- returns answers with a `StopIteration` (`StopAsyncIteration` if it is async).
pub data Advance : Type 0 where
  yielded : Advance
  raises : Exc → Advance

-- A resource generator past its first yield, which lent `finish`, `throw` and what its `close()`
-- raises once it has yielded again. `error_id` is the identity of the error object that the
-- library makes for it.
pub record Generator : Type 0 where
  pub finish : Advance
  pub throw : Exc → Advance
  pub closing : Option Exc
  pub error_id : ℕ

-- A context manager's `__exit__` or `__aexit__`: whether it suppresses, or what it raises.
pub record Manager : Type 0 where
  pub exit : Option Exc → Outcome Bool

pub data Resource : Type 0 where
  driven : Generator → Resource
  manager : Manager → Resource

-- `Contexts`, in the order of entry: whether the exit is awaited, and the resource.
abbrev pub Contexts : Type 0
Contexts = List (Bool × Resource)

-- `ResourceDidNotStopError`, a `RuntimeError`.
abbrev pub did_not_stop : Generator → Exc
did_not_stop g = record { id = g.error_id; kind = runtime_error; cause = none }

-- `try: raise ResourceDidNotStopError() finally: gen.close()`
abbrev pub unstopped : Generator → Outcome Bool
unstopped g = elim g.closing [ none ↦ raised (did_not_stop g) | some e ↦ raised e ]

-- `err.__cause__ is exc`
abbrev pub caused_by : Exc → Exc → Bool
caused_by err exc = elim err.cause [ none ↦ false | some i ↦ i == exc.id ]

abbrev pub is_stop_iteration : Kind → Bool
is_stop_iteration stop_iteration = true
is_stop_iteration _ = false

abbrev pub is_any_stop : Kind → Bool
is_any_stop stop_iteration = true
is_any_stop stop_async_iteration = true
is_any_stop _ = false

-- The `except RuntimeError` clause, where `converted` tells whether `exc` is a stop signal, which
-- a generator turns into a `RuntimeError`.
abbrev runtime_error_outcome : Bool → Exc → Exc → Outcome Bool
runtime_error_outcome converted exc err =
    if is_same err exc
    then returned false
    else if converted && caused_by err exc
    then returned false
    else raised err

-- The last `except BaseException` clause.
abbrev other_outcome : Exc → Exc → Outcome Bool
other_outcome exc err = if is_same err exc then returned false else raised err

-- The clauses on what `gen.throw(exc)` raised, by its class.
abbrev pub thrown : Exc → Exc → Kind → Outcome Bool
thrown exc err stop_iteration = returned (not (is_same err exc))
thrown exc err runtime_error = runtime_error_outcome (is_stop_iteration exc.kind) exc err
thrown exc err _ = other_outcome exc err

-- The clauses on what `gen.athrow(exc)` raised.
abbrev pub thrown_async : Exc → Exc → Kind → Outcome Bool
thrown_async exc err stop_async_iteration = returned (not (is_same err exc))
thrown_async exc err runtime_error = runtime_error_outcome (is_any_stop exc.kind) exc err
thrown_async exc err _ = other_outcome exc err

abbrev pub is_stop_async : Kind → Bool
is_stop_async stop_async_iteration = true
is_stop_async _ = false

-- `_exit_generator(gen, exc)`: whether `exc` was suppressed, or what is raised.
unfoldable pub exit_generator : Generator → Option Exc → Outcome Bool
exit_generator g none = elim g.finish [
  | yielded ↦ unstopped g
  | raises e ↦ if is_stop_iteration e.kind then returned false else raised e
]
exit_generator g (some exc) = elim (g.throw exc) [
  | yielded ↦ unstopped g
  | raises err ↦ thrown exc err err.kind
]

-- `_exit_async_generator(gen, exc)`.
unfoldable pub exit_async_generator : Generator → Option Exc → Outcome Bool
exit_async_generator g none = elim g.finish [
  | yielded ↦ unstopped g
  | raises e ↦ if is_stop_async e.kind then returned false else raised e
]
exit_async_generator g (some exc) = elim (g.throw exc) [
  | yielded ↦ unstopped g
  | raises err ↦ thrown_async exc err err.kind
]

-- `_exit_sync(ctx, exc)`.
unfoldable pub exit_sync : Resource → Option Exc → Outcome Bool
exit_sync (driven g) exc = exit_generator g exc
exit_sync (manager m) exc = m.exit exc

-- The three ways in which `aclose` exits an entry.
unfoldable pub exit_entry : Bool × Resource → Option Exc → Outcome Bool
unfolding exit_sync
exit_entry (false, r) exc = exit_sync r exc
exit_entry (true, driven g) exc = exit_async_generator g exc
exit_entry (true, manager m) exc = m.exit exc
