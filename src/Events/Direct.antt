-- ===== src/Events/Direct.antt =====
-- stratae/events/direct.py: the registry of the direct buses, that is `_register`, `remove` and
-- `handlers`; and stratae/events/pipeline.py: how `wrap_handler` decides whether a call is async.
-- Events and handlers are numbers, the latter by identity. Which patterns the bus has a dispatcher
-- for is decided by `functools.singledispatch`, and a parameter.
pub mod Handlers
pub mod Registry
use stratae.Prelude.{
  ℕ, Bool, true, false, Option, none, some, List, [], ◌∷◌, ◌++◌, ◌==◌, ◌&&◌, ◌||◌, not,
  if◌then◌else◌,
}
use stratae.Python.Dict.{Dict, lookup, insert, get_or}

-- `Handler`, with its identity and whether its call is async.
pub record Handler : Type 0 where
  pub id : ℕ
  pub is_async : Bool

-- Whether a bus is asynchronous, and whether it has handle middleware.
pub record Bus : Type 0 where
  pub asynchronous : Bool
  pub has_middleware : Bool

-- The arguments of a registration: whether the function is async, and whether the hooks, if there
-- are any, include an async one.
pub record Registration : Type 0 where
  pub fn_async : Bool
  pub hooks_async : Option Bool

-- `hooks is not None and hooks.has_async`
abbrev pub any_async : Option Bool → Bool
any_async none = false
any_async (some has_async) = has_async

-- Whether the call that `wrap_handler` builds is async: once hooks, and then middleware, are
-- around the handler.
unfoldable pub wrap_handler : Bus → Registration → Bool
wrap_handler bus r =
    let with_hooks = r.fn_async || any_async r.hooks_async in
    if bus.has_middleware && bus.asynchronous then true else with_hooks

-- What a registration comes to, if it does not raise one of its `TypeError`s.
pub data Registered : Type 0 where
  handled : Handler → Registered
  async_handler_rejected unsupported_pattern async_hooks_rejected : Registered

-- `DirectBus._register` and `BaseDirectBus._register` up to the storing of the handler.
unfoldable pub accept : (ℕ → Bool) → Bus → ℕ → ℕ → Registration → Registered
accept supports bus event id r =
    if not bus.asynchronous && r.fn_async
    then async_handler_rejected
    else if not (supports event)
    then unsupported_pattern
    else if any_async r.hooks_async && not bus.asynchronous
    then async_hooks_rejected
    else handled (record { id = id; is_async = wrap_handler bus r })

-- `id in handlers`
abbrev pub has : ℕ → List Handler → Bool
has id [] = false
has id (h ∷ hs) = if id == h.id then true else has id hs

-- `set.add` and `set.discard`, on handlers that are compared by identity.
abbrev pub add_handler : Handler → List Handler → List Handler
add_handler h hs = if has h.id hs then hs else h ∷ hs

abbrev pub discard : ℕ → List Handler → List Handler
discard id [] = []
discard id (h ∷ hs) = if id == h.id then discard id hs else h ∷ discard id hs

-- `handlers`
abbrev pub handlers : ℕ → Dict (List Handler) → List Handler
handlers event registry = get_or (lookup event registry) []

abbrev pub store_handler : ℕ → Registered → Dict (List Handler) → Dict (List Handler)
store_handler event (handled h) registry =
    insert event (add_handler h (handlers event registry)) registry
store_handler event async_handler_rejected registry = registry
store_handler event unsupported_pattern registry = registry
store_handler event async_hooks_rejected registry = registry

-- `_register`, of a new handler's identity.
unfoldable pub register_handler :
    (ℕ → Bool) → Bus → ℕ → ℕ → Registration → Dict (List Handler) → Dict (List Handler)
register_handler supports bus event id r registry =
    store_handler event (accept supports bus event id r) registry

-- `remove`
unfoldable pub remove : ℕ → ℕ → Dict (List Handler) → Dict (List Handler)
remove event id registry = insert event (discard id (handlers event registry)) registry
