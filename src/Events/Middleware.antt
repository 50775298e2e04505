-- ===== src/Events/Middleware.antt =====
-- stratae/events/middleware.py: `_entry`, `_manager`, `_refuse_coroutine`, `_refuse_swallow`,
-- `_exit`, `_unwind`, `run_middleware` and their asynchronous forms. A middleware and its context
-- manager are the application's: functions that may raise, on a state `S` of its own. `R` is the
-- type of replies. `new_error` is the identity of the exception that the runner makes where a layer
-- misbehaves, of which it makes one at most for each layer.
pub mod Nesting
pub mod Replies
use stratae.Prelude.{
  ℕ, Bool, true, false, Option, none, some, List, [], ◌∷◌, ◌&&◌, ◌||◌, not, if◌then◌else◌,
}
use stratae.Python.{
  Kind, Exc, is_exception, is_same, type_error, exception, cancelled_error, Outcome, returned,
  raised,
}

-- What a context manager's method comes back with: a coroutine, or a value, as its truth.
pub data Result : Type 0 where
  coroutine : Result
  value : Bool → Result

-- The call object as the layers see it: its `reply`, and the application's state beside it.
abbrev pub Seen : Type 0 → Type 0 → Type 0
Seen R S = Option R × S

-- A context manager: which methods its type has, and what they do.
pub record Manager (R S : Type 0) : Type 0 where
  pub has_async : Bool
  pub has_sync : Bool
  pub enter : Seen R S → Outcome Result × S
  pub aenter : Seen R S → Outcome Result × S
  pub exit : Option Exc → Seen R S → Outcome Result × S
  pub aexit : Option Exc → Seen R S → Outcome Result × S

pub record Middleware (R S : Type 0) : Type 0 where
  pub make : Seen R S → Outcome (Manager R S) × S
  pub new_error : ℕ

-- An item of `entered`.
pub record Layer (R S : Type 0) : Type 0 where
  pub manager : Manager R S
  pub is_async : Bool
  pub new_error : ℕ

-- `_entry`: whether to enter asynchronously, if the bus can enter it at all.
unfoldable pub entry : Bool → Bool → Bool → Option Bool
entry asynchronous has_async has_sync =
    if asynchronous && has_async then some true else if has_sync then some false else none

abbrev pub type_error_of : ℕ → Exc
type_error_of new_error = record { id = new_error; kind = type_error; cause = none }

-- What an awaited or a plain call of a method gives, where a plain call refuses a coroutine as
-- `_refuse_coroutine` does. An awaited result is only read for its truth.
unfoldable pub checked : Bool → ℕ → Outcome Result → Outcome Bool
checked is_async new_error (raised e) = raised e
checked true new_error (returned coroutine) = returned true
checked false new_error (returned coroutine) = raised (type_error_of new_error)
checked is_async new_error (returned (value b)) = returned b

abbrev is_cancelled : Kind → Bool
is_cancelled cancelled_error = true
is_cancelled _ = false

-- `_refuse_swallow`: what it raises. A `MiddlewareError` is an ordinary error.
unfoldable pub refuse_swallow : ℕ → Exc → Bool → Exc
refuse_swallow new_error error cancelling =
    if is_exception error.kind || (is_cancelled error.kind && not cancelling)
    then record { id = new_error; kind = exception; cause = some error.id }
    else error

module _ {R S : Type 0} where
  abbrev pub on_opened :
      Bool → ℕ → Option R → Outcome (Manager R S) × S → Outcome (Layer R S) × Seen R S
  on_opened asynchronous new_error reply (raised e, s) = (raised e, (reply, s))
  on_opened asynchronous new_error reply (returned m, s) =
      elim (entry asynchronous m.has_async m.has_sync) [
        | none ↦ (raised (type_error_of new_error), (reply, s))
        | some is_async ↦ (
          returned (record { manager = m; is_async = is_async; new_error = new_error }),
          (reply, s),
        )
      ]

  -- `_manager`
  unfoldable pub open_manager : Bool → Middleware R S → Seen R S → Outcome (Layer R S) × Seen R S
  open_manager asynchronous item seen =
      on_opened asynchronous item.new_error seen.0 (item.make seen)

  abbrev pub with_reply : Layer R S → Option R → Outcome Result × S → Outcome Bool × Seen R S
  with_reply l reply (o, s) = (checked l.is_async l.new_error o, (reply, s))

  unfoldable pub enter_layer : Layer R S → Seen R S → Outcome Bool × Seen R S
  enter_layer l seen =
      with_reply l seen.0 (if l.is_async then l.manager.aenter seen else l.manager.enter seen)

  unfoldable pub exit_layer : Layer R S → Option Exc → Seen R S → Outcome Bool × Seen R S
  exit_layer l error seen =
      with_reply l seen.0
        (if l.is_async then l.manager.aexit error seen else l.manager.exit error seen)

  -- The error that goes on after a layer has exited with `error`: the loop keeps its own where it
  -- is raised again. `cancelling` tells whether the task is still being cancelled.
  module _ (cancelling : S → Bool) where
    abbrev pub going_on : Layer R S → Exc → Outcome Bool × Seen R S → Exc × Seen R S
    going_on l error (raised e, seen) = (if is_same e error then error else e, seen)
    going_on l error (returned true, seen) =
        let refused = refuse_swallow l.new_error error (cancelling seen.1) in
        (if is_same refused error then error else refused, seen)
    going_on l error (returned false, seen) = (error, seen)

    -- `_unwind` and `_unwind_async`: the error that is raised in the end.
    unfoldable pub unwind : List (Layer R S) → Exc → Seen R S → Exc × Seen R S
    unwind [] error seen = (error, seen)
    unwind (l ∷ entered) error seen =
        let left = going_on l error (exit_layer l (some error) seen) in unwind entered left.0 left.1

    abbrev pub raise_from : List (Layer R S) → Exc → Seen R S → Outcome R × Seen R S
    raise_from entered error seen = let left = unwind entered error seen in (raised left.0, left.1)

    abbrev pub on_exit :
        (Seen R S → Outcome R × Seen R S)
        → List (Layer R S)
        → Outcome Bool × Seen R S
        → Outcome R × Seen R S
    on_exit continue entered (raised e, seen) = raise_from entered e (none, seen.1)
    on_exit continue entered (returned _, seen) = continue seen

    -- `_exit` and `_exit_async`, and the return of the reply after them.
    unfoldable pub exit_all : List (Layer R S) → R → Seen R S → Outcome R × Seen R S
    exit_all [] reply seen = (returned reply, seen)
    exit_all (l ∷ entered) reply seen =
        on_exit (exit_all entered reply) entered (exit_layer l none seen)

    abbrev pub on_call : List (Layer R S) → Option R → Outcome R × S → Outcome R × Seen R S
    on_call entered before (raised e, s) = raise_from entered e (before, s)
    on_call entered before (returned reply, s) = exit_all entered reply (some reply, s)

    abbrev pub on_enter :
        (List (Layer R S) → Seen R S → Outcome R × Seen R S)
        → List (Layer R S)
        → Layer R S
        → Outcome Bool × Seen R S
        → Outcome R × Seen R S
    on_enter continue entered l (raised e, seen) = raise_from entered e seen
    on_enter continue entered l (returned _, seen) = continue (l ∷ entered) seen

    abbrev pub on_open :
        (List (Layer R S) → Seen R S → Outcome R × Seen R S)
        → List (Layer R S)
        → Outcome (Layer R S) × Seen R S
        → Outcome R × Seen R S
    on_open continue entered (raised e, seen) = raise_from entered e seen
    on_open continue entered (returned l, seen) = on_enter continue entered l (enter_layer l seen)

    -- The loop of the runners, with the layers entered so far, the last one first.
    unfoldable pub run_from :
        Bool
        → (S → Outcome R × S)
        → List (Middleware R S)
        → List (Layer R S)
        → Seen R S
        → Outcome R × Seen R S
    run_from asynchronous call [] entered seen = on_call entered seen.0 (call seen.1)
    run_from asynchronous call (item ∷ items) entered seen =
        on_open (run_from asynchronous call items) entered (open_manager asynchronous item seen)

  -- `run_middleware`: a sync bus has no task to cancel.
  unfoldable pub run_middleware :
      (S → Outcome R × S) → List (Middleware R S) → Seen R S → Outcome R × Seen R S
  run_middleware call items seen = run_from (λ s. true) false call items [] seen

  -- `run_middleware_async`
  unfoldable pub run_middleware_async :
      (S → Bool) → (S → Outcome R × S) → List (Middleware R S) → Seen R S → Outcome R × Seen R S
  run_middleware_async task_cancelling call items seen =
      run_from task_cancelling true call items [] seen
