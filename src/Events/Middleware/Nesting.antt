-- ===== src/Events/Middleware/Nesting.antt =====
-- The middleware runners against nested blocks, one for each layer.
use stratae.Prelude.{
  ℕ, ap, ◌∙◌, ◌==◌, ==_refl, if◌then◌else◌, Bool, true, false, Option, none, some, List, [], ◌∷◌,
  ◌≡◌, refl,
}
use stratae.Python.{
  Kind, stop_iteration, stop_async_iteration, runtime_error, type_error, not_connected,
  connection_error, exception, cancelled_error, base_exception, Exc, is_same, Outcome, returned,
  raised,
}
use stratae.Events.Middleware.{
  Seen, Middleware, Layer, open_manager, enter_layer, exit_layer, refuse_swallow, going_on, unwind,
  raise_from, on_exit, exit_all, on_call, on_enter, on_open, run_from, run_middleware,
  run_middleware_async,
}

-- The error that leaves a block whose exit returned true: an interrupt goes on as it is, and a
-- cancellation while the task is being cancelled; any other error gives way to a new one that it
-- is the cause of.
abbrev pub goes_on : Kind → Bool → Bool
goes_on base_exception cancelled = true
goes_on cancelled_error cancelled = cancelled
goes_on _ cancelled = false

abbrev pub not_swallowed : ℕ → Exc → Bool → Exc
not_swallowed new_error error true = error
not_swallowed new_error error false =
    if new_error == error.id
    then error
    else record { id = new_error; kind = exception; cause = some error.id }

refused-goes_on :
    (new_error i : ℕ) (k : Kind) (c : Option ℕ) (cancelled : Bool)
    → let error : Exc = record { id = i; kind = k; cause = c } in
      let refused = refuse_swallow new_error error cancelled in
      (if is_same refused error then error else refused)
      ≡ not_swallowed new_error error (goes_on k cancelled)
unfolding refuse_swallow
refused-goes_on n i base_exception c b = rw (==_refl i) refl
refused-goes_on n i cancelled_error c true = rw (==_refl i) refl
refused-goes_on n i cancelled_error c false = refl
refused-goes_on n i stop_iteration c b = refl
refused-goes_on n i stop_async_iteration c b = refl
refused-goes_on n i runtime_error c b = refl
refused-goes_on n i type_error c b = refl
refused-goes_on n i not_connected c b = refl
refused-goes_on n i connection_error c b = refl
refused-goes_on n i exception c b = refl

module _ {R S : Type 0} (cancelling : S → Bool) where
  abbrev pub left_clean : R → Outcome Bool × Seen R S → Outcome R × Seen R S
  left_clean reply (raised e, seen) = (raised e, (none, seen.1))
  left_clean reply (returned _, seen) = (returned reply, seen)

  -- The error that leaves a block: what the exit raised, by identity, or the block's own.
  abbrev pub left_raised : Layer R S → Exc → Outcome Bool × Seen R S → Outcome R × Seen R S
  left_raised l error (raised e, seen) = (raised (if e.id == error.id then error else e), seen)
  left_raised l error (returned false, seen) = (raised error, seen)
  left_raised l error (returned true, seen) =
      (raised (not_swallowed l.new_error error (goes_on error.kind (cancelling seen.1))), seen)

  -- The end of one block: it is handed what the block's body came to, and cannot make an error
  -- into a reply. A block that fails after its body returned takes the reply back.
  abbrev pub leave : Layer R S → Outcome R × Seen R S → Outcome R × Seen R S
  leave l (raised error, seen) = left_raised l error (exit_layer l (some error) seen)
  leave l (returned reply, seen) = left_clean reply (exit_layer l none seen)

  abbrev pub seen_call : Option R → Outcome R × S → Outcome R × Seen R S
  seen_call before (raised e, s) = (raised e, (before, s))
  seen_call before (returned reply, s) = (returned reply, (some reply, s))

  abbrev pub entered_block :
      (Seen R S → Outcome R × Seen R S) → Layer R S → Outcome Bool × Seen R S → Outcome R × Seen R S
  entered_block body l (raised e, seen) = (raised e, seen)
  entered_block body l (returned _, seen) = leave l (body seen)

  abbrev pub opened_block :
      (Seen R S → Outcome R × Seen R S) → Outcome (Layer R S) × Seen R S → Outcome R × Seen R S
  opened_block body (raised e, seen) = (raised e, seen)
  opened_block body (returned l, seen) = entered_block body l (enter_layer l seen)

  -- `with m(seen): with n(seen): … call()`, where no exit can swallow an error.
  unfoldable pub nested :
      Bool → (S → Outcome R × S) → List (Middleware R S) → Seen R S → Outcome R × Seen R S
  nested asynchronous call [] seen = seen_call seen.0 (call seen.1)
  nested asynchronous call (item ∷ items) seen =
      opened_block (nested asynchronous call items) (open_manager asynchronous item seen)

  -- The ends of the blocks around a place, innermost first.
  unfoldable leave_all : List (Layer R S) → Outcome R × Seen R S → Outcome R × Seen R S
  leave_all [] o = o
  leave_all (l ∷ entered) o = leave_all entered (leave l o)

  going_on-left_raised :
      (l : Layer R S) (error : Exc) (o : Outcome Bool × Seen R S)
      → (raised (going_on cancelling l error o).0, (going_on cancelling l error o).1)
        ≡ left_raised l error o
  going_on-left_raised l error (raised e, seen) = refl
  going_on-left_raised l error (returned false, seen) = refl
  going_on-left_raised l error (returned true, seen) =
      ap (λ e. (raised e, seen))
        (refused-goes_on l.new_error error.id error.kind error.cause (cancelling seen.1))

  raise_from-leave :
      (entered : List (Layer R S)) (e : Exc) (seen : Seen R S)
      → raise_from cancelling entered e seen ≡ leave_all entered (raised e, seen)
  unfolding unwind leave_all
  raise_from-leave [] e seen = refl
  raise_from-leave (l ∷ entered) e seen =
      let left = going_on cancelling l e (exit_layer l (some e) seen) in
      raise_from-leave entered left.0 left.1
      ∙ ap (leave_all entered) (going_on-left_raised l e (exit_layer l (some e) seen))

  on_exit-leave :
      (entered : List (Layer R S)) (reply : R) (continue : Seen R S → Outcome R × Seen R S)
      (o : Outcome Bool × Seen R S)
      → ((seen : Seen R S) → continue seen ≡ leave_all entered (returned reply, seen))
      → on_exit cancelling continue entered o ≡ leave_all entered (left_clean reply o)
  on_exit-leave entered reply continue (raised e, seen) h =
      raise_from-leave entered e (none, seen.1)
  on_exit-leave entered reply continue (returned b, seen) h = h seen

  exit_all-leave :
      (entered : List (Layer R S)) (reply : R) (seen : Seen R S)
      → exit_all cancelling entered reply seen ≡ leave_all entered (returned reply, seen)
  unfolding exit_all leave_all
  exit_all-leave [] reply seen = refl
  exit_all-leave (l ∷ entered) reply seen =
      on_exit-leave entered reply (exit_all cancelling entered reply) (exit_layer l none seen)
        (exit_all-leave entered reply)

  on_call-leave :
      (entered : List (Layer R S)) (before : Option R) (o : Outcome R × S)
      → on_call cancelling entered before o ≡ leave_all entered (seen_call before o)
  on_call-leave entered before (raised e, s) = raise_from-leave entered e (before, s)
  on_call-leave entered before (returned reply, s) = exit_all-leave entered reply (some reply, s)

  on_enter-leave :
      (continue : List (Layer R S) → Seen R S → Outcome R × Seen R S)
      (body : Seen R S → Outcome R × Seen R S) (entered : List (Layer R S)) (l : Layer R S)
      (o : Outcome Bool × Seen R S)
      → ((entered : List (Layer R S)) (seen : Seen R S)
          → continue entered seen ≡ leave_all entered (body seen))
      → on_enter cancelling continue entered l o ≡ leave_all entered (entered_block body l o)
  unfolding leave_all
  on_enter-leave continue body entered l (raised e, seen) h = raise_from-leave entered e seen
  on_enter-leave continue body entered l (returned b, seen) h = h (l ∷ entered) seen

  on_open-leave :
      (continue : List (Layer R S) → Seen R S → Outcome R × Seen R S)
      (body : Seen R S → Outcome R × Seen R S) (entered : List (Layer R S))
      (o : Outcome (Layer R S) × Seen R S)
      → ((entered : List (Layer R S)) (seen : Seen R S)
          → continue entered seen ≡ leave_all entered (body seen))
      → on_open cancelling continue entered o ≡ leave_all entered (opened_block body o)
  on_open-leave continue body entered (raised e, seen) h = raise_from-leave entered e seen
  on_open-leave continue body entered (returned l, seen) h =
      on_enter-leave continue body entered l (enter_layer l seen) h

  run_from-leave :
      (asynchronous : Bool) (call : S → Outcome R × S) (items : List (Middleware R S))
      (entered : List (Layer R S)) (seen : Seen R S)
      → run_from cancelling asynchronous call items entered seen
        ≡ leave_all entered (nested asynchronous call items seen)
  unfolding run_from nested
  run_from-leave asynchronous call [] entered seen = on_call-leave entered seen.0 (call seen.1)
  run_from-leave asynchronous call (item ∷ items) entered seen =
      on_open-leave (run_from cancelling asynchronous call items) (nested asynchronous call items)
        entered (open_manager asynchronous item seen) (run_from-leave asynchronous call items)

-- Running middleware does to the reply, the error and the state exactly what nested blocks do, one
-- for each middleware, in which an exit can replace an error but not swallow it, and one that fails
-- after a reply takes the reply back: sync middleware on a sync bus, which has no task to cancel,
-- and sync or async middleware on an async one.
pub run_middleware-nested :
    {R S : Type 0}
    → (task_cancelling : S → Bool) (call : S → Outcome R × S) (items : List (Middleware R S))
      (seen : Seen R S)
    → (run_middleware call items seen ≡ nested (λ s. true) false call items seen)
      × (run_middleware_async task_cancelling call items seen
          ≡ nested task_cancelling true call items seen)
unfolding run_middleware run_middleware_async leave_all
run_middleware-nested task_cancelling call items seen = (
  run_from-leave (λ s. true) false call items [] seen,
  run_from-leave task_cancelling true call items [] seen,
)
