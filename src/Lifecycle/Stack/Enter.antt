-- ===== src/Lifecycle/Stack/Enter.antt =====
-- stratae/lifecycle/_stack.py: `enter_context` to `enter_async_generator`.
pub mod Order
use stratae.Prelude.{ℕ, Bool, true, false, Option, none, some, List, [], ◌∷◌, ◌++◌, if◌then◌else◌}
use stratae.Python.{Exc, Outcome, returned, raised}
use stratae.Lifecycle.Stack.Exit.{
  Generator, Manager, Resource, driven, manager, Contexts, is_stop_iteration, is_stop_async,
  exit_generator, exit_async_generator,
}

-- What an entry reads of an activation's storage: slot 0, or `none` once it has been emptied.
abbrev pub Slots : Type 0
Slots = Option Contexts

-- How an entry ends: the entered value, an exception of the resource's own code, or the library's
-- `EndedDuringEntryError` or `ResourceDidNotYieldError`.
pub data Entered : Type 0 where
  value : ℕ → Entered
  failed : Exc → Entered
  ended_during_entry did_not_yield : Entered

-- The application's `__enter__`, or a generator up to its first yield. It may end the activation
-- or enter other resources in it, so it returns the storage that it leaves.
abbrev pub Entry : Type 0
Entry = Slots → Outcome ℕ × Slots

-- The part after a successful entry: register the resource, or finish it at once (`finish`) if
-- the activation has ended.
abbrev pub register : Bool × Resource → Outcome Bool → ℕ → Slots → Entered × Slots
register entry finish v (some contexts) = (value v, some (contexts ++ entry ∷ []))
register entry (returned suppressed) v none = (ended_during_entry, none)
register entry (raised e) v none = (failed e, none)

abbrev entered_context : Bool × Resource → Manager → Outcome ℕ × Slots → Entered × Slots
entered_context entry m (returned v, slots) = register entry (m.exit none) v slots
entered_context entry m (raised e, slots) = (failed e, slots)

-- `enter_context`
pub enter_context : Slots → Entry → Manager → Entered × Slots
enter_context slots enter m = entered_context (false, manager m) m (enter slots)

-- `enter_async_context`
pub enter_async_context : Slots → Entry → Manager → Entered × Slots
enter_async_context slots enter m = entered_context (true, manager m) m (enter slots)

-- A generator that returns instead of yielding raises `StopIteration` (`StopAsyncIteration`).
abbrev entered_generator :
    Bool × Resource → Outcome Bool → (Exc → Bool) → Outcome ℕ × Slots → Entered × Slots
entered_generator entry finish stops (returned v, slots) = register entry finish v slots
entered_generator entry finish stops (raised e, slots) =
    (if stops e then did_not_yield else failed e, slots)

-- `enter_generator`
pub enter_generator : Slots → Entry → Generator → Entered × Slots
enter_generator slots start g =
    entered_generator (false, driven g) (exit_generator g none) (λ e. is_stop_iteration e.kind)
      (start slots)

-- `enter_async_generator`
pub enter_async_generator : Slots → Entry → Generator → Entered × Slots
enter_async_generator slots start g =
    entered_generator (true, driven g) (exit_async_generator g none) (λ e. is_stop_async e.kind)
      (start slots)
