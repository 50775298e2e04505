-- ===== src/Lifecycle/Stack/Enter/Order.antt =====
-- What an entry changes of the close that follows.
use mathlib.Core.List.{reverse, reverse-append}
use stratae.Prelude.{
  ℕ, Bool, true, false, Option, none, some, [], ◌∷◌, if◌then◌else◌, ◌≡◌, refl, inl, inr, Bool-cases,
}
use stratae.Python.{Exc, Outcome, returned, raised}
use stratae.Lifecycle.Stack.Exit.{Generator, Manager, Resource, driven, manager, exit_entry}
use stratae.Lifecycle.Stack.Close.{outcome_of}
use stratae.Lifecycle.Stack.Close.Propagation.{propagate, same_or}
use stratae.Lifecycle.Stack.Enter.{
  Slots, Entered, value, Entry, register, entered_context, entered_generator, enter_context,
  enter_async_context, enter_generator, enter_async_generator,
}

-- What leaves an asynchronous close of the storage, handed `exc`.
abbrev pub leaving : Slots → Option Exc → Option Exc
leaving none exc = exc
leaving (some contexts) exc = propagate exit_entry (reverse contexts) exc

abbrev pub is_value : Entered → Bool
is_value (value v) = true
is_value _ = false

-- What one exit lets out.
abbrev pub through : Bool × Resource → Option Exc → Option Exc
through entry exc = same_or exc (outcome_of (exit_entry entry exc) exc)

-- An entry that yields its value puts its own exit in front of those there were; one that does
-- not leaves the close that follows as it was. `before` is the storage that the resource's own
-- code left.
abbrev pub Precedes : Bool × Resource → Slots → Entered × Slots → Type 0
Precedes entry before (r, slots) =
    (exc : Option Exc)
    → leaving slots exc ≡ leaving before (if is_value r then through entry exc else exc)

register-Precedes :
    (entry : Bool × Resource) (finish : Outcome Bool) (v : ℕ) (slots : Slots)
    → Precedes entry slots (register entry finish v slots)
unfolding propagate
register-Precedes entry finish v (some contexts) exc = rw (reverse-append contexts (entry ∷ []))
register-Precedes entry (returned suppressed) v none exc = refl
register-Precedes entry (raised e) v none exc = refl

context-Precedes :
    (entry : Bool × Resource) (m : Manager) (o : Outcome ℕ × Slots)
    → Precedes entry o.1 (entered_context entry m o)
context-Precedes entry m (returned v, slots) = register-Precedes entry (m.exit none) v slots
context-Precedes entry m (raised e, slots) = λ exc. refl

generator-Precedes :
    (entry : Bool × Resource) (finish : Outcome Bool) (stops : Exc → Bool) (o : Outcome ℕ × Slots)
    → Precedes entry o.1 (entered_generator entry finish stops o)
generator-Precedes entry finish stops (returned v, slots) = register-Precedes entry finish v slots
generator-Precedes entry finish stops (raised e, slots) =
    λ exc. elim (Bool-cases (stops e)) [ inl h ↦ rw h | inr h ↦ rw h ]

-- Whichever way a resource is entered, a close that follows a successful entry exits it first and
-- then all that was registered before, and a close that follows any other entry does not touch it.
pub enter-Precedes :
    (slots : Slots) (entry : Entry) (m : Manager) (g : Generator)
    → let before : Slots = (entry slots).1 in
      Precedes (false, manager m) before (enter_context slots entry m)
      × Precedes (true, manager m) before (enter_async_context slots entry m)
      × Precedes (false, driven g) before (enter_generator slots entry g)
      × Precedes (true, driven g) before (enter_async_generator slots entry g)
unfolding enter_context enter_async_context enter_generator enter_async_generator
enter-Precedes slots entry m g = (
  context-Precedes (false, manager m) m (entry slots),
  context-Precedes (true, manager m) m (entry slots),
  generator-Precedes (false, driven g) _ _ (entry slots),
  generator-Precedes (true, driven g) _ _ (entry slots),
)
