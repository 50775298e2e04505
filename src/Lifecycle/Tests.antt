-- ===== src/Lifecycle/Tests.antt =====
-- The lifecycle theorems at concrete activations, resources and runs.
use mathlib.Core.List.{reverse}
use stratae.Prelude.{
  ℕ, if◌then◌else◌, ◌==◌, true, false, none, some, [], ◌∷◌, ◌≡◌, refl, ◌<◌, ◌↔◌, arith,
}
use stratae.Python.{Exc, exception, stop_iteration, returned, raised}
use stratae.Lifecycle.Stack.Exit.{
  raises, Generator, Manager, driven, manager, Contexts, exit_sync, exit_entry, exit_generator,
}
use stratae.Lifecycle.Stack.Exit.Contract.{exit_generator_contract, Suppressed, PassedOn}
use stratae.Lifecycle.Stack.Close.{
  finished, close_loop, close_step, record_exit, settle, close, aclose,
}
use stratae.Lifecycle.Stack.Close.Propagation.{
  propagate, Propagates, close-Propagates, aclose-Propagates,
}
use stratae.Lifecycle.Stack.Close.Groups.{IsGrouped, close-IsGrouped}
use stratae.Lifecycle.Stack.Enter.{Entry}
use stratae.Lifecycle.Scope.{
  State, ScopeConfig, activate, end_activation, dependent_scope_active, find, update, is_live,
  get_var, put_var, set_var,
}
use stratae.Lifecycle.Scope.Heap.{dependents_at, children}
use stratae.Lifecycle.Scope.World.{World, activates, ends, start, Reachable, starts, goes_on}
use stratae.Lifecycle.Scope.Reachability.{IsCountedWorld, Reachable-IsCounted}
use stratae.Lifecycle.Scope.Dependents.{Reachable-parent_live, end_activation-refused}
use stratae.Lifecycle.Scope.Blocks.{IsRestored, activate-IsRestored}
use stratae.Lifecycle.Scope.Rollback.{IsUnchanged, activate-IsUnchanged}

abbrev an_error : ℕ → Exc
an_error id = record { id = id; kind = exception; cause = none }

-- A context manager whose exit fails, and a generator that catches what it is thrown.
abbrev failing : Manager
failing = record { exit = λ exc. raised (an_error 7) }

abbrev catching : Generator
catching = record {
  finish = raises (record { id = 5; kind = stop_iteration; cause = none });
  throw = λ exc. raises (record { id = 5; kind = stop_iteration; cause = none });
  closing = none;
  error_id = 6;
}

abbrev two_resources : Contexts
two_resources = (false, driven catching) ∷ (false, manager failing) ∷ []

-- The failure of the inner resource replaces the error, and the outer one catches it.
close_two : close two_resources (some (an_error 1)) ≡ finished true
unfolding close close_loop close_step record_exit settle exit_sync exit_generator
close_two = refl

close-Propagates_example :
    Propagates
      (some (an_error 1))
      (propagate (λ c. exit_sync c.1) (reverse two_resources) (some (an_error 1)))
      (close two_resources (some (an_error 1)))
close-Propagates_example = close-Propagates two_resources (some (an_error 1))

aclose-Propagates_example :
    Propagates
      (some (an_error 1))
      (propagate exit_entry (reverse two_resources) (some (an_error 1)))
      (aclose two_resources (some (an_error 1)))
aclose-Propagates_example = aclose-Propagates two_resources (some (an_error 1))

close-IsGrouped_example :
    IsGrouped (close two_resources (some (an_error 1)))
    × IsGrouped (aclose two_resources (some (an_error 1)))
close-IsGrouped_example = close-IsGrouped two_resources (some (an_error 1))

exit_generator_contract_example :
    ((exit_generator catching (some (an_error 1)) ≡ returned true)
      ↔ Suppressed stop_iteration catching (an_error 1))
    × ((exit_generator catching (some (an_error 1)) ≡ returned false)
        ↔ PassedOn false catching (an_error 1))
exit_generator_contract_example = exit_generator_contract catching (an_error 1)

abbrev enters_value : Entry
enters_value slots = (returned 3, slots)

-- An application scope 0, and a request scope 1 that requires it; all other scopes are like 0.
abbrev two_scopes : ℕ → ScopeConfig
two_scopes scope =
    if scope == 1
    then record { is_shared = false; requires = some 0 }
    else record { is_shared = true; requires = none }

abbrev application : State
application = (activate two_scopes 0 0 (start two_scopes).state).1

abbrev request : State
request = (activate two_scopes 0 1 application).1

abbrev both_active : World
both_active = record { state = request; releasing = [] }

both_active-Reachable : Reachable two_scopes both_active
both_active-Reachable =
    goes_on (record { state = application; releasing = [] }) both_active
      (goes_on (start two_scopes) (record { state = application; releasing = [] }) starts
        (activates 0 0 (start two_scopes).state []))
      (activates 0 1 application [])

Reachable-IsCounted_example : IsCountedWorld both_active
Reachable-IsCounted_example = Reachable-IsCounted two_scopes both_active both_active-Reachable

end_activation-refused_example :
    end_activation two_scopes 0 0 none request ≡ (dependent_scope_active, request)
unfolding activate set_var get_var put_var find update children
end_activation-refused_example =
    end_activation-refused two_scopes 0 0 0 request [] both_active-Reachable refl (omega arith)

Reachable-parent_live_example : (is_live 0 request.heap ≡ true) × (0 < dependents_at 0 request.heap)
unfolding activate set_var get_var put_var find update children
Reachable-parent_live_example =
    Reachable-parent_live two_scopes both_active 1 0
      (record {
        live = true;
        contexts = [];
        dependents = 0;
        set_in = 0;
        held = none;
        parent = some 0;
      })
      both_active-Reachable refl refl refl

-- The request has ended, and its resources are being closed.
abbrev closing : State
closing = (end_activation two_scopes 0 1 none request).1

closing-Reachable : Reachable two_scopes (record { state = closing; releasing = 0 ∷ [] })
unfolding end_activation activate set_var get_var put_var find update
closing-Reachable =
    goes_on both_active (record { state = closing; releasing = 0 ∷ [] }) both_active-Reachable
      (ends 0 1 none request [])

-- The required scope is not active, so nothing changes.
activate-IsUnchanged_example :
    IsUnchanged (start two_scopes).state (activate two_scopes 0 1 (start two_scopes).state)
activate-IsUnchanged_example = activate-IsUnchanged two_scopes 0 1 (start two_scopes).state

activate-IsRestored_example :
    IsRestored two_scopes 0 1 (some (an_error 1)) application (activate two_scopes 0 1 application)
activate-IsRestored_example = activate-IsRestored two_scopes 0 1 (some (an_error 1)) application
