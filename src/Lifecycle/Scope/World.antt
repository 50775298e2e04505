-- ===== src/Lifecycle/Scope/World.antt =====
-- Runs of the scopes: activations, ends and releases of any contexts in any interleaving.
use stratae.Prelude.{ℕ, ◌+◌, Option, none, some, List, [], ◌∷◌, ◌++◌, ◌==◌, if◌then◌else◌}
use stratae.Lifecycle.Stack.Exit.{Contexts}
use stratae.Lifecycle.Scope.{
  Storage, State, ScopeConfig, update, release, Ended, ended, activate, end_activation,
}

-- The scopes, and the parents of the activations that have ended and are not released yet.
pub record World : Type 0 where
  pub state : State
  pub releasing : List ℕ

-- How often an address is still to be released.
abbrev pub owed : List ℕ → ℕ → ℕ
owed [] p = 0
owed (q ∷ qs) p = (if p == q then 1 else 0) + owed qs p

-- The releases that an end leaves to be made.
abbrev pub to_release : Ended → List ℕ → List ℕ
to_release (ended contexts (some p)) qs = p ∷ qs
to_release _ qs = qs

abbrev pub with_contexts : Contexts → Storage → Storage
with_contexts contexts x = record x { contexts = contexts }

module _ (configs : ℕ → ScopeConfig) where
  -- One step of some context: it activates a scope, ends an activation, releases its parent once
  -- its resources are closed, enters resources, or starts with a copy of another's variables.
  pub data Step : World → World → Type 0 where
    activates :
        (context scope : ℕ) (s : State) (qs : List ℕ)
        → Step
            (record { state = s; releasing = qs })
            (record { state = (activate configs context scope s).1; releasing = qs })
    ends :
        (context scope : ℕ) (expected : Option ℕ) (s : State) (qs : List ℕ)
        → Step
            (record { state = s; releasing = qs })
            (record {
              state = (end_activation configs context scope expected s).1;
              releasing = to_release (end_activation configs context scope expected s).0 qs;
            })
    releases :
        (s : State) (before : List ℕ) (p : ℕ) (after : List ℕ)
        → Step
            (record { state = s; releasing = before ++ p ∷ after })
            (record { state = release (some p) s; releasing = before ++ after })
    enters :
        (a : ℕ) (contexts : Contexts) (s : State) (qs : List ℕ)
        → Step
            (record { state = s; releasing = qs })
            (record {
              state = record s { heap = update a (with_contexts contexts) s.heap };
              releasing = qs;
            })
    copies :
        (parent context : ℕ) (s : State) (qs : List ℕ)
        → Step
            (record { state = s; releasing = qs })
            (record {
              state = record s { vars = λ c. (if c == context then s.vars parent else s.vars c) };
              releasing = qs;
            })

  -- No scope has ever been active.
  abbrev pub start : World
  start = record {
    state = record { heap = []; vars = λ c k. none; shared = λ k. none };
    releasing = [];
  }

  pub data Reachable : World → Type 0 where
    starts : Reachable start
    goes_on : (w v : World) → Reachable w → Step w v → Reachable v
