-- ===== src/Events/Hooks.antt =====
-- stratae/events/hooks.py: `_observe` and `run_hooks`, with `reject_awaitable` of
-- stratae/events/_awaitables.py, and `run_emit` of stratae/events/pipeline.py. A hook is the
-- application's: it may raise, and acts on a state `S`. `R` is the type of replies. What is logged
-- is kept, the latest first.
pub mod Outcomes
use stratae.Prelude.{ℕ, Bool, true, false, Option, none, some, List, [], ◌∷◌, if◌then◌else◌}
use stratae.Python.{Exc, is_exception, Outcome, returned, raised}
use stratae.Events.Middleware.{type_error_of, Middleware, Seen, run_middleware}

-- What a hook does with its argument after the event and the payload: raise, or return, and then
-- whether an awaitable. `new_error` is the identity of the `TypeError` that refuses an awaitable.
pub record Hook (A S : Type 0) : Type 0 where
  pub run : A → S → Outcome Bool × S
  pub new_error : ℕ

-- `Hooks`
pub record Hooks (R S : Type 0) : Type 0 where
  pub before : List (Hook (Unit {0}) S)
  pub success : List (Hook R S)
  pub failure : List (Hook Exc S)
  pub complete : List (Hook (Option Exc) S)

-- `reject_awaitable`
abbrev pub reject_awaitable : {S : Type 0} → ℕ → Outcome Bool × S → Outcome (Unit {0}) × S
reject_awaitable new_error (raised e, s) = (raised e, s)
reject_awaitable new_error (returned true, s) = (raised (type_error_of new_error), s)
reject_awaitable new_error (returned false, s) = (returned tt, s)

-- The application's state, and the errors that were logged.
abbrev pub Logged : Type 0 → Type 0
Logged S = List Exc × S

module _ {S : Type 0} where
  abbrev pub on_observed :
      (Logged S → Outcome (Unit {0}) × Logged S)
      → List Exc
      → Outcome (Unit {0}) × S
      → Outcome (Unit {0}) × Logged S
  on_observed continue log (returned _, s) = continue (log, s)
  on_observed continue log (raised e, s) = elim (is_exception e.kind) [
    | true ↦ continue (e ∷ log, s)
    | false ↦ (raised e, (log, s))
  ]

  -- `_observe`
  unfoldable pub observe :
      {A : Type 0} → List (Hook A S) → A → Logged S → Outcome (Unit {0}) × Logged S
  observe [] a s = (returned tt, s)
  observe (h ∷ hs) a s = on_observed (observe hs a) s.0 (reject_awaitable h.new_error (h.run a s.1))

  -- `observe(...)`, and then what is raised or returned after it.
  abbrev pub observed :
      {R : Type 0}
      → (Logged S → Outcome R × Logged S)
      → Outcome (Unit {0}) × Logged S
      → Outcome R × Logged S
  observed continue (returned _, s) = continue s
  observed continue (raised e, s) = (raised e, s)

  abbrev pub on_before :
      {R : Type 0}
      → (Logged S → Outcome R × Logged S)
      → List Exc
      → Outcome (Unit {0}) × S
      → Outcome R × Logged S
  on_before continue log (returned _, s) = continue (log, s)
  on_before continue log (raised e, s) = (raised e, (log, s))

  -- The loop over the `before` hooks.
  unfoldable pub run_before :
      {R : Type 0}
      → List (Hook (Unit {0}) S)
      → (Logged S → Outcome R × Logged S)
      → Logged S
      → Outcome R × Logged S
  run_before [] continue s = continue s
  run_before (h ∷ hs) continue s =
      on_before (run_before hs continue) s.0 (reject_awaitable h.new_error (h.run tt s.1))

  -- What `run_hooks` does once the call has come to an outcome.
  abbrev pub on_outcome : {R : Type 0} → Hooks R S → List Exc → Outcome R × S → Outcome R × Logged S
  on_outcome hooks log (returned reply, s) =
      observed (λ t. observed (λ u. (returned reply, u)) (observe hooks.complete none t))
        (observe hooks.success reply (log, s))
  on_outcome hooks log (raised e, s) = elim (is_exception e.kind) [
    | true ↦
        observed (λ t. observed (λ u. (raised e, u)) (observe hooks.complete (some e) t))
          (observe hooks.failure e (log, s))
    | false ↦ observed (λ u. (raised e, u)) (observe hooks.complete (some e) (log, s))
  ]

  -- `run_hooks`
  unfoldable pub run_hooks :
      {R : Type 0} → Hooks R S → (S → Outcome R × S) → Logged S → Outcome R × Logged S
  run_hooks hooks call s = run_before hooks.before (λ t. on_outcome hooks t.0 (call t.1)) s

-- `run_emit`: middleware around hooks around the call.
module _ {R S : Type 0} where
  abbrev pub with_hooks : Option (Hooks R S) → (S → Outcome R × S) → Logged S → Outcome R × Logged S
  with_hooks none call s = let r = call s.1 in (r.0, (s.0, r.1))
  with_hooks (some hooks) call s = run_hooks hooks call s

  unfoldable pub run_emit :
      Option (Hooks R S)
      → List (Middleware R (Logged S))
      → (S → Outcome R × S)
      → Logged S
      → Outcome R × Logged S
  run_emit hooks [] call s = with_hooks hooks call s
  run_emit hooks (m ∷ ms) call s =
      let r = run_middleware (with_hooks hooks call) (m ∷ ms) (none, s) in (r.0, r.1.1)
