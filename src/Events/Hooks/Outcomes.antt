-- ===== src/Events/Hooks/Outcomes.antt =====
-- What hooks can and cannot change of the call that they observe.
use stratae.Prelude.{
  ℕ, Bool, true, false, Option, none, some, if◌then◌else◌, List, [], ◌∷◌, ◌≡◌, refl, All, inl, inr,
  Bool-cases,
}
use stratae.Python.{Exc, is_exception, Outcome, returned, raised}
use stratae.Events.Middleware.{type_error_of}
use stratae.Events.Hooks.{
  Hook, Hooks, reject_awaitable, Logged, on_observed, observe, on_before, run_before, on_outcome,
  run_hooks,
}

-- What a hook did wrong: what it raised, or that it returned an awaitable.
abbrev pub complaint : ℕ → Outcome Bool → Option Exc
complaint new_error (raised e) = some e
complaint new_error (returned true) = some (type_error_of new_error)
complaint new_error (returned false) = none

abbrev pub noted : Option Exc → List Exc → List Exc
noted none log = log
noted (some e) log = e ∷ log

module _ {S : Type 0} where
  -- Every observing hook, one after another, with what each did wrong logged.
  unfoldable pub notify : {A : Type 0} → List (Hook A S) → A → Logged S → Logged S
  notify [] a s = s
  notify (h ∷ hs) a s =
      let r = h.run a s.1 in notify hs a (noted (complaint h.new_error r.0) s.0, r.1)

module _ {R S : Type 0} where
  -- The end of a call with its outcome: the hooks for a reply, or for an ordinary error, and then
  -- those for every end. The outcome stands.
  abbrev pub concluded : Hooks R S → List Exc → Outcome R × S → Outcome R × Logged S
  concluded hooks log (returned reply, s) =
      (returned reply, notify hooks.complete none (notify hooks.success reply (log, s)))
  concluded hooks log (raised e, s) =
      if is_exception e.kind
      then (raised e, notify hooks.complete (some e) (notify hooks.failure e (log, s)))
      else (raised e, notify hooks.complete (some e) (log, s))

  abbrev pub let_through :
      Option Exc → (S → Outcome R × Logged S) → List Exc → S → Outcome R × Logged S
  let_through none continue log s = continue s
  let_through (some e) continue log s = (raised e, (log, s))

  -- The `before` hooks up to the first that does something wrong, which ends it all, and the call
  -- with its end after them.
  unfoldable pub guarded :
      List (Hook (Unit {0}) S)
      → Hooks R S
      → (S → Outcome R × S)
      → List Exc
      → S
      → Outcome R × Logged S
  guarded [] hooks call log s = concluded hooks log (call s)
  guarded (h ∷ hs) hooks call log s =
      let r = h.run tt s in
      let_through (complaint h.new_error r.0) (guarded hs hooks call log) log r.1

-- What a hook raises is an ordinary error.
abbrev IsPlain : {S : Type 0} → Outcome Bool × S → Type 0
IsPlain (returned b, s) = Unit {0}
IsPlain (raised e, s) = is_exception e.kind ≡ true

abbrev pub IsObserver : {A S : Type 0} → Hook A S → Type 0
IsObserver {A} {S} h = (a : A) (s : S) → IsPlain (h.run a s)

-- Every observing hook raises ordinary errors at most.
abbrev pub AreObservers : {R S : Type 0} → Hooks R S → Type 0
AreObservers hooks =
    All IsObserver hooks.success × (All IsObserver hooks.failure × All IsObserver hooks.complete)

module _ {S : Type 0} where
  on_observed-notify :
      (continue : Logged S → Outcome (Unit {0}) × Logged S) (next : Logged S → Logged S)
      (new_error : ℕ) (log : List Exc) (o : Outcome Bool × S)
      → IsPlain o
      → ((s : Logged S) → continue s ≡ (returned tt, next s))
      → on_observed continue log (reject_awaitable new_error o)
        ≡ (returned tt, next (noted (complaint new_error o.0) log, o.1))
  on_observed-notify continue next new_error log (returned true, s) plain h =
      h (type_error_of new_error ∷ log, s)
  on_observed-notify continue next new_error log (returned false, s) plain h = h (log, s)
  on_observed-notify continue next new_error log (raised e, s) plain h =
      rw (plain, on_observed) (h (e ∷ log, s))

  observe-notify :
      {A : Type 0}
      → (hs : List (Hook A S)) (a : A) (s : Logged S) → All IsObserver hs
      → observe hs a s ≡ (returned tt, notify hs a s)
  unfolding observe notify
  observe-notify [] a s h = refl
  observe-notify (hook ∷ hs) a s h =
      on_observed-notify (observe hs a) (notify hs a) hook.new_error s.0 (hook.run a s.1)
        (h.0 a s.1) (λ t. observe-notify hs a t h.1)

  on_outcome-concluded :
      {R : Type 0}
      → (hooks : Hooks R S) (log : List Exc) (o : Outcome R × S) → AreObservers hooks
      → on_outcome hooks log o ≡ concluded hooks log o
  on_outcome-concluded hooks log (returned reply, s) h =
      rw (observe-notify hooks.success reply (log, s) h.0)
        (rw (observe-notify hooks.complete none (notify hooks.success reply (log, s)) h.1.1) refl)
  on_outcome-concluded hooks log (raised e, s) h = elim (Bool-cases (is_exception e.kind)) [
    | inl ordinary ↦
        rw (ordinary, on_outcome)
          (rw (observe-notify hooks.failure e (log, s) h.1.0) (
            rw (observe-notify hooks.complete (some e) (notify hooks.failure e (log, s)) h.1.1)
              refl))
    | inr other ↦
        rw (other, on_outcome) (rw (observe-notify hooks.complete (some e) (log, s) h.1.1) refl)
  ]

  on_before-guarded :
      {R : Type 0}
      → (continue : Logged S → Outcome R × Logged S) (next : S → Outcome R × Logged S)
        (new_error : ℕ) (log : List Exc) (o : Outcome Bool × S)
      → ((s : S) → continue (log, s) ≡ next s)
      → on_before continue log (reject_awaitable new_error o)
        ≡ let_through (complaint new_error o.0) next log o.1
  on_before-guarded continue next new_error log (returned true, s) h = refl
  on_before-guarded continue next new_error log (returned false, s) h = h s
  on_before-guarded continue next new_error log (raised e, s) h = refl

  run_before-guarded :
      {R : Type 0}
      → (hs : List (Hook (Unit {0}) S)) (hooks : Hooks R S) (call : S → Outcome R × S)
        (log : List Exc) (s : S)
      → AreObservers hooks
      → run_before hs (λ t. on_outcome hooks t.0 (call t.1)) (log, s) ≡ guarded hs hooks call log s
  unfolding run_before guarded
  run_before-guarded [] hooks call log s h = on_outcome-concluded hooks log (call s) h
  run_before-guarded (hook ∷ hs) hooks call log s h =
      on_before-guarded (run_before hs (λ t. on_outcome hooks t.0 (call t.1)))
        (guarded hs hooks call log) hook.new_error log (hook.run tt s)
        (λ t. run_before-guarded hs hooks call log t h)

-- Where the observing hooks raise ordinary errors at most, the `before` hooks run in order up to
-- the first that raises or returns an awaitable: that error is raised, and nothing is called after
-- it. Without one the call runs, and its reply or error stands; then run all the hooks for a reply,
-- or for an ordinary error, and then all those for every end, whatever the others raise, which is
-- logged. What the hooks and the call do to the state is exactly that.
pub run_hooks-guarded :
    {R S : Type 0}
    → (hooks : Hooks R S) (call : S → Outcome R × S) (log : List Exc) (s : S) → AreObservers hooks
    → run_hooks hooks call (log, s) ≡ guarded hooks.before hooks call log s
unfolding run_hooks
run_hooks-guarded hooks call log s h = run_before-guarded hooks.before hooks call log s h
