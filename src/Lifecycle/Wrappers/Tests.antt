-- ===== src/Lifecycle/Wrappers/Tests.antt =====
-- Runs of two threads that call the same cached functions.
use stratae.Prelude.{ℕ, ◌≤◌, true, List, [], ◌∷◌, ◌≡◌, refl, ◌⊎◌, ◌++◌, length, arith}
use stratae.Lifecycle.Inflight.{watch_thread_claim, watch, release}
use stratae.Lifecycle.Wrappers.{
  value, activation_ended, emptied, computing, calls, returns, advances, perform, Event, acts, ends,
  run, initial, look, claim, wake, store, unclaim, advance, return_value, call,
}
use stratae.Lifecycle.Wrappers.Counting.{holding}
use stratae.Lifecycle.Wrappers.Invariant.{AreResults}
use stratae.Lifecycle.Wrappers.Once.{run-exclusive, run-once}
use stratae.Lifecycle.Wrappers.Waiting.{IsAwaited, IsChecked, run-IsAwaited, run-cycle}

-- Thread 1 computes entry 5, and thread 2 waits for it.
abbrev contended : List (Event ℕ)
contended =
    acts 1 (calls 5)
    ∷ acts 1 advances
    ∷ acts 1 advances
    ∷ acts 2 (calls 5)
    ∷ acts 2 advances
    ∷ acts 2 advances
    ∷ []

-- Then thread 1's function returns 7, and both calls finish.
abbrev settled : List (Event ℕ)
settled =
    acts 1 (calls 5)
    ∷ acts 1 advances
    ∷ acts 1 advances
    ∷ acts 2 (calls 5)
    ∷ acts 2 advances
    ∷ acts 2 advances
    ∷ acts 1 (returns 7)
    ∷ acts 1 advances
    ∷ acts 1 advances
    ∷ acts 2 advances
    ∷ acts 2 advances
    ∷ []

-- Thread 1's function for entry 5 calls itself for entry 5.
abbrev cyclic : List (Event ℕ)
cyclic =
    acts 1 (calls 5) ∷ acts 1 advances ∷ acts 1 advances ∷ acts 1 (calls 5) ∷ acts 1 advances ∷ []

both_finish :
    (run settled initial).shared.finished
    ≡ record { by = 2; entry = 5; result = value 7 }
      ∷ record { by = 1; entry = 5; result = value 7 }
      ∷ []
unfolding run look claim wake store unclaim advance return_value call watch_thread_claim watch
    release
both_finish = refl

-- A waiter whose activation ends in the meantime raises.
ended_in_between :
    (run
      (contended
        ++ ends ∷ acts 1 (returns 7) ∷ acts 1 advances ∷ acts 1 advances ∷ acts 2 advances ∷ [])
      initial).shared.finished
    ≡ record { by = 2; entry = 5; result = activation_ended }
      ∷ record { by = 1; entry = 5; result = value 7 }
      ∷ []
unfolding run look claim wake store unclaim advance return_value call watch_thread_claim watch
    release
ended_in_between = refl

-- An activation that ends after a call's first read and before the second shows as the error of the
-- emptied storage.
abbrev ended_early : List (Event ℕ)
ended_early = acts 1 (calls 5) ∷ acts 1 advances ∷ ends ∷ acts 1 advances ∷ []

ended_before_claim :
    (run ended_early initial).shared.finished ≡ record { by = 1; entry = 5; result = emptied } ∷ []
unfolding run look claim advance call
ended_before_claim = refl

run-exclusive_example : (◌≡◌ {A = ℕ} 1 1) × (holding 5 ((run contended initial).stacks 1) ≡ 1)
unfolding run look claim advance call watch_thread_claim watch
run-exclusive_example = run-exclusive contended 5 1 1 (omega arith) (omega arith)

run-once_example :
    ((k : ℕ) → length ((run settled initial).shared.computed k) ≤ 1)
    × AreResults (run settled initial).shared (run settled initial).shared.finished
run-once_example = run-once settled

run-IsAwaited_example :
    ((run contended initial).shared.set 0 ≡ true) ⊎ IsAwaited (run contended initial) 2 5 0
unfolding run look claim advance call watch_thread_claim watch
run-IsAwaited_example = run-IsAwaited contended 2 5 0 [] refl

run-cycle_example :
    IsChecked 1 5
      (computing 5 ∷ [])
      (run cyclic initial).shared
      (perform 1 advances (run cyclic initial).shared ((run cyclic initial).stacks 1))
unfolding run look claim advance call watch_thread_claim watch
run-cycle_example = run-cycle cyclic 1 5 (computing 5 ∷ []) refl refl refl
