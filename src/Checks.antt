-- ===== src/Checks.antt =====
-- stratae/checks.py: `_settle`, `_raise_gathered`, `check`, `check_async`, `any_of`, `all_of` and
-- the wrappers of `require`. A check is the application's: it may raise, and acts on a state `S`.
pub mod Verdicts
mod Tests
use stratae.Prelude.{ℕ, Bool, true, false, List, [], ◌∷◌, ◌++◌, none}
use stratae.Python.{Exc, Kind, is_exception, type_error, exception, Outcome, returned, raised}

-- `CheckMode`
pub data Mode : Type 0 where
  all gather any : Mode

-- A check: what calling it, and awaiting what it returns, does. `awaitable` tells whether a call
-- that returns gives an awaitable, and `awaited` what awaiting that comes to. `new_error` is the
-- identity of the error that is raised about the check, or in its place.
pub record Check (S : Type 0) : Type 0 where
  pub call : S → Outcome Bool × S
  pub awaited : S → Outcome (Unit {0}) × S
  pub new_error : ℕ

-- What a run of checks comes to: it returns, raises an error as it is, or raises `CheckFailures`.
pub data Verdict : Type 0 where
  passed : Verdict
  failed : Exc → Verdict
  failures : List Exc → Verdict

-- `_raise_gathered`
abbrev pub raise_gathered : List Exc → Verdict
raise_gathered [] = passed
raise_gathered (e ∷ es) = failures (e ∷ es)

-- `AwaitableCheckError`
abbrev pub awaitable_error : ℕ → Exc
awaitable_error new_error = record { id = new_error; kind = type_error; cause = none }

-- A verdict as the outcome of one check, with the identity of its group.
abbrev pub as_call : ℕ → Verdict → Outcome Bool
as_call group_id passed = returned false
as_call group_id (failed e) = raised e
as_call group_id (failures es) = raised (record { id = group_id; kind = exception; cause = none })

module _ {S : Type 0} where
  -- `_settle`, and the rest of the loop after it.
  abbrev pub settle_check : (List Exc → S → Verdict × S) → Mode → List Exc → Exc → S → Verdict × S
  settle_check continue all exceptions e s = (failed e, s)
  settle_check continue gather exceptions e s = continue (exceptions ++ e ∷ []) s
  settle_check continue any exceptions e s = continue (exceptions ++ e ∷ []) s

  abbrev pub on_raised :
      (List Exc → S → Verdict × S) → Mode → List Exc → Exc → Bool → S → Verdict × S
  on_raised continue mode exceptions e true s = settle_check continue mode exceptions e s
  on_raised continue mode exceptions e false s = (failed e, s)

  -- A check that passed.
  abbrev pub on_passed : (List Exc → S → Verdict × S) → Mode → List Exc → S → Verdict × S
  on_passed continue any exceptions s = (passed, s)
  on_passed continue all exceptions s = continue exceptions s
  on_passed continue gather exceptions s = continue exceptions s

  abbrev pub on_check :
      (List Exc → S → Verdict × S) → Mode → ℕ → List Exc → Outcome Bool × S → Verdict × S
  on_check continue mode new_error exceptions (raised e, s) =
      on_raised continue mode exceptions e (is_exception e.kind) s
  on_check continue mode new_error exceptions (returned true, s) =
      (failed (awaitable_error new_error), s)
  on_check continue mode new_error exceptions (returned false, s) =
      on_passed continue mode exceptions s

  -- The loop of `check`.
  unfoldable pub check_loop : Mode → List (Check S) → List Exc → S → Verdict × S
  check_loop mode [] exceptions s = (raise_gathered exceptions, s)
  check_loop mode (fn ∷ fns) exceptions s =
      on_check (check_loop mode fns) mode fn.new_error exceptions (fn.call s)

  -- `check`
  unfoldable pub check : Mode → List (Check S) → S → Verdict × S
  check mode fns s = check_loop mode fns [] s

  -- `result = fn()`, awaited if it is awaitable.
  abbrev pub await_check : (S → Outcome (Unit {0}) × S) → Outcome Bool × S → Outcome (Unit {0}) × S
  await_check awaited (raised e, s) = (raised e, s)
  await_check awaited (returned true, s) = awaited s
  await_check awaited (returned false, s) = (returned tt, s)

  abbrev pub run_check : Check S → S → Outcome (Unit {0}) × S
  run_check fn s = await_check fn.awaited (fn.call s)

  abbrev pub on_check_async :
      (List Exc → S → Verdict × S) → Mode → List Exc → Outcome (Unit {0}) × S → Verdict × S
  on_check_async continue mode exceptions (raised e, s) =
      on_raised continue mode exceptions e (is_exception e.kind) s
  on_check_async continue mode exceptions (returned _, s) = on_passed continue mode exceptions s

  -- The loop of `check_async`.
  unfoldable pub check_async_loop : Mode → List (Check S) → List Exc → S → Verdict × S
  check_async_loop mode [] exceptions s = (raise_gathered exceptions, s)
  check_async_loop mode (fn ∷ fns) exceptions s =
      on_check_async (check_async_loop mode fns) mode exceptions (run_check fn s)

  -- `check_async`
  unfoldable pub check_async : Mode → List (Check S) → S → Verdict × S
  check_async mode fns s = check_async_loop mode fns [] s

  abbrev pub grouped : Mode → ℕ → List (Check S) → Check S
  grouped mode group_id fns = record {
    call = λ s. (let r = check mode fns s in (as_call group_id r.0, r.1));
    awaited = λ s. (returned tt, s);
    new_error = group_id;
  }

  -- `any_of` of sync checks.
  unfoldable pub any_of : ℕ → List (Check S) → Check S
  any_of group_id fns = grouped any group_id fns

  -- `all_of` of sync checks.
  unfoldable pub all_of : ℕ → List (Check S) → Check S
  all_of group_id fns = grouped all group_id fns

  abbrev pub after_checks : {R : Type 0} → ℕ → (S → Outcome R × S) → Verdict × S → Outcome R × S
  after_checks group_id fn (passed, s) = fn s
  after_checks group_id fn (failed e, s) = (raised e, s)
  after_checks group_id fn (failures es, s) =
      (raised (record { id = group_id; kind = exception; cause = none }), s)

  -- `require` around a sync function whose checks are sync, with no check the function itself.
  unfoldable pub require :
      {R : Type 0} → Mode → ℕ → List (Check S) → (S → Outcome R × S) → S → Outcome R × S
  require mode group_id [] fn s = fn s
  require mode group_id (c ∷ cs) fn s = after_checks group_id fn (check mode (c ∷ cs) s)

  -- `require` around an async function.
  unfoldable pub require_async :
      {R : Type 0} → Mode → ℕ → List (Check S) → (S → Outcome R × S) → S → Outcome R × S
  require_async mode group_id [] fn s = fn s
  require_async mode group_id (c ∷ cs) fn s = after_checks group_id fn (check_async mode (c ∷ cs) s)
