-- ===== src/Checks/Verdicts.antt =====
-- What runs of checks come to, by what each check does in turn.
use stratae.Prelude.{
  Bool, true, false, List, [], ◌∷◌, ◌++◌, ◌≡◌, refl, sym, ◌∙◌, ap, All, clash, if◌then◌else◌,
}
use mathlib.Core.List.{append_assoc, append-nil}
use stratae.Python.{Exc, is_exception, Outcome, returned, raised, errors, IsOrdinary}
use stratae.Checks.{
  Mode, all, gather, any, Check, Verdict, passed, failed, failures, raise_gathered, on_raised,
  on_passed, on_check_async, await_check, run_check, check_async_loop, check_async, on_check,
  check_loop, check,
}

module _ {S : Type 0} where
  -- What each check does if all of them run, one after another.
  unfoldable pub trace : List (Check S) → S → List (Outcome (Unit {0}))
  trace [] s = []
  trace (fn ∷ fns) s = let r = run_check fn s in r.0 ∷ trace fns r.1

-- Whether some check of a trace passed.
abbrev pub some_passed : List (Outcome (Unit {0})) → Bool
some_passed [] = false
some_passed (returned _ ∷ os) = true
some_passed (raised e ∷ os) = some_passed os

abbrev pub first_error : List Exc → Verdict
first_error [] = passed
first_error (e ∷ es) = failed e

-- Every error in one group, where there is any.
abbrev pub together : List Exc → Verdict
together [] = passed
together (e ∷ es) = failures (e ∷ es)

raise_gathered_lem : (es : List Exc) → raise_gathered es ≡ together es
raise_gathered_lem [] = refl
raise_gathered_lem (e ∷ es) = refl

-- What each mode promises of a trace.
abbrev pub verdict : Mode → List (Outcome (Unit {0})) → Verdict
verdict all os = first_error (errors os)
verdict gather os = together (errors os)
verdict any os = if some_passed os then passed else together (errors os)

-- Whether a call returned an awaitable.
abbrev pub is_awaitable : Outcome Bool → Bool
is_awaitable (returned b) = b
is_awaitable (raised e) = false

module _ {S : Type 0} where
  -- One round, by what it hands on to the rest of the loop.
  on_check_async-all :
      (continue : List Exc → S → Verdict × S) (o : Outcome (Unit {0}) × S)
      (os : List (Outcome (Unit {0})))
      → IsOrdinary o.0
      → (continue [] o.1).0 ≡ first_error (errors os)
      → (on_check_async continue all [] o).0 ≡ first_error (errors (o.0 ∷ os))
  on_check_async-all continue (returned _, s) os h k = k
  on_check_async-all continue (raised e, s) os h k = rw (h, on_check_async) refl

  on_check_async-gather :
      (continue : List Exc → S → Verdict × S) (exceptions : List Exc) (o : Outcome (Unit {0}) × S)
      (os : List (Outcome (Unit {0})))
      → IsOrdinary o.0
      → ((es : List Exc) → (continue es o.1).0 ≡ together (es ++ errors os))
      → (on_check_async continue gather exceptions o).0 ≡ together (exceptions ++ errors (o.0 ∷ os))
  on_check_async-gather continue exceptions (returned _, s) os h k = k exceptions
  on_check_async-gather continue exceptions (raised e, s) os h k =
      rw (h, on_check_async)
        (k (exceptions ++ e ∷ []) ∙ ap together (append_assoc exceptions (e ∷ []) (errors os)))

  on_check_async-any :
      (continue : List Exc → S → Verdict × S) (exceptions : List Exc) (o : Outcome (Unit {0}) × S)
      (os : List (Outcome (Unit {0})))
      → IsOrdinary o.0
      → ((es : List Exc)
          → (continue es o.1).0 ≡ (if some_passed os then passed else together (es ++ errors os)))
      → (on_check_async continue any exceptions o).0
        ≡ (if some_passed (o.0 ∷ os) then passed else together (exceptions ++ errors (o.0 ∷ os)))
  on_check_async-any continue exceptions (returned _, s) os h k = refl
  on_check_async-any continue exceptions (raised e, s) os h k =
      rw (h, on_check_async)
        (k (exceptions ++ e ∷ [])
          ∙ ap (λ es. if some_passed os then passed else together es)
              (append_assoc exceptions (e ∷ []) (errors os)))

  loop-all :
      (fns : List (Check S)) (s : S)
      → All IsOrdinary (trace fns s)
      → (check_async_loop all fns [] s).0 ≡ verdict all (trace fns s)
  unfolding check_async_loop trace
  loop-all [] s h = refl
  loop-all (fn ∷ fns) s h =
      on_check_async-all (check_async_loop all fns) (run_check fn s) (trace fns (run_check fn s).1)
        h.0 (loop-all fns (run_check fn s).1 h.1)

  loop-gather :
      (fns : List (Check S)) (exceptions : List Exc) (s : S)
      → All IsOrdinary (trace fns s)
      → (check_async_loop gather fns exceptions s).0 ≡ together (exceptions ++ errors (trace fns s))
  unfolding check_async_loop trace
  loop-gather [] exceptions s h =
      raise_gathered_lem exceptions ∙ ap together (sym (append-nil exceptions))
  loop-gather (fn ∷ fns) exceptions s h =
      on_check_async-gather (check_async_loop gather fns) exceptions (run_check fn s)
        (trace fns (run_check fn s).1) h.0 (λ es. loop-gather fns es (run_check fn s).1 h.1)

  loop-any :
      (fns : List (Check S)) (exceptions : List Exc) (s : S)
      → All IsOrdinary (trace fns s)
      → (check_async_loop any fns exceptions s).0 ≡ (
          if some_passed (trace fns s)
          then passed
          else together (exceptions ++ errors (trace fns s)))
  unfolding check_async_loop trace
  loop-any [] exceptions s h =
      raise_gathered_lem exceptions ∙ ap together (sym (append-nil exceptions))
  loop-any (fn ∷ fns) exceptions s h =
      on_check_async-any (check_async_loop any fns) exceptions (run_check fn s)
        (trace fns (run_check fn s).1) h.0 (λ es. loop-any fns es (run_check fn s).1 h.1)

  -- The call of this check never returns an awaitable.
  abbrev pub IsSyncCheck : Check S → Type 0
  IsSyncCheck fn = (s : S) → is_awaitable (fn.call s).0 ≡ false

  -- What both loops do with an error.
  on_raised-ext :
      (continue continue' : List Exc → S → Verdict × S) (mode : Mode) (exceptions : List Exc)
      (e : Exc) (ordinary : Bool) (s : S)
      → ((es : List Exc) (s : S) → continue es s ≡ continue' es s)
      → on_raised continue mode exceptions e ordinary s
        ≡ on_raised continue' mode exceptions e ordinary s
  on_raised-ext continue continue' mode exceptions e false s k = refl
  on_raised-ext continue continue' all exceptions e true s k = refl
  on_raised-ext continue continue' gather exceptions e true s k = k (exceptions ++ e ∷ []) s
  on_raised-ext continue continue' any exceptions e true s k = k (exceptions ++ e ∷ []) s

  on_passed-ext :
      (continue continue' : List Exc → S → Verdict × S) (mode : Mode) (exceptions : List Exc)
      (s : S)
      → ((es : List Exc) (s : S) → continue es s ≡ continue' es s)
      → on_passed continue mode exceptions s ≡ on_passed continue' mode exceptions s
  on_passed-ext continue continue' all exceptions s k = k exceptions s
  on_passed-ext continue continue' gather exceptions s k = k exceptions s
  on_passed-ext continue continue' any exceptions s k = refl

  on_check-async :
      (continue continue' : List Exc → S → Verdict × S) (mode : Mode) (fn : Check S)
      (exceptions : List Exc) (o : Outcome Bool × S)
      → is_awaitable o.0 ≡ false
      → ((es : List Exc) (s : S) → continue es s ≡ continue' es s)
      → on_check continue mode fn.new_error exceptions o
        ≡ on_check_async continue' mode exceptions (await_check fn.awaited o)
  on_check-async continue continue' mode fn exceptions (returned true, s) h k = clash refl h
  on_check-async continue continue' mode fn exceptions (returned false, s) h k =
      on_passed-ext continue continue' mode exceptions s k
  on_check-async continue continue' mode fn exceptions (raised e, s) h k =
      on_raised-ext continue continue' mode exceptions e (is_exception e.kind) s k

  loop-async :
      (mode : Mode) (fns : List (Check S)) (exceptions : List Exc) (s : S)
      → All IsSyncCheck fns
      → check_loop mode fns exceptions s ≡ check_async_loop mode fns exceptions s
  unfolding check_loop check_async_loop
  loop-async mode [] exceptions s h = refl
  loop-async mode (fn ∷ fns) exceptions s h =
      on_check-async (check_loop mode fns) (check_async_loop mode fns) mode fn exceptions
        (fn.call s) (h.0 s) (λ es t. loop-async mode fns es t h.1)

  -- Where no check is interrupted, an asynchronous run of checks comes to what its mode promises
  -- of the outcomes that the checks have if they all run in order: `all` raises the first error,
  -- `gather` raises all errors together, and `any` passes if some check passed and else raises all
  -- errors; where there is no error to raise it passes.
  pub check_async-verdict :
      (mode : Mode) (fns : List (Check S)) (s : S)
      → All IsOrdinary (trace fns s)
      → (check_async mode fns s).0 ≡ verdict mode (trace fns s)
  unfolding check_async
  check_async-verdict all fns s h = loop-all fns s h
  check_async-verdict gather fns s h = loop-gather fns [] s h
  check_async-verdict any fns s h = loop-any fns [] s h

  -- On checks whose calls never return an awaitable, `check` and `check_async` do the same, in
  -- every mode: the same verdict and the same state, interrupts and skipped checks included.
  pub check-async :
      (mode : Mode) (fns : List (Check S)) (s : S)
      → All IsSyncCheck fns
      → check mode fns s ≡ check_async mode fns s
  unfolding check check_async
  check-async mode fns s h = loop-async mode fns [] s h
