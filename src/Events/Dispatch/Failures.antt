-- ===== src/Events/Dispatch/Failures.antt =====
-- Which failures of handlers the dispatchers raise, and how.
use mathlib.Core.List.{append_assoc, append-nil}
use stratae.Prelude.{
  Bool, true, List, [], ◌∷◌, ◌++◌, ltb, length, keep, ◌≡◌, refl, sym, ◌∙◌, ap, All, keep-all, inl,
  inr, ◌⊎◌, Bool-cases, arith, All-keep, ltb→lt, subst,
}
use stratae.Python.{Exc, is_exception, Outcome, returned, raised, errors, IsOrdinary}
use stratae.Events.Dispatch.{
  Dispatched, replied, handler_errors, base_handler_errors, raise_errors, on_handler, fan_out_loop,
  fan_out, fan_out_async,
}

-- Every error in one group, where there is any.
abbrev pub together : List Exc → Dispatched (Unit {0})
together [] = replied tt
together (e ∷ es) = handler_errors (e ∷ es)

raise_errors_lem : (es : List Exc) → raise_errors es ≡ together es
raise_errors_lem [] = refl
raise_errors_lem (e ∷ es) = refl

module _ {A S : Type 0} where
  -- All handlers, one after another: what each does, and the state after the last.
  unfoldable pub run_all : List (S → Outcome A × S) → S → List (Outcome A) × S
  run_all [] s = ([], s)
  run_all (h ∷ hs) s = let r = h s in let rs = run_all hs r.1 in (r.0 ∷ rs.0, rs.1)

  on_handler-ordinary :
      (continue : List Exc → S → Dispatched (Unit {0}) × S) (exceptions : List Exc)
      (o : Outcome A × S) (os : List (Outcome A)) (t : S)
      → IsOrdinary o.0
      → ((es : List Exc) → continue es o.1 ≡ (together (es ++ errors os), t))
      → on_handler continue exceptions o ≡ (together (exceptions ++ errors (o.0 ∷ os)), t)
  on_handler-ordinary continue exceptions (returned a, s) os t h k = k exceptions
  on_handler-ordinary continue exceptions (raised e, s) os t h k =
      rw (h, on_handler)
        (k (exceptions ++ e ∷ [])
          ∙ ap (λ es. (together es, t)) (append_assoc exceptions (e ∷ []) (errors os)))

  loop-run_all :
      (handlers : List (S → Outcome A × S)) (exceptions : List Exc) (s : S)
      → All IsOrdinary (run_all handlers s).0
      → fan_out_loop handlers exceptions s
        ≡ (together (exceptions ++ errors (run_all handlers s).0), (run_all handlers s).1)
  unfolding fan_out_loop run_all
  loop-run_all [] exceptions s h =
      ap (λ v. (v, s)) (raise_errors_lem exceptions ∙ ap together (sym (append-nil exceptions)))
  loop-run_all (handler ∷ handlers) exceptions s h =
      on_handler-ordinary (fan_out_loop handlers) exceptions (handler s)
        (run_all handlers (handler s).1).0 (run_all handlers (handler s).1).1 h.0
        (λ es. loop-run_all handlers es (handler s).1 h.1)

  -- Where no handler is interrupted, a sync fan-out runs every handler once, in order, whatever
  -- the others raise, and then raises all their errors together in that order, or returns if
  -- there are none.
  pub fan_out-run_all :
      (handlers : List (S → Outcome A × S)) (s : S)
      → All IsOrdinary (run_all handlers s).0
      → fan_out handlers s ≡ (together (errors (run_all handlers s).0), (run_all handlers s).1)
  unfolding fan_out
  fan_out-run_all handlers s h = loop-run_all handlers [] s h

-- Every failure is an ordinary error.
abbrev pub ArePlain : List Exc → Type 0
ArePlain es = All (λ e. is_exception e.kind ≡ true) es

keep-plain : (es : List Exc) → ArePlain es → keep (λ e. is_exception e.kind) es ≡ es
keep-plain [] h = refl
keep-plain (e ∷ es) h = rw (h.0, keep) (ap (λ fs. e ∷ fs) (keep-plain es h.1))

-- What an asynchronous fan-out raises for its handlers' failures: nothing, the ordinary group, or
-- the base group, with every failure in it, in the handlers' order.
abbrev pub IsRaisedFor : List Exc → Dispatched (Unit {0}) → Type 0
IsRaisedFor es r =
    ((r ≡ together es) × ArePlain es) ⊎ ((r ≡ base_handler_errors es) × (ArePlain es → ⊥))

-- An asynchronous fan-out raises every failure of its handlers in one group, in the handlers'
-- order: the ordinary group if all of them are ordinary errors, the base group if one is not, and
-- nothing if none failed.
pub fan_out_async-IsRaisedFor :
    {A : Type 0}
    → (results : List (Outcome A)) → IsRaisedFor (errors results) (fan_out_async results)
unfolding fan_out_async
fan_out_async-IsRaisedFor results =
    let es = errors results in
    let p : Exc → Bool = λ e. is_exception e.kind in
    elim (Bool-cases (ltb (length (keep p es)) (length es))) [
      | inl mixed ↦ rw mixed (
          inr (
            refl,
            λ plain.
                (let short = ltb→lt (length (keep p es)) (length es) mixed in
                  let same = ap length (keep-plain es plain) in omega (arith, short, same)),
          ))
      | inr plain ↦
          let whole = keep-all p es plain in
          rw plain (
            inl (
              ap raise_errors whole ∙ raise_errors_lem es,
              subst (λ fs. ArePlain fs) whole (All-keep p es),
            ))
    ]
