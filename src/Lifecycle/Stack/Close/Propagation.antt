-- ===== src/Lifecycle/Stack/Close/Propagation.antt =====
-- `close` and `aclose` against nested `with` blocks: which exception leaves, and which are carried.
use mathlib.Core.List.{reverse, reverse-cons}
use stratae.Prelude.{
  Bool, true, false, Option, none, some, List, [], ◌∷◌, ◌++◌, ltb, length, keep-all, keep, ◌≡◌,
  refl, sym, ◌⊎◌, inl, inr, if◌then◌else◌, arith, Bool-cases,
}
use stratae.Python.{Exc, is_exception, is_same, is_same?, any_same, Outcome}
use stratae.Lifecycle.Stack.Exit.{Contexts, exit_sync, exit_entry}
use stratae.Lifecycle.Stack.Close.{
  Closed, finished, reraised, cleanup_errors, base_cleanup_errors, record_exit, is_some, group,
  settle, outcome_of, close_step, close_loop, finish, close, aclose,
}

-- An exit that hands back the same object leaves that object propagating.
abbrev pub same_or : Option Exc → Option Exc → Option Exc
same_or exc outcome = if is_same? outcome exc then exc else outcome

-- Nested `with` blocks: each exit is handed what the one inside it let out.
module _ {E : Type 0} (exit : E → Option Exc → Outcome Bool) where
  unfoldable pub propagate : List E → Option Exc → Option Exc
  propagate [] exc = exc
  propagate (c ∷ cs) exc = propagate cs (same_or exc (outcome_of (exit c exc) exc))

-- The loop's invariant, for the exception that the caller passed.
abbrev IsTracked : Option Exc → Option (List Exc) × Option Exc → Type 0
IsTracked received (none, exc) = exc ≡ received
IsTracked received (some pending, none) = pending ≡ []
IsTracked received (some pending, some e) = any_same e pending ≡ true

any_same-append_last : (e : Exc) (es : List Exc) → any_same e (es ++ e ∷ []) ≡ true
any_same-append_last e [] = ground arith
any_same-append_last e (f ∷ es) = ground (arith, any_same-append_last e es)

any_same-append_left :
    (e : Exc) (es fs : List Exc) → any_same e es ≡ true → any_same e (es ++ fs) ≡ true
any_same-append_left e [] fs h = cc
any_same-append_left e (f ∷ es) fs h = ground (arith, any_same-append_left e es fs)

any_same-append_right :
    (e : Exc) (es fs : List Exc) → any_same e fs ≡ true → any_same e (es ++ fs) ≡ true
any_same-append_right e [] fs h = h
any_same-append_right e (f ∷ es) fs h = ground (arith, any_same-append_right e es fs)

close_step-IsTracked :
    (received : Option Exc) (pending : Option (List Exc)) (exc outcome : Option Exc)
    → IsTracked received (pending, exc)
    → IsTracked received (close_step (pending, exc) outcome)
unfolding close_step record_exit
close_step-IsTracked received none none none h = h
close_step-IsTracked received none none (some f) h = ground arith
close_step-IsTracked received none (some e) none h = refl
close_step-IsTracked received none (some e) (some f) h = ground arith
close_step-IsTracked received (some pending) none none h = h
close_step-IsTracked received (some pending) none (some f) h =
    ground (arith, any_same-append_last f pending)
close_step-IsTracked received (some pending) (some e) none h = refl
close_step-IsTracked received (some pending) (some e) (some f) h =
    ground (arith, any_same-append_last f pending)

close_step-exc :
    (s : Option (List Exc) × Option Exc) (outcome : Option Exc)
    → (close_step s outcome).1 ≡ same_or s.1 outcome
unfolding close_step
close_step-exc s outcome = ground arith

module _ {E : Type 0} (exit : E → Option Exc → Outcome Bool) where
  loop-IsTracked :
      (received : Option Exc) (cs : List E) (s : Option (List Exc) × Option Exc)
      → IsTracked received s
      → IsTracked received (close_loop exit cs s)
  unfolding close_loop
  loop-IsTracked received [] s h = h
  loop-IsTracked received (c ∷ cs) s h =
      loop-IsTracked received cs (close_step s (outcome_of (exit c s.1) s.1))
        (close_step-IsTracked received s.0 s.1 (outcome_of (exit c s.1) s.1) h)

  loop-propagate :
      (cs : List E) (s : Option (List Exc) × Option Exc)
      → (close_loop exit cs s).1 ≡ propagate exit cs s.1
  unfolding close_loop propagate
  loop-propagate [] s = refl
  loop-propagate (c ∷ cs) s =
      rw (loop-propagate cs (close_step s (outcome_of (exit c s.1) s.1)))
        (rw (close_step-exc s (outcome_of (exit c s.1) s.1)))

-- The exceptions that a close lets out, by itself or in a group.
abbrev pub carried : Closed → List Exc
carried (finished suppressed) = []
carried (reraised e) = e ∷ []
carried (cleanup_errors es) = es
carried (base_cleanup_errors es) = es

-- What a close must do when `final` is what leaves the nested blocks: with nothing left, report
-- whether there was something to suppress; with the caller's own exception left, report that it
-- was not suppressed; otherwise raise, with `final` among what is raised.
abbrev pub Propagates : Option Exc → Option Exc → Closed → Type 0
Propagates received none r = r ≡ finished (is_some received)
Propagates received (some f) r =
    ((r ≡ finished false) × (received ≡ some f)) ⊎ (any_same f (carried r) ≡ true)

any_same-reverse : (e : Exc) (es : List Exc) → any_same e es ≡ true → any_same e (reverse es) ≡ true
any_same-reverse e [] h = h
any_same-reverse e (f ∷ es) h = rw (reverse-cons f es) (elim (Bool-cases (is_same e f)) [
  | inl same ↦ any_same-append_right e (reverse es) (f ∷ []) (ground arith)
  | inr other ↦ any_same-append_left e (reverse es) (f ∷ []) (any_same-reverse e es (rw other at h))
])

-- A group carries every failure.
carried-group : (es : List Exc) → carried (group es) ≡ es
carried-group es =
    elim (Bool-cases (ltb (length (keep (λ e. is_exception e.kind) es)) (length es))) [
      | inl mixed ↦ rw mixed
      | inr plain ↦ rw plain (keep-all (λ e. is_exception e.kind) es plain)
    ]

settle-Propagates :
    (received : Option Exc) (pending : List Exc) (final : Option Exc)
    → IsTracked received (some pending, final)
    → Propagates received final (settle pending received)
unfolding settle
settle-Propagates received pending none h = rw h
settle-Propagates received [] (some f) h = cc
settle-Propagates received (e ∷ []) (some f) h = inr h
settle-Propagates received (e ∷ d ∷ es) (some f) h =
    inr (rw (carried-group (reverse (e ∷ d ∷ es))) (any_same-reverse f (e ∷ d ∷ es) h))

finish-Propagates :
    (received : Option Exc) (pending : Option (List Exc)) (final : Option Exc)
    → IsTracked received (pending, final)
    → Propagates received final (finish pending received)
finish-Propagates received none none h = rw (sym h)
finish-Propagates received none (some f) h = inl (refl, sym h)
finish-Propagates received (some pending) final h = settle-Propagates received pending final h

module _ {E : Type 0} (exit : E → Option Exc → Outcome Bool) where
  loop-Propagates :
      (cs : List E) (exc : Option Exc)
      → Propagates exc (propagate exit cs exc) (finish (close_loop exit cs (none, exc)).0 exc)
  loop-Propagates cs exc = rw (← loop-propagate exit cs (none, exc)) (
      finish-Propagates exc (close_loop exit cs (none, exc)).0 (close_loop exit cs (none, exc)).1
        (loop-IsTracked exit exc cs (none, exc) refl))

-- Closing an activation's resources lets out what nested `with` blocks over them, last entered
-- innermost, let out: nothing (and then it reports whether there was an exception to suppress),
-- the caller's own exception (and then it reports that nothing was suppressed), or another one,
-- which is raised alone or in a group that holds it.
pub close-Propagates :
    (contexts : Contexts) (exc : Option Exc)
    → Propagates exc (propagate (λ c. exit_sync c.1) (reverse contexts) exc) (close contexts exc)
unfolding close
close-Propagates contexts exc = loop-Propagates (λ c. exit_sync c.1) (reverse contexts) exc

-- The same of an asynchronous close, which awaits the exits whose entry says so.
pub aclose-Propagates :
    (contexts : Contexts) (exc : Option Exc)
    → Propagates exc (propagate exit_entry (reverse contexts) exc) (aclose contexts exc)
unfolding aclose
aclose-Propagates contexts exc = loop-Propagates exit_entry (reverse contexts) exc
