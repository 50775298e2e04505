-- ===== src/Lifecycle/Stack/Close/Groups.antt =====
-- The groups that `close` and `aclose` raise.
use mathlib.Core.List.{reverse, reverse-cons}
use stratae.Prelude.{
  Bool, true, false, Option, none, some, List, [], ◌∷◌, ◌++◌, ltb, length, keep-all, length-append,
  keep, ◌≡◌, refl, inl, inr, arith, Bool-cases, ◌≤◌, ◌<◌, ltb→lt, All,
}
use stratae.Python.{Exc, is_exception, is_same, any_same, Outcome}
use stratae.Lifecycle.Stack.Exit.{Contexts, exit_sync, exit_entry}
use stratae.Lifecycle.Stack.Close.{
  Closed, finished, reraised, cleanup_errors, base_cleanup_errors, record_exit, group, settle,
  outcome_of, close_step, close_loop, finish, close, aclose,
}

-- No exception object twice.
abbrev pub Distinct : List Exc → Type 0
Distinct [] = Unit
Distinct (e ∷ es) = (any_same e es ≡ false) × Distinct es

any_same-append :
    (e f : Exc) (es : List Exc)
    → any_same e es ≡ false
    → is_same e f ≡ false
    → any_same e (es ++ f ∷ []) ≡ false
any_same-append e f [] h n = ground arith
any_same-append e f (d ∷ es) h n = ground (arith, any_same-append e f es)

Distinct-append_last :
    (f : Exc) (es : List Exc) → Distinct es → any_same f es ≡ false → Distinct (es ++ f ∷ [])
Distinct-append_last f [] h n = (refl, tt)
Distinct-append_last f (e ∷ es) h n =
    (any_same-append e f es h.0 (ground arith), Distinct-append_last f es h.1 (ground arith))

any_same-reverse-false :
    (e : Exc) (es : List Exc) → any_same e es ≡ false → any_same e (reverse es) ≡ false
any_same-reverse-false e [] h = h
any_same-reverse-false e (f ∷ es) h =
    rw (reverse-cons f es)
      (any_same-append e f (reverse es) (any_same-reverse-false e es (ground arith)) (ground arith))

Distinct-reverse : (es : List Exc) → Distinct es → Distinct (reverse es)
Distinct-reverse [] h = h
Distinct-reverse (e ∷ es) h = rw (reverse-cons e es) (
    Distinct-append_last e (reverse es) (Distinct-reverse es h.1) (any_same-reverse-false e es h.0))

abbrev IsDistinct : Option (List Exc) × Option Exc → Type 0
IsDistinct (none, exc) = Unit
IsDistinct (some pending, exc) = Distinct pending

close_step-IsDistinct :
    (pending : Option (List Exc)) (exc outcome : Option Exc)
    → IsDistinct (pending, exc)
    → IsDistinct (close_step (pending, exc) outcome)
unfolding close_step record_exit
close_step-IsDistinct none none none h = h
close_step-IsDistinct none none (some f) h = (refl, tt)
close_step-IsDistinct none (some e) none h = tt
close_step-IsDistinct none (some e) (some f) h = ground arith
close_step-IsDistinct (some pending) exc none h = ground arith
close_step-IsDistinct (some pending) none (some f) h =
    ground (arith, Distinct-append_last f pending h)
close_step-IsDistinct (some pending) (some e) (some f) h =
    ground (arith, Distinct-append_last f pending h)

-- What is raised when more than one exception is: a group of two or more different objects,
-- which is a `CleanupErrors` only of `Exception`s.
abbrev pub IsGrouped : Closed → Type 0
IsGrouped (finished suppressed) = Unit
IsGrouped (reraised e) = Unit
IsGrouped (cleanup_errors es) =
    (2 ≤ length es) × Distinct es × All (λ e. is_exception e.kind ≡ true) es
IsGrouped (base_cleanup_errors es) =
    (2 ≤ length es) × Distinct es × (length (keep (λ e. is_exception e.kind) es) < length es)

All-keep :
    (es : List Exc) → All (λ e. is_exception e.kind ≡ true) (keep (λ e. is_exception e.kind) es)
All-keep [] = tt
All-keep (e ∷ es) = elim (Bool-cases (is_exception e.kind)) [
  | inl h ↦ rw h (h, All-keep es)
  | inr h ↦ rw h (All-keep es)
]

length-reverse : (es : List Exc) → length (reverse es) ≡ length es
length-reverse [] = refl
length-reverse (e ∷ es) =
    rw (reverse-cons e es) (omega (arith, length-append (reverse es) (e ∷ []), length-reverse es))

group-IsGrouped : (es : List Exc) → 2 ≤ length es → Distinct es → IsGrouped (group es)
group-IsGrouped es size distinct =
    elim (Bool-cases (ltb (length (keep (λ e. is_exception e.kind) es)) (length es))) [
      | inl mixed ↦ rw mixed (size, distinct, ltb→lt _ _ mixed)
      | inr plain ↦ rw plain (whole plain)
    ]
  where
    whole :
        ltb (length (keep (λ e. is_exception e.kind) es)) (length es) ≡ false
        → IsGrouped (cleanup_errors (keep (λ e. is_exception e.kind) es))
    whole plain =
        let e : keep (λ e. is_exception e.kind) es ≡ es = keep-all _ es plain in
        (rw e size, rw e distinct, All-keep es)

settle-IsGrouped :
    (pending : List Exc) (received : Option Exc)
    → Distinct pending
    → IsGrouped (settle pending received)
unfolding settle
settle-IsGrouped [] received h = tt
settle-IsGrouped (e ∷ []) received h = tt
settle-IsGrouped (e ∷ f ∷ es) received h =
    group-IsGrouped (reverse (e ∷ f ∷ es)) (omega (arith, length-reverse (e ∷ f ∷ es)))
      (Distinct-reverse (e ∷ f ∷ es) h)

finish-IsGrouped :
    (pending : Option (List Exc)) (exc received : Option Exc)
    → IsDistinct (pending, exc)
    → IsGrouped (finish pending received)
finish-IsGrouped none exc received h = tt
finish-IsGrouped (some pending) exc received h = settle-IsGrouped pending received h

module _ {E : Type 0} (exit : E → Option Exc → Outcome Bool) where
  loop-IsDistinct :
      (cs : List E) (s : Option (List Exc) × Option Exc)
      → IsDistinct s
      → IsDistinct (close_loop exit cs s)
  unfolding close_loop
  loop-IsDistinct [] s h = h
  loop-IsDistinct (c ∷ cs) s h =
      loop-IsDistinct cs (close_step s (outcome_of (exit c s.1) s.1))
        (close_step-IsDistinct s.0 s.1 (outcome_of (exit c s.1) s.1) h)

  loop-IsGrouped :
      (cs : List E) (exc : Option Exc) → IsGrouped (finish (close_loop exit cs (none, exc)).0 exc)
  loop-IsGrouped cs exc =
      finish-IsGrouped (close_loop exit cs (none, exc)).0 (close_loop exit cs (none, exc)).1 exc
        (loop-IsDistinct cs (none, exc) tt)

-- A close, synchronous or not, groups only two or more exceptions, no object twice; the group is
-- of `Exception`s alone when it is a `CleanupErrors`, and holds something else when it is not.
pub close-IsGrouped :
    (contexts : Contexts) (exc : Option Exc)
    → IsGrouped (close contexts exc) × IsGrouped (aclose contexts exc)
unfolding close aclose
close-IsGrouped contexts exc = (
  loop-IsGrouped (λ c. exit_sync c.1) (reverse contexts) exc,
  loop-IsGrouped exit_entry (reverse contexts) exc,
)
