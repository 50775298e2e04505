-- ===== src/Lifecycle/Stack/Close.antt =====
-- stratae/lifecycle/_stack.py: `_record`, `_seed`, `_settle`, `close` and `aclose`.
pub mod Propagation
pub mod Groups
pub mod SyncEntries
use mathlib.Core.List.{reverse}
use stratae.Prelude.{
  ℕ, Bool, true, false, Option, none, some, List, [], ◌∷◌, ◌++◌, ltb, length, keep, if◌then◌else◌,
}
use stratae.Python.{Exc, is_exception, is_same?, any_same, Outcome, returned, raised}
use stratae.Lifecycle.Stack.Exit.{Resource, Contexts, exit_sync, exit_entry}

-- What `close` does in the end: return whether it suppressed, re-raise, or raise a group.
pub data Closed : Type 0 where
  finished : Bool → Closed
  reraised : Exc → Closed
  cleanup_errors base_cleanup_errors : List Exc → Closed

-- `_seed`
abbrev pub seed : Option Exc → Exc → List Exc
seed none outcome = outcome ∷ []
seed (some current) outcome = current ∷ outcome ∷ []

-- `_record`
unfoldable pub record_exit : Option (List Exc) → Option Exc → Option Exc → List Exc
record_exit pending current none = []
record_exit none current (some outcome) = seed current outcome
record_exit (some pending) current (some outcome) =
    if any_same outcome pending then pending else pending ++ outcome ∷ []

abbrev is_some : Option Exc → Bool
is_some none = false
is_some (some e) = true

-- The end of `_settle`: which group class holds the failures.
abbrev pub group : List Exc → Closed
group failures =
    let errors = keep (λ e. is_exception e.kind) failures in
    if ltb (length errors) (length failures)
    then base_cleanup_errors failures
    else cleanup_errors errors

-- `_settle`
unfoldable pub settle : List Exc → Option Exc → Closed
settle [] received = finished (is_some received)
settle (e ∷ []) received = reraised e
settle (e ∷ f ∷ es) received = group (reverse (e ∷ f ∷ es))

-- The exception that propagates from an exit which was handed `exc`.
abbrev pub outcome_of : Outcome Bool → Option Exc → Option Exc
outcome_of (raised new_exc) exc = some new_exc
outcome_of (returned suppressed) exc = if suppressed then none else exc

-- One round of the loop, on `(pending, exc)`.
unfoldable pub close_step :
    Option (List Exc) × Option Exc → Option Exc → Option (List Exc) × Option Exc
close_step (pending, exc) outcome =
    if is_same? outcome exc
    then (pending, exc)
    else (some (record_exit pending exc outcome), outcome)

-- The loop, over the entries that are left, last entered first.
module _ {E : Type 0} (exit : E → Option Exc → Outcome Bool) where
  unfoldable pub close_loop :
      List E → Option (List Exc) × Option Exc → Option (List Exc) × Option Exc
  close_loop [] s = s
  close_loop (c ∷ cs) s = close_loop cs (close_step s (outcome_of (exit c s.1) s.1))

abbrev finish : Option (List Exc) → Option Exc → Closed
finish none received = finished false
finish (some pending) received = settle pending received

-- `close`: an entry's flag is ignored; a storage that is closed synchronously has no awaited entry,
-- as entering one needs an asynchronous activation.
unfoldable pub close : Contexts → Option Exc → Closed
close contexts exc = finish (close_loop (λ c. exit_sync c.1) (reverse contexts) (none, exc)).0 exc

-- `aclose`
unfoldable pub aclose : Contexts → Option Exc → Closed
aclose contexts exc = finish (close_loop exit_entry (reverse contexts) (none, exc)).0 exc
