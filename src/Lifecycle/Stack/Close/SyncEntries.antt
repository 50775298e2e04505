-- ===== src/Lifecycle/Stack/Close/SyncEntries.antt =====
-- `aclose` against `close`, on the entries of a scope that awaits nothing.
use mathlib.Core.List.{reverse, reverse-cons}
use stratae.Prelude.{Bool, true, false, Option, none, List, [], ◌∷◌, ◌≡◌, refl, All, All-append}
use stratae.Python.{Exc}
use stratae.Lifecycle.Stack.Exit.{Resource, Contexts, exit_sync, exit_entry}
use stratae.Lifecycle.Stack.Close.{outcome_of, close_step, close_loop, close, aclose}

abbrev pub IsSync : Bool × Resource → Type 0
IsSync c = c.0 ≡ false

All-reverse : (cs : Contexts) → All IsSync cs → All IsSync (reverse cs)
All-reverse [] h = h
All-reverse (c ∷ cs) h =
    rw (reverse-cons c cs) (All-append IsSync (reverse cs) (c ∷ []) (All-reverse cs h.1) (h.0, tt))

exit_entry-IsSync :
    (c : Bool × Resource) (exc : Option Exc) → IsSync c → exit_entry c exc ≡ exit_sync c.1 exc
unfolding exit_entry
exit_entry-IsSync (false, r) exc h = refl
exit_entry-IsSync (true, r) exc h = cc

loop_sync :
    (cs : Contexts) (s : Option (List Exc) × Option Exc)
    → All IsSync cs
    → close_loop exit_entry cs s ≡ close_loop (λ c. exit_sync c.1) cs s
unfolding close_loop
loop_sync [] s h = refl
loop_sync (c ∷ cs) s h =
    rw (exit_entry-IsSync c s.1 h.0)
      (loop_sync cs (close_step s (outcome_of (exit_sync c.1 s.1) s.1)) h.1)

-- With no entry whose exit is awaited, an asynchronous close does what a synchronous one does.
pub aclose-eq-close :
    (contexts : Contexts) (exc : Option Exc)
    → All IsSync contexts
    → aclose contexts exc ≡ close contexts exc
unfolding aclose close
aclose-eq-close contexts exc h =
    rw (loop_sync (reverse contexts) (none, exc) (All-reverse contexts h))
