-- ===== src/Lifecycle/Wrappers/Waiting.antt =====
-- Waiting for another thread's computation: who is waited for, and what ends the wait.
use stratae.Prelude.{
  ℕ, Bool, true, false, Option, none, some, List, [], ◌∷◌, ◌==◌, ◌≡◌, refl, sym, ◌∙◌, ◌⊎◌, inl, inr,
  arith, ==_refl, ap,
}
use stratae.Lifecycle.Inflight.{Claim, thread, pending, watch, watch_thread_claim, release_popped}
use stratae.Lifecycle.Wrappers.{
  Result, value, cache_cycle, Frame, looking, claiming, computing, waiting, storing, unclaiming,
  Shared, on_watch, on_recheck, stored, claim, store, unclaim, advance, return_value, Act, returns,
  advances, perform, System, Event, run, initial,
}
use stratae.Lifecycle.Wrappers.Counting.{one, holds, holding, owns}
use stratae.Lifecycle.Wrappers.Invariant.{IsWatched, AreFrames}
use stratae.Lifecycle.Wrappers.Finishing.{release_sets}
use stratae.Lifecycle.Wrappers.Once.{IsSound, run-IsSound}

-- What is left of a call that computes, when its function returns a value, or of what follows.
abbrev pub to_finish : {V : Type 0} → V → Frame V → List (Act V)
to_finish v (computing k) = returns v ∷ advances ∷ advances ∷ []
to_finish v (storing k w) = advances ∷ advances ∷ []
to_finish v (unclaiming k r) = advances ∷ []
to_finish v (looking k) = []
to_finish v (claiming k) = []
to_finish v (waiting k e) = []

watch_own : (me new : ℕ) (c : Claim) → owns me (some c) ≡ 1 → (watch_thread_claim me new c).1 ≡ none
unfolding watch_thread_claim watch
watch_own me new (thread t) h = ground arith
watch_own me new (pending t event) h = ground arith

watch_other :
    (me new : ℕ) (c : Claim)
    → owns me (some c) ≡ 0
    → (e : ℕ) × ((watch_thread_claim me new c).1 ≡ some e)
unfolding watch_thread_claim watch
watch_other me new (thread t) h = (new, ground arith)
watch_other me new (pending t none) h = (new, ground arith)
watch_other me new (pending t (some event)) h = (event, ground arith)

module _ {V : Type 0} where
  -- A thread makes some steps, with no others in between.
  unfoldable pub perform_all :
      ℕ → List (Act V) → Shared V → List (Frame V) → Shared V × List (Frame V)
  perform_all me [] s fs = (s, fs)
  perform_all me (a ∷ more) s fs = perform_all me more (perform me a s fs).0 (perform me a s fs).1

  unclaim_sets :
      (me k o e : ℕ) (r : Result V) (s : Shared V) (fs : List (Frame V))
      → s.claims k ≡ some (pending o (some e))
      → (unclaim me k r s fs).0.set e ≡ true
  unfolding unclaim
  unclaim_sets me k o e r s fs h =
      ap (λ (c : Option Claim). release_popped c s.set e) h ∙ release_sets o e s.set

  stored-claims_lem :
      (b : Bool) (k : ℕ) (v : V) (s : Shared V) → (stored b k v s).claims k ≡ s.claims k
  stored-claims_lem true k v s = refl
  stored-claims_lem false k v s = refl

  finish_sets :
      (me k o e : ℕ) (v : V) (s : Shared V) (f : Frame V) (fs : List (Frame V))
      → s.claims k ≡ some (pending o (some e))
      → holds k f ≡ 1
      → (perform_all me (to_finish v f) s (f ∷ fs)).0.set e ≡ true
  unfolding perform_all advance return_value store
  finish_sets me k o e v s (computing j) fs h g =
      let same : k ≡ j = ground arith in
      unclaim_sets me j o e (value v) _ fs
        (stored-claims_lem s.ended j v _ ∙ ap s.claims (sym same) ∙ h)
  finish_sets me k o e v s (storing j w) fs h g =
      let same : k ≡ j = ground arith in
      unclaim_sets me j o e (value w) _ fs
        (stored-claims_lem s.ended j w s ∙ ap s.claims (sym same) ∙ h)
  finish_sets me k o e v s (unclaiming j r) fs h g =
      let same : k ≡ j = ground arith in unclaim_sets me j o e r s fs (ap s.claims (sym same) ∙ h)
  finish_sets me k o e v s (looking j) fs h g = absurd (omega (arith, g))
  finish_sets me k o e v s (claiming j) fs h g = absurd (omega (arith, g))
  finish_sets me k o e v s (waiting j x) fs h g = absurd (omega (arith, g))

  -- Another thread computes the entry, and when it has nothing above that call, its steps to the
  -- end of the call set the event.
  abbrev pub IsAwaited : System V → ℕ → ℕ → ℕ → Type 0
  IsAwaited y t k e =
      (o : ℕ) × ((o == t) ≡ false)
      × (holding k (y.stacks o) ≡ 1)
      × ((v : V) (f : Frame V) (fs : List (Frame V))
          → y.stacks o ≡ f ∷ fs
          → holds k f ≡ 1
          → (perform_all o (to_finish v f) y.shared (y.stacks o)).0.set e ≡ true)

  watched-IsAwaited :
      (y : System V) (t k e : ℕ)
      → IsSound y
      → IsWatched y.shared t k e
      → (y.shared.set e ≡ true) ⊎ IsAwaited y t k e
  watched-IsAwaited y t k e h (inl z) = inl z
  watched-IsAwaited y t k e h (inr (o, p, n)) = inr (
    o,
    n,
    h.claimed o k ∙ ap (owns o) p ∙ ap one (==_refl o),
    λ v f fs q g. rw q (finish_sets o k o e v y.shared f fs p g),
  )

  -- In every interleaving a waiting thread's event is set, or exactly one call of another thread
  -- computes the entry and sets the event by its end, which is at most three steps of that thread
  -- away once the function returns. No wake-up is lost.
  pub run-IsAwaited :
      (es : List (Event V)) (t k e : ℕ) (fs : List (Frame V))
      → (run es initial).stacks t ≡ waiting k e ∷ fs
      → ((run es initial).shared.set e ≡ true) ⊎ IsAwaited (run es initial) t k e
  run-IsAwaited es t k e fs q =
      let y = run es initial in
      let h = run-IsSound es in
      let frames : AreFrames y.shared t (waiting k e ∷ fs) = rw q at (h.frames t) in
      watched-IsAwaited y t k e h frames.0

  abbrev pub IsRefused : ℕ → ℕ → Shared V → List (Frame V) → Shared V × List (Frame V) → Type 0
  IsRefused me k s fs x =
      (x.1 ≡ fs) × (x.0.finished ≡ record { by = me; entry = k; result = cache_cycle } ∷ s.finished)

  abbrev pub IsGoingOn : ℕ → List (Frame V) → List (Frame V) → Type 0
  IsGoingOn k fs gs = (gs ≡ computing k ∷ fs) ⊎ ((e : ℕ) × (gs ≡ waiting k e ∷ fs))

  on_watch-IsRefused :
      (x : Claim × Option ℕ) (me k : ℕ) (s : Shared V) (fs : List (Frame V))
      → x.1 ≡ none
      → IsRefused me k s fs (on_watch x me k s fs)
  on_watch-IsRefused (x, none) me k s fs h = (refl, refl)
  on_watch-IsRefused (x, some e) me k s fs h = absurd (cc h)

  on_watch-IsGoingOn :
      (x : Claim × Option ℕ) (me k e : ℕ) (s : Shared V) (fs : List (Frame V))
      → x.1 ≡ some e
      → IsGoingOn k fs (on_watch x me k s fs).1
  on_watch-IsGoingOn (x, none) me k e s fs h = absurd (cc h)
  on_watch-IsGoingOn (x, some event) me k e s fs h = inr (event, refl)

  recheck_outcome :
      (b : Bool) (v : Option V) (p : Option Claim) (me k : ℕ) (s : Shared V) (fs : List (Frame V))
      → b ≡ false
      → v ≡ none
      → (owns me p ≡ 1 → IsRefused me k s fs (on_recheck b v p me k s fs))
        × (owns me p ≡ 0 → IsGoingOn k fs (on_recheck b v p me k s fs).1)
  recheck_outcome true v p me k s fs eb ev = absurd (cc eb)
  recheck_outcome false (some w) p me k s fs eb ev = absurd (cc ev)
  recheck_outcome false none none me k s fs eb ev = (λ h. absurd (omega (arith, h)), λ h. inl refl)
  recheck_outcome false none (some c) me k s fs eb ev = (
    λ h.
        on_watch-IsRefused (watch_thread_claim me s.new_event c) me k s fs
          (watch_own me s.new_event c h),
    λ h.
        let (e, q) = watch_other me s.new_event c h in
        on_watch-IsGoingOn (watch_thread_claim me s.new_event c) me k e s fs q,
  )

  claim_outcome :
      (me k : ℕ) (s : Shared V) (fs : List (Frame V))
      → s.ended ≡ false
      → s.cache k ≡ none
      → (owns me (s.claims k) ≡ 1 → IsRefused me k s fs (claim me k s fs))
        × (owns me (s.claims k) ≡ 0 → IsGoingOn k fs (claim me k s fs).1)
  unfolding claim
  claim_outcome me k s fs eb ev = recheck_outcome s.ended (s.cache k) (s.claims k) me k s fs eb ev

  abbrev pub IsChecked : ℕ → ℕ → List (Frame V) → Shared V → Shared V × List (Frame V) → Type 0
  IsChecked t k fs s x =
      (holding k fs ≡ 1 → IsRefused t k s fs x) × (holding k fs ≡ 0 → IsGoingOn k fs x.1)

  -- In every interleaving a call of an entry that has no value yet, of an activation that is live,
  -- is refused as a cycle if a call below it in its thread computes the entry; and if none does, it
  -- computes the entry or waits.
  pub run-cycle :
      (es : List (Event V)) (t k : ℕ) (fs : List (Frame V))
      → (run es initial).stacks t ≡ claiming k ∷ fs
      → (run es initial).shared.ended ≡ false
      → (run es initial).shared.cache k ≡ none
      → IsChecked t k fs
          (run es initial).shared
          (perform t advances (run es initial).shared ((run es initial).stacks t))
  unfolding advance
  run-cycle es t k fs q eb ev =
      let y = run es initial in
      let held : holding k fs ≡ owns t (y.shared.claims k) =
        omega (arith, ap (holding k) q, (run-IsSound es).claimed t k) in
      let found = claim_outcome t k y.shared fs eb ev in
      rw q (λ h. found.0 (sym held ∙ h), λ h. found.1 (sym held ∙ h))
