-- ===== src/Lifecycle/Wrappers/Finishing.antt =====
-- A claim that is given up keeps what the invariant says, and so does every step of a thread.
use stratae.Prelude.{
  ℕ, suc, ◌+◌, Bool, true, false, Option, none, some, List, [], ◌∷◌, ◌==◌, ◌≡◌, refl, sym, ◌∙◌, inl,
  inr, arith, Bool-cases, ==_iff, ==_refl, ap,
}
use stratae.Lifecycle.Inflight.{Claim, thread, pending, release, release_popped}
use stratae.Lifecycle.Wrappers.{
  Result, value, failed, cache_cycle, activation_ended, inactive, emptied, Frame, looking, claiming,
  computing, waiting, storing, unclaiming, Shared, put, look, claim, wake, store, unclaim, advance,
  return_value, raise_error, call, Act, calls, raises, returns, advances, perform,
}
use stratae.Lifecycle.Wrappers.Counting.{one, holding, owns, IsHeld}
use stratae.Lifecycle.Wrappers.Invariant.{
  IsWatched, IsSettled, IsResult, IsEntry, AreFrames, Carries, frames_kept, results_kept,
}
use stratae.Lifecycle.Wrappers.Steps.{
  IsStep, AreEntries, same-IsStep, finished-IsStep, on_read-IsStep, on_event-IsStep,
  on_recheck-IsStep,
}
use stratae.Lifecycle.Wrappers.Results.{computed-IsStep, stored-IsStep}

release_keeps :
    (c : Option Claim) (set : ℕ → Bool) (e : ℕ) → set e ≡ true → release_popped c set e ≡ true
unfolding release
release_keeps none set e h = h
release_keeps (some (thread t)) set e h = h
release_keeps (some (pending t none)) set e h = h
release_keeps (some (pending t (some event))) set e h = ground arith

pub release_sets :
    (t e : ℕ) (set : ℕ → Bool) → release_popped (some (pending t (some e))) set e ≡ true
unfolding release
release_sets t e set = rw (==_refl e)

module _ {V : Type 0} where
  abbrev unclaimed : ℕ → Shared V → Shared V
  unclaimed k s = record s { claims = put k none s.claims; set = release_popped (s.claims k) s.set }

  unclaimed-IsWatched :
      (k : ℕ) (s : Shared V) (t j e : ℕ) → IsWatched s t j e → IsWatched (unclaimed k s) t j e
  unclaimed-IsWatched k s t j e (inl h) = inl (release_keeps (s.claims k) s.set e h)
  unclaimed-IsWatched k s t j e (inr (o, p, n)) = elim (Bool-cases (j == k)) [
    | inl i ↦ inl (
        ap (λ (c : Option Claim). release_popped c s.set e)
          (ap s.claims (sym ((==_iff j k).0 i)) ∙ p)
        ∙ release_sets o e s.set)
    | inr d ↦ inr (o, rw d p, n)
  ]

  unclaimed-Carries : (k : ℕ) (s : Shared V) → Carries s (unclaimed k s)
  unclaimed-Carries k s = record {
    watched = unclaimed-IsWatched k s;
    over = λ e. e;
    results = λ j v e. e;
  }

  settled_open :
      (s : Shared V) (k : ℕ) (r : Result V)
      → IsSettled s k r
      → s.ended ≡ false
      → s.cache k ≡ none
      → s.computed k ≡ []
  settled_open s k (value v) (h, inl e) p q = absurd (cc)
  settled_open s k (value v) (h, inr e) p q = absurd (cc)
  settled_open s k (failed e) h p q = h
  settled_open s k cache_cycle h p q = h
  settled_open s k activation_ended h p q = h
  settled_open s k inactive h p q = h
  settled_open s k emptied h p q = h

  unclaimed-IsEntry :
      (k : ℕ) (r : Result V) (s : Shared V)
      → IsSettled s k r
      → ((j : ℕ) → IsEntry s j)
      → (j : ℕ) → IsEntry (unclaimed k s) j
  unclaimed-IsEntry k r s h en j = elim (Bool-cases (j == k)) [
    | inl i ↦ rw ((==_iff j k).0 i) (record {
      cached = (en k).cached;
      open_entry = λ p q z. settled_open s k r h q z;
      once = (en k).once;
    })
    | inr d ↦ record {
      cached = (en j).cached;
      open_entry = λ p q z. (en j).open_entry (rw d at p) q z;
      once = (en j).once;
    }
  ]

  unclaim-IsStep :
      (me k : ℕ) (r : Result V) (s : Shared V) (fs : List (Frame V))
      → AreEntries s
      → IsSettled s k r
      → AreFrames s me fs
      → IsStep me s (unclaim me k r s fs)
  unfolding unclaim
  unclaim-IsStep me k r s fs h e g =
      let s' = unclaimed k s in
      let c : Carries s s' = unclaimed-Carries k s in
      let before : IsStep me s (s', fs) = record {
        carried = c;
        others = λ j. inr (refl, refl);
        frames = frames_kept s s' me fs c (λ j. inr (refl, refl)) g;
        entries = unclaimed-IsEntry k r s e h.0;
        results = results_kept s s' s.finished c h.1;
      } in
      finished-IsStep me k r s s' fs before (result_of s k r e)
    where
      result_of :
          (s : Shared V) (k : ℕ) (r : Result V) → IsSettled s k r → IsResult (unclaimed k s) k r
      result_of s k (value v) h = h.0
      result_of s k (failed e) h = tt
      result_of s k cache_cycle h = tt
      result_of s k activation_ended h = tt
      result_of s k inactive h = tt
      result_of s k emptied h = tt

  top_held :
      (me k n : ℕ) (s : Shared V)
      → one (k == k) + n ≡ owns me (s.claims k)
      → suc n ≡ owns me (s.claims k)
  top_held me k n s h = omega (arith, h, ap one (==_refl k))

  advance-IsStep :
      (me : ℕ) (s : Shared V) (fs : List (Frame V))
      → AreEntries s
      → IsHeld me s fs
      → AreFrames s me fs
      → IsStep me s (advance me s fs)
  unfolding advance look claim wake store
  advance-IsStep me s [] h o g = same-IsStep me s [] h g
  advance-IsStep me s (looking k ∷ fs) h o g =
      on_read-IsStep s.ended (s.cache k) me k s fs refl h g.1
  advance-IsStep me s (claiming k ∷ fs) h o g =
      on_recheck-IsStep s.ended (s.cache k) (s.claims k) me k s fs refl refl refl h g.1
  advance-IsStep me s (waiting k e ∷ fs) h o g =
      on_event-IsStep (s.set e) s.ended me k e s fs h g.0 g.1
  advance-IsStep me s (computing k ∷ fs) h o g = same-IsStep me s (computing k ∷ fs) h g
  advance-IsStep me s (storing k v ∷ fs) h o g =
      stored-IsStep s.ended me k v s fs refl h (top_held me k (holding k fs) s (o k)) g.0 g.1
  advance-IsStep me s (unclaiming k r ∷ fs) h o g = unclaim-IsStep me k r s fs h g.0 g.1

  call-frames :
      (k me : ℕ) (s : Shared V) (fs : List (Frame V))
      → AreFrames s me fs
      → AreFrames s me (call k fs)
  unfolding call
  call-frames k me s [] g = (tt, tt)
  call-frames k me s (computing j ∷ fs) g = (tt, g)
  call-frames k me s (f ∷ fs) g = g

  return_value-IsStep :
      (me : ℕ) (v : V) (s : Shared V) (fs : List (Frame V))
      → AreEntries s
      → IsHeld me s fs
      → AreFrames s me fs
      → IsStep me s (return_value v s fs)
  unfolding return_value
  return_value-IsStep me v s [] h o g = same-IsStep me s [] h g
  return_value-IsStep me v s (computing k ∷ fs) h o g =
      computed-IsStep me k v s fs h (top_held me k (holding k fs) s (o k)) g.0 g.1
  return_value-IsStep me v s (f ∷ fs) h o g = same-IsStep me s (f ∷ fs) h g

  raise_error-IsStep :
      (me e : ℕ) (s : Shared V) (fs : List (Frame V))
      → AreEntries s
      → AreFrames s me fs
      → IsStep me s (raise_error e s fs)
  unfolding raise_error
  raise_error-IsStep me e s [] h g = same-IsStep me s [] h g
  raise_error-IsStep me e s (computing k ∷ fs) h g =
      same-IsStep me s (unclaiming k (failed e) ∷ fs) h g
  raise_error-IsStep me e s (f ∷ fs) h g = same-IsStep me s (f ∷ fs) h g

  pub perform-IsStep :
      (me : ℕ) (a : Act V) (s : Shared V) (fs : List (Frame V))
      → AreEntries s
      → IsHeld me s fs
      → AreFrames s me fs
      → IsStep me s (perform me a s fs)
  perform-IsStep me (calls k) s fs h o g = same-IsStep me s (call k fs) h (call-frames k me s fs g)
  perform-IsStep me (raises e) s fs h o g = raise_error-IsStep me e s fs h g
  perform-IsStep me (returns v) s fs h o g = return_value-IsStep me v s fs h o g
  perform-IsStep me advances s fs h o g = advance-IsStep me s fs h o g
