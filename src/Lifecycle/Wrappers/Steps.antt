-- ===== src/Lifecycle/Wrappers/Steps.antt =====
-- The steps of a thread before it computes keep what the invariant says.
use stratae.Prelude.{
  ℕ, ◌+◌, Bool, true, false, Option, none, some, List, [], ◌∷◌, ◌==◌, ◌≡◌, refl, sym, ◌∙◌, ◌⊎◌, inl,
  inr, arith, Bool-cases, ==_iff, ==_refl, some_inj, subst, ap,
}
use stratae.Lifecycle.Inflight.{Claim, thread, pending, owner, watch, watch_thread_claim}
use stratae.Lifecycle.Wrappers.{
  Result, value, cache_cycle, activation_ended, inactive, emptied, Frame, claiming, computing,
  waiting, Shared, put, finish, on_read, on_watch, on_recheck, on_event,
}
use stratae.Lifecycle.Wrappers.Counting.{owns}
use stratae.Lifecycle.Wrappers.Invariant.{
  IsWatched, IsResult, IsEntry, AreResults, AreFrames, IsUnchanged, Carries, frames_kept,
  result_kept, results_kept,
}

-- The event of a watched claim, and whose it is.
watch-pending :
    (me new : ℕ) (c : Claim) (x : Claim) (e : ℕ)
    → watch_thread_claim me new c ≡ (x, some e)
    → (x ≡ pending (owner c) (some e)) × ((owner c == me) ≡ false)
unfolding watch_thread_claim watch
watch-pending me new (thread t) x e h = ground arith
watch-pending me new (pending t event) x e h = ground arith

-- A claim that is watched already keeps its event.
watch-again :
    (me new o e : ℕ) → (watch_thread_claim me new (pending o (some e))).0 ≡ pending o (some e)
unfolding watch_thread_claim watch
watch-again me new o e = ground arith

module _ {V : Type 0} where
  -- A thread with its calls in progress makes a step from `s` that comes to `x`.
  pub record IsStep (me : ℕ) (s : Shared V) (x : Shared V × List (Frame V)) : Type 0 where
    pub carried : Carries s x.0
    pub others : (k : ℕ) → (owns me (s.claims k) ≡ 1) ⊎ IsUnchanged s x.0 k
    pub frames : AreFrames x.0 me x.1
    pub entries : (k : ℕ) → IsEntry x.0 k
    pub results : AreResults x.0 x.0.finished

  abbrev pub AreEntries : Shared V → Type 0
  AreEntries s = ((k : ℕ) → IsEntry s k) × AreResults s s.finished

  Carries-same : (s : Shared V) → Carries s s
  Carries-same s = record { watched = λ t k e h. h; over = λ h. h; results = λ k v h. h }

  pub same-IsStep :
      (me : ℕ) (s : Shared V) (fs : List (Frame V))
      → AreEntries s
      → AreFrames s me fs
      → IsStep me s (s, fs)
  same-IsStep me s fs h g = record {
    carried = Carries-same s;
    others = λ k. inr (refl, refl);
    frames = g;
    entries = h.0;
    results = h.1;
  }

  -- A call finishes after a change of the shared state from `s` to `s'`.
  pub finished-IsStep :
      (me k : ℕ) (r : Result V) (s s' : Shared V) (fs : List (Frame V))
      → IsStep me s (s', fs)
      → IsResult s' k r
      → IsStep me s (finish me k r s' fs)
  finished-IsStep me k r s s' fs st i =
      let s'' = (finish me k r s' fs).0 in
      let c : Carries s' s'' = record {
        watched = λ t k e h. h;
        over = λ h. h;
        results = λ k v h. h;
      } in
      record {
        carried = record {
          watched = st.carried.watched;
          over = st.carried.over;
          results = st.carried.results;
        };
        others = st.others;
        frames = frames_kept s' s'' me fs c (λ k. inr (refl, refl)) st.frames;
        entries = λ j. record {
          cached = (st.entries j).cached;
          open_entry = (st.entries j).open_entry;
          once = (st.entries j).once;
        };
        results = (result_kept s' s'' k r c i, results_kept s' s'' s'.finished c st.results);
      }

  finish-IsStep :
      (me k : ℕ) (r : Result V) (s : Shared V) (fs : List (Frame V))
      → AreEntries s
      → AreFrames s me fs
      → IsResult s k r
      → IsStep me s (finish me k r s fs)
  finish-IsStep me k r s fs h g i = finished-IsStep me k r s s fs (same-IsStep me s fs h g) i

  pub on_read-IsStep :
      (b : Bool) (c : Option V) (me k : ℕ) (s : Shared V) (fs : List (Frame V))
      → s.cache k ≡ c
      → AreEntries s
      → AreFrames s me fs
      → IsStep me s (on_read b c me k s fs)
  on_read-IsStep true c me k s fs e h g = finish-IsStep me k inactive s fs h g tt
  on_read-IsStep false (some v) me k s fs e h g =
      finish-IsStep me k (value v) s fs h g ((h.0 k).cached v e)
  on_read-IsStep false none me k s fs e h g = same-IsStep me s (claiming k ∷ fs) h (tt, g)

  pub on_event-IsStep :
      (b d : Bool) (me k e : ℕ) (s : Shared V) (fs : List (Frame V))
      → AreEntries s
      → IsWatched s me k e
      → AreFrames s me fs
      → IsStep me s (on_event b d me k e s fs)
  on_event-IsStep false d me k e s fs h w g = same-IsStep me s (waiting k e ∷ fs) h (w, g)
  on_event-IsStep true true me k e s fs h w g = finish-IsStep me k activation_ended s fs h g tt
  on_event-IsStep true false me k e s fs h w g = same-IsStep me s (claiming k ∷ fs) h (tt, g)

  abbrev with_claim : ℕ → ℕ → Claim → Shared V → Shared V
  with_claim k new c s = record s { claims = put k (some c) s.claims; new_event = new }

  with_claim-IsWatched :
      (k new : ℕ) (c : Claim) (s : Shared V)
      → ((t e : ℕ) → s.claims k ≡ some (pending t (some e)) → c ≡ pending t (some e))
      → (t j e : ℕ) → IsWatched s t j e
      → ((j == k) ≡ true) ⊎ ((j == k) ≡ false)
      → IsWatched (with_claim k new c s) t j e
  with_claim-IsWatched k new c s again t j e (inl z) i = inl z
  with_claim-IsWatched k new c s again t j e (inr (o, p, n)) (inr d) = inr (o, rw d p, n)
  with_claim-IsWatched k new c s again t j e (inr (o, p, n)) (inl i) = inr (
    o,
    rw i (
        ap some
          (again o e (subst (λ x. s.claims x ≡ some (pending o (some e))) ((==_iff j k).0 i) p))),
    n,
  )

  with_claim-Carries :
      (k new : ℕ) (c : Claim) (s : Shared V)
      → ((t e : ℕ) → s.claims k ≡ some (pending t (some e)) → c ≡ pending t (some e))
      → Carries s (with_claim k new c s)
  with_claim-Carries k new c s again = record {
    watched = λ t j e w. with_claim-IsWatched k new c s again t j e w (Bool-cases (j == k));
    over = λ h. h;
    results = λ k v h. h;
  }

  watched_frames :
      (me k new : ℕ) (c : Claim) (s : Shared V) (fs : List (Frame V))
      → ((t e : ℕ) → s.claims k ≡ some (pending t (some e)) → c ≡ pending t (some e))
      → AreEntries s
      → AreFrames s me fs
      → AreFrames (with_claim k new c s) me fs
  watched_frames me k new c s fs again h g =
      frames_kept s (with_claim k new c s) me fs (with_claim-Carries k new c s again)
        (λ j. inr (refl, refl)) g

  claimed_open :
      (k : ℕ) (c : Claim) (s : Shared V) (j : ℕ)
      → IsEntry s j
      → ((j == k) ≡ true) ⊎ ((j == k) ≡ false)
      → put k (some c) s.claims j ≡ none
      → s.ended ≡ false
      → s.cache j ≡ none
      → s.computed j ≡ []
  claimed_open k c s j h (inl i) p q r = absurd (ground arith)
  claimed_open k c s j h (inr d) p q r = h.open_entry (rw d at p) q r

  -- A claim on the entry is made, or watched; nothing else changes that the invariant is about.
  claimed-IsStep :
      (me k new : ℕ) (c : Claim) (s : Shared V) (gs : List (Frame V))
      → ((t e : ℕ) → s.claims k ≡ some (pending t (some e)) → c ≡ pending t (some e))
      → AreEntries s
      → AreFrames (with_claim k new c s) me gs
      → IsStep me s (with_claim k new c s, gs)
  claimed-IsStep me k new c s gs again h g =
      let carried : Carries s (with_claim k new c s) = with_claim-Carries k new c s again in
      record {
        carried = carried;
        others = λ j. inr (refl, refl);
        frames = g;
        entries = λ j. record {
          cached = (h.0 j).cached;
          open_entry = claimed_open k c s j (h.0 j) (Bool-cases (j == k));
          once = (h.0 j).once;
        };
        results = results_kept s (with_claim k new c s) s.finished carried h.1;
      }

  again_of :
      (me k : ℕ) (c : Claim) (x : Claim × Option ℕ) (s : Shared V)
      → s.claims k ≡ some c
      → watch_thread_claim me s.new_event c ≡ x
      → (t e : ℕ) → s.claims k ≡ some (pending t (some e))
      → x.0 ≡ pending t (some e)
  again_of me k c x s p w t e q =
      let same : c ≡ pending t (some e) = some_inj (sym p ∙ q) in
      ap (λ (y : Claim × Option ℕ). y.0) (sym w ∙ ap (watch_thread_claim me s.new_event) same)
      ∙ watch-again me s.new_event t e

  on_watch-IsStep :
      (x : Claim × Option ℕ) (me k : ℕ) (c : Claim) (s : Shared V) (fs : List (Frame V))
      → s.claims k ≡ some c
      → watch_thread_claim me s.new_event c ≡ x
      → AreEntries s
      → AreFrames s me fs
      → IsStep me s (on_watch x me k s fs)
  on_watch-IsStep (x, none) me k c s fs e w h g =
      finished-IsStep me k cache_cycle s (record s { claims = put k (some x) s.claims }) fs
        (claimed-IsStep me k s.new_event x s fs (again_of me k c (x, none) s e w) h
          (watched_frames me k s.new_event x s fs (again_of me k c (x, none) s e w) h g))
        tt
  on_watch-IsStep (x, some event) me k c s fs e w h g =
      let (p, n) = watch-pending me s.new_event c x event w in
      claimed-IsStep me k (s.new_event + 1) x s (waiting k event ∷ fs)
        (again_of me k c (x, some event) s e w) h
        (
          inr (owner c, rw (==_refl k) (ap some p), n),
          watched_frames me k (s.new_event + 1) x s fs (again_of me k c (x, some event) s e w) h g,
        )

  pub on_recheck-IsStep :
      (b : Bool) (v : Option V) (p : Option Claim) (me k : ℕ) (s : Shared V) (fs : List (Frame V))
      → s.ended ≡ b
      → s.cache k ≡ v
      → s.claims k ≡ p
      → AreEntries s
      → AreFrames s me fs
      → IsStep me s (on_recheck b v p me k s fs)
  on_recheck-IsStep true v p me k s fs eb ev ep h g = finish-IsStep me k emptied s fs h g tt
  on_recheck-IsStep false (some v) p me k s fs eb ev ep h g =
      finish-IsStep me k (value v) s fs h g ((h.0 k).cached v ev)
  on_recheck-IsStep false none none me k s fs eb ev ep h g =
      let again : (t e : ℕ)
          → s.claims k ≡ some (pending t (some e))
          → thread me ≡ pending t (some e) =
        λ t e q. cc in
      claimed-IsStep me k s.new_event (thread me) s (computing k ∷ fs) again h
        ((h.0 k).open_entry ep eb ev, watched_frames me k s.new_event (thread me) s fs again h g)
  on_recheck-IsStep false none (some c) me k s fs eb ev ep h g =
      on_watch-IsStep (watch_thread_claim me s.new_event c) me k c s fs ep refl h g
