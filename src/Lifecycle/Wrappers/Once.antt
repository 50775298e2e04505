-- ===== src/Lifecycle/Wrappers/Once.antt =====
-- Every entry is computed by one thread at a time, and at most once.
use stratae.Prelude.{
  ℕ, ◌≤◌, true, false, Option, none, some, List, [], ◌∷◌, ◌==◌, ◌≡◌, refl, ◌∙◌, ◌⊎◌, inl, inr,
  length, arith, Bool-cases, ==_iff,
}
use stratae.Lifecycle.Inflight.{Claim}
use stratae.Lifecycle.Wrappers.{
  Result, value, failed, cache_cycle, activation_ended, inactive, emptied, Frame, looking, claiming,
  computing, waiting, storing, unclaiming, Shared, Act, perform, System, Event, acts, ends, step,
  run, initial,
}
use stratae.Lifecycle.Wrappers.Counting.{holding, owns, owns-other, IsClaimed, step-IsClaimed}
use stratae.Lifecycle.Wrappers.Invariant.{
  IsSettled, AreResults, AreFrames, IsUnchanged, Carries, frames_kept, results_kept,
}
use stratae.Lifecycle.Wrappers.Steps.{AreEntries}
use stratae.Lifecycle.Wrappers.Finishing.{perform-IsStep}

same_owner : (t u : ℕ) (c : Option Claim) → 1 ≤ owns t c → 1 ≤ owns u c → (t ≡ u) × (owns t c ≡ 1)
same_owner t u none h g = absurd (omega arith)
same_owner t u (some c) h g = ground arith

module _ {V : Type 0} where
  -- The whole invariant.
  pub record IsSound (y : System V) : Type 0 where
    pub claimed : IsClaimed y
    pub entries : AreEntries y.shared
    pub frames : (t : ℕ) → AreFrames y.shared t (y.stacks t)

  abbrev emptied_storage : Shared V → Shared V
  emptied_storage s = record s { ended = true; cache = λ (k : ℕ). none }

  IsSettled-ended :
      (s : Shared V) (k : ℕ) (r : Result V) → IsSettled s k r → IsSettled (emptied_storage s) k r
  IsSettled-ended s k (value v) h = (h.0, inl refl)
  IsSettled-ended s k (failed e) h = h
  IsSettled-ended s k cache_cycle h = h
  IsSettled-ended s k activation_ended h = h
  IsSettled-ended s k inactive h = h
  IsSettled-ended s k emptied h = h

  frames_ended :
      (s : Shared V) (t : ℕ) (fs : List (Frame V))
      → AreFrames s t fs
      → AreFrames (emptied_storage s) t fs
  frames_ended s t [] h = tt
  frames_ended s t (looking k ∷ fs) h = (tt, frames_ended s t fs h.1)
  frames_ended s t (claiming k ∷ fs) h = (tt, frames_ended s t fs h.1)
  frames_ended s t (waiting k e ∷ fs) h = (h.0, frames_ended s t fs h.1)
  frames_ended s t (computing k ∷ fs) h = (h.0, frames_ended s t fs h.1)
  frames_ended s t (storing k v ∷ fs) h = (h.0, frames_ended s t fs h.1)
  frames_ended s t (unclaiming k r ∷ fs) h = (IsSettled-ended s k r h.0, frames_ended s t fs h.1)

  ended-Carries : (s : Shared V) → Carries s (emptied_storage s)
  ended-Carries s = record { watched = λ t k e h. h; over = λ h. refl; results = λ k v h. h }

  ended-AreEntries : (s : Shared V) → AreEntries s → AreEntries (emptied_storage s)
  ended-AreEntries s h = (
    λ k. record {
      cached = λ v e. absurd (cc e);
      open_entry = λ p q z. absurd (cc q);
      once = (h.0 k).once;
    },
    results_kept s (emptied_storage s) s.finished (ended-Carries s) h.1,
  )

  other_frames :
      (me t k n : ℕ) (s s' : Shared V)
      → (t == me) ≡ false
      → n ≡ owns t (s.claims k)
      → (owns me (s.claims k) ≡ 1) ⊎ IsUnchanged s s' k
      → (n ≡ 0) ⊎ IsUnchanged s s' k
  other_frames me t k n s s' d h (inl o) = inl (h ∙ owns-other me t (s.claims k) d o)
  other_frames me t k n s s' d h (inr u) = inr u

  acts-IsSound : (me : ℕ) (a : Act V) (y : System V) → IsSound y → IsSound (step (acts me a) y)
  acts-IsSound me a y h =
      let st = perform-IsStep me a y.shared (y.stacks me) h.entries (h.claimed me) (h.frames me) in
      let x = perform me a y.shared (y.stacks me) in
      record {
        claimed = step-IsClaimed (acts me a) y h.claimed;
        entries = (st.entries, st.results);
        frames = λ t. elim (Bool-cases (t == me)) [
          | inl e ↦ rw (e, (==_iff t me).0 e) st.frames
          | inr d ↦ rw d (
              frames_kept y.shared x.0 t (y.stacks t) st.carried
                (λ k.
                  other_frames me t k (holding k (y.stacks t)) y.shared x.0 d (h.claimed t k)
                    (st.others k))
                (h.frames t))
        ];
      }

  step-IsSound : (e : Event V) (y : System V) → IsSound y → IsSound (step e y)
  step-IsSound (acts me a) y h = acts-IsSound me a y h
  step-IsSound ends y h = record {
    claimed = step-IsClaimed ends y h.claimed;
    entries = ended-AreEntries y.shared h.entries;
    frames = λ t. frames_ended y.shared t (y.stacks t) (h.frames t);
  }

  run_from-IsSound : (es : List (Event V)) (y : System V) → IsSound y → IsSound (run es y)
  unfolding run
  run_from-IsSound [] y h = h
  run_from-IsSound (e ∷ es) y h = run_from-IsSound es (step e y) (step-IsSound e y h)

  pub run-IsSound : (es : List (Event V)) → IsSound (run es initial)
  run-IsSound es = run_from-IsSound es initial (record {
    claimed = λ t k. refl;
    entries = (
      λ k. record { cached = λ v e. absurd (cc e); open_entry = λ p q z. refl; once = omega arith },
      tt,
    );
    frames = λ t. tt;
  })

  -- In every interleaving of threads that call cached functions, which return, raise or call others,
  -- and of the end of the activation, no two calls in progress compute the same entry: not of two
  -- threads, and not of one.
  pub run-exclusive :
      (es : List (Event V)) (k t u : ℕ)
      → 1 ≤ holding k ((run es initial).stacks t)
      → 1 ≤ holding k ((run es initial).stacks u)
      → (t ≡ u) × (holding k ((run es initial).stacks t) ≡ 1)
  run-exclusive es k t u h g =
      let y = run es initial in
      let c = (run-IsSound es).claimed in
      let (same, held) = same_owner t u (y.shared.claims k) (rw (c t k) at h) (rw (c u k) at g) in
      (same, c t k ∙ held)

  -- In every interleaving of threads that call cached functions, and of the end of the activation,
  -- a function returns at most once for an entry, and every call of the entry that gives a value
  -- gives the one that was returned.
  pub run-once :
      (es : List (Event V))
      → ((k : ℕ) → length ((run es initial).shared.computed k) ≤ 1)
        × AreResults (run es initial).shared (run es initial).shared.finished
  run-once es = (λ k. ((run-IsSound es).entries.0 k).once, (run-IsSound es).entries.1)
