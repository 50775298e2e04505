-- ===== src/Lifecycle/Wrappers/Invariant.antt =====
-- What the calls in progress, the entries and the results of a system say about one another, and
-- what a step has to do to keep it.
use stratae.Prelude.{
  ℕ, ◌+◌, ◌≤◌, true, false, none, some, List, [], ◌∷◌, ◌==◌, ◌≡◌, ◌∙◌, ◌⊎◌, inl, inr, length, All,
  arith,
}
use stratae.Lifecycle.Inflight.{pending}
use stratae.Lifecycle.Wrappers.{
  Result, value, failed, cache_cycle, activation_ended, inactive, emptied, Frame, looking, claiming,
  computing, waiting, storing, unclaiming, Finished, Shared,
}
use stratae.Lifecycle.Wrappers.Counting.{one, holds, holding}

module _ {V : Type 0} where
  -- A waiting call's event is set, or another thread has a claim on the entry that will set it.
  abbrev pub IsWatched : Shared V → ℕ → ℕ → ℕ → Type 0
  IsWatched s t k e =
      (s.set e ≡ true) ⊎ ((o : ℕ) × (s.claims k ≡ some (pending o (some e))) × ((o == t) ≡ false))

  -- What a function has returned for the entry when a call with such a result gives up its claim.
  abbrev pub IsSettled : Shared V → ℕ → Result V → Type 0
  IsSettled s k (value v) = (s.computed k ≡ v ∷ []) × ((s.ended ≡ true) ⊎ (s.cache k ≡ some v))
  IsSettled s k (failed e) = s.computed k ≡ []
  IsSettled s k cache_cycle = s.computed k ≡ []
  IsSettled s k activation_ended = s.computed k ≡ []
  IsSettled s k inactive = s.computed k ≡ []
  IsSettled s k emptied = s.computed k ≡ []

  abbrev pub IsFrame : Shared V → ℕ → Frame V → Type 0
  IsFrame s t (looking k) = Unit {0}
  IsFrame s t (claiming k) = Unit {0}
  IsFrame s t (waiting k e) = IsWatched s t k e
  IsFrame s t (computing k) = s.computed k ≡ []
  IsFrame s t (storing k v) = s.computed k ≡ v ∷ []
  IsFrame s t (unclaiming k r) = IsSettled s k r

  abbrev pub IsResult : Shared V → ℕ → Result V → Type 0
  IsResult s k (value v) = s.computed k ≡ v ∷ []
  IsResult s k (failed e) = Unit {0}
  IsResult s k cache_cycle = Unit {0}
  IsResult s k activation_ended = Unit {0}
  IsResult s k inactive = Unit {0}
  IsResult s k emptied = Unit {0}

  -- What a slot holds is what its function returned, once; and while nobody has claimed an entry
  -- without a value, its function has returned nothing.
  pub record IsEntry (s : Shared V) (k : ℕ) : Type 0 where
    pub cached : (v : V) → s.cache k ≡ some v → s.computed k ≡ v ∷ []
    pub open_entry : s.claims k ≡ none → s.ended ≡ false → s.cache k ≡ none → s.computed k ≡ []
    pub once : length (s.computed k) ≤ 1

  abbrev pub AreResults : Shared V → List (Finished V) → Type 0
  AreResults s rs = All (λ (r : Finished V). IsResult s r.entry r.result) rs

  abbrev pub AreFrames : Shared V → ℕ → List (Frame V) → Type 0
  AreFrames s t fs = All (IsFrame s t) fs

  abbrev pub IsUnchanged : Shared V → Shared V → ℕ → Type 0
  IsUnchanged s s' k = (s'.computed k ≡ s.computed k) × (s'.cache k ≡ s.cache k)

  -- What a step keeps for the calls that it is not about.
  pub record Carries (s s' : Shared V) : Type 0 where
    pub watched : (t k e : ℕ) → IsWatched s t k e → IsWatched s' t k e
    pub over : s.ended ≡ true → s'.ended ≡ true
    pub results : (k : ℕ) (v : V) → s.computed k ≡ v ∷ [] → s'.computed k ≡ v ∷ []

  IsSettled-kept :
      (s s' : Shared V) (k : ℕ) (r : Result V)
      → Carries s s'
      → IsUnchanged s s' k
      → IsSettled s k r
      → IsSettled s' k r
  IsSettled-kept s s' k (value v) c u (h, inl e) = (u.0 ∙ h, inl (c.over e))
  IsSettled-kept s s' k (value v) c u (h, inr e) = (u.0 ∙ h, inr (u.1 ∙ e))
  IsSettled-kept s s' k (failed e) c u h = u.0 ∙ h
  IsSettled-kept s s' k cache_cycle c u h = u.0 ∙ h
  IsSettled-kept s s' k activation_ended c u h = u.0 ∙ h
  IsSettled-kept s s' k inactive c u h = u.0 ∙ h
  IsSettled-kept s s' k emptied c u h = u.0 ∙ h

  -- The entry that a call is about, unless the call only looks or waits.
  abbrev KeepsFrame : Shared V → Shared V → Frame V → Type 0
  KeepsFrame s s' f = (k : ℕ) → (holds k f ≡ 0) ⊎ IsUnchanged s s' k

  held-IsUnchanged :
      (s s' : Shared V) (k n : ℕ) → (n ≡ 0) ⊎ IsUnchanged s s' k → n ≡ 1 → IsUnchanged s s' k
  held-IsUnchanged s s' k n (inl z) o = absurd (omega arith)
  held-IsUnchanged s s' k n (inr u) o = u

  frame_kept :
      (s s' : Shared V) (t : ℕ) (f : Frame V)
      → Carries s s'
      → KeepsFrame s s' f
      → IsFrame s t f
      → IsFrame s' t f
  frame_kept s s' t (looking k) c u h = tt
  frame_kept s s' t (claiming k) c u h = tt
  frame_kept s s' t (waiting k e) c u h = c.watched t k e h
  frame_kept s s' t (computing k) c u h =
      (held-IsUnchanged s s' k (one (k == k)) (u k) (ground arith)).0 ∙ h
  frame_kept s s' t (storing k v) c u h =
      (held-IsUnchanged s s' k (one (k == k)) (u k) (ground arith)).0 ∙ h
  frame_kept s s' t (unclaiming k r) c u h =
      IsSettled-kept s s' k r c (held-IsUnchanged s s' k (one (k == k)) (u k) (ground arith)) h

  split_held :
      (s s' : Shared V) (k a b : ℕ)
      → (a + b ≡ 0) ⊎ IsUnchanged s s' k
      → ((a ≡ 0) ⊎ IsUnchanged s s' k) × ((b ≡ 0) ⊎ IsUnchanged s s' k)
  split_held s s' k a b (inl z) = (inl (omega arith), inl (omega arith))
  split_held s s' k a b (inr u) = (inr u, inr u)

  pub frames_kept :
      (s s' : Shared V) (t : ℕ) (fs : List (Frame V))
      → Carries s s'
      → ((k : ℕ) → (holding k fs ≡ 0) ⊎ IsUnchanged s s' k)
      → AreFrames s t fs
      → AreFrames s' t fs
  frames_kept s s' t [] c u h = tt
  frames_kept s s' t (f ∷ fs) c u h = (
    frame_kept s s' t f c (λ k. (split_held s s' k (holds k f) (holding k fs) (u k)).0) h.0,
    frames_kept s s' t fs c (λ k. (split_held s s' k (holds k f) (holding k fs) (u k)).1) h.1,
  )

  pub result_kept :
      (s s' : Shared V) (k : ℕ) (r : Result V) → Carries s s' → IsResult s k r → IsResult s' k r
  result_kept s s' k (value v) c h = c.results k v h
  result_kept s s' k (failed e) c h = tt
  result_kept s s' k cache_cycle c h = tt
  result_kept s s' k activation_ended c h = tt
  result_kept s s' k inactive c h = tt
  result_kept s s' k emptied c h = tt

  pub results_kept :
      (s s' : Shared V) (rs : List (Finished V)) → Carries s s' → AreResults s rs → AreResults s' rs
  results_kept s s' [] c h = tt
  results_kept s s' (r ∷ rs) c h =
      (result_kept s s' r.entry r.result c h.0, results_kept s s' rs c h.1)

  pub IsSettled-IsResult : (s : Shared V) (k : ℕ) (r : Result V) → IsSettled s k r → IsResult s k r
  IsSettled-IsResult s k (value v) h = h.0
  IsSettled-IsResult s k (failed e) h = tt
  IsSettled-IsResult s k cache_cycle h = tt
  IsSettled-IsResult s k activation_ended h = tt
  IsSettled-IsResult s k inactive h = tt
  IsSettled-IsResult s k emptied h = tt
