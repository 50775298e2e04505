-- ===== src/Lifecycle/Wrappers/Counting.antt =====
-- Who computes what: a thread has claimed an entry exactly if one of its calls in progress computes,
-- stores or gives it up, and then one does.
use stratae.Prelude.{
  ℕ, ◌+◌, Bool, true, false, Option, none, some, List, [], ◌∷◌, ◌==◌, ◌≡◌, refl, sym, ◌∙◌, ◌⊎◌, ◌≤◌,
  arith, Bool-cases, inl, inr, ==_iff,
}
use stratae.Lifecycle.Inflight.{Claim, thread, owner, watch, watch_thread_claim}
use stratae.Lifecycle.Wrappers.{
  Result, Frame, looking, claiming, computing, waiting, storing, unclaiming, Shared, put, System,
  Act, calls, raises, returns, advances, Event, acts, ends, look, claim, on_watch, on_recheck,
  on_read, on_event, stored, wake, store, unclaim, advance, return_value, raise_error, call,
  perform, step, run,
}

abbrev pub one : Bool → ℕ
one true = 1
one false = 0

-- Whether a call is computing the entry, or storing it, or giving up its claim on it.
abbrev pub holds : {V : Type 0} → ℕ → Frame V → ℕ
holds k (computing j) = one (k == j)
holds k (storing j v) = one (k == j)
holds k (unclaiming j r) = one (k == j)
holds k (looking j) = 0
holds k (claiming j) = 0
holds k (waiting j e) = 0

abbrev pub holding : {V : Type 0} → ℕ → List (Frame V) → ℕ
holding k [] = 0
holding k (f ∷ fs) = holds k f + holding k fs

abbrev pub owns : ℕ → Option Claim → ℕ
owns t none = 0
owns t (some c) = one (t == owner c)

watch-owner : (me new : ℕ) (c : Claim) → owner (watch_thread_claim me new c).0 ≡ owner c
unfolding watch_thread_claim watch
watch-owner me new (thread t) = ground arith
watch-owner me new (Claim.pending t event) = ground arith

pub owns-le : (t : ℕ) (c : Option Claim) → owns t c ≤ 1
owns-le t none = omega arith
owns-le t (some c) = ground arith

pub owns-other : (me t : ℕ) (c : Option Claim) → (t == me) ≡ false → owns me c ≡ 1 → owns t c ≡ 0
owns-other me t none d h = refl
owns-other me t (some c) d h = ground arith

module _ {V : Type 0} where
  abbrev pub IsHeld : ℕ → Shared V → List (Frame V) → Type 0
  IsHeld t s fs = (k : ℕ) → holding k fs ≡ owns t (s.claims k)

  -- A step of a thread keeps its own calls and claims together, and the claims of the others.
  abbrev pub KeepsHeld : ℕ → Shared V → Shared V × List (Frame V) → Type 0
  KeepsHeld me s x =
      (j : ℕ)
      → (holding j x.1 ≡ owns me (x.0.claims j))
        × ((t : ℕ) → (t == me) ≡ false → owns t (x.0.claims j) ≡ owns t (s.claims j))

  on_watch-KeepsHeld :
      (x : Claim × Option ℕ) (c : Claim) (me k : ℕ) (s : Shared V) (fs : List (Frame V))
      → s.claims k ≡ some c
      → owner x.0 ≡ owner c
      → IsHeld me s fs
      → KeepsHeld me s (on_watch x me k s fs)
  on_watch-KeepsHeld (x, none) c me k s fs e o h j = (ground (arith, h j), λ t n. ground arith)
  on_watch-KeepsHeld (x, some event) c me k s fs e o h j =
      (ground (arith, h j), λ t n. ground arith)

  on_recheck-KeepsHeld :
      (b : Bool) (v : Option V) (p : Option Claim) (me k : ℕ) (s : Shared V) (fs : List (Frame V))
      → s.claims k ≡ p
      → IsHeld me s fs
      → KeepsHeld me s (on_recheck b v p me k s fs)
  on_recheck-KeepsHeld true v p me k s fs e h = λ j. (h j, λ t n. refl)
  on_recheck-KeepsHeld false (some v) p me k s fs e h = λ j. (h j, λ t n. refl)
  on_recheck-KeepsHeld false none none me k s fs e h =
      λ j. (ground (arith, h j), λ t n. ground arith)
  on_recheck-KeepsHeld false none (some c) me k s fs e h =
      on_watch-KeepsHeld (watch_thread_claim me s.new_event c) c me k s fs e
        (watch-owner me s.new_event c) h

  on_read-KeepsHeld :
      (b : Bool) (v : Option V) (me k : ℕ) (s : Shared V) (fs : List (Frame V))
      → IsHeld me s fs
      → KeepsHeld me s (on_read b v me k s fs)
  on_read-KeepsHeld true v me k s fs h j = (h j, λ t n. refl)
  on_read-KeepsHeld false (some v) me k s fs h j = (h j, λ t n. refl)
  on_read-KeepsHeld false none me k s fs h j = (omega (arith, h j), λ t n. refl)

  on_event-KeepsHeld :
      (b d : Bool) (me k e : ℕ) (s : Shared V) (fs : List (Frame V))
      → IsHeld me s fs
      → KeepsHeld me s (on_event b d me k e s fs)
  on_event-KeepsHeld false d me k e s fs h j = (omega (arith, h j), λ t n. refl)
  on_event-KeepsHeld true true me k e s fs h j = (h j, λ t n. refl)
  on_event-KeepsHeld true false me k e s fs h j = (omega (arith, h j), λ t n. refl)

  stored-claims : (b : Bool) (k : ℕ) (v : V) (s : Shared V) → (stored b k v s).claims ≡ s.claims
  stored-claims true k v s = refl
  stored-claims false k v s = refl

  store-KeepsHeld :
      (me k : ℕ) (v : V) (s : Shared V) (fs : List (Frame V))
      → IsHeld me s (storing k v ∷ fs)
      → KeepsHeld me s (store k v s fs)
  unfolding store
  store-KeepsHeld me k v s fs h j = rw (stored-claims s.ended k v s) (h j, λ t n. refl)

  unclaim-KeepsHeld :
      (me k : ℕ) (r : Result V) (s : Shared V) (fs : List (Frame V))
      → IsHeld me s (unclaiming k r ∷ fs)
      → KeepsHeld me s (unclaim me k r s fs)
  unfolding unclaim
  unclaim-KeepsHeld me k r s fs h j =
      (unclaimed (Bool-cases (j == k)), λ t d. others t d (Bool-cases (j == k)))
    where
      unclaimed :
          ((j == k) ≡ true) ⊎ ((j == k) ≡ false) → holding j fs ≡ owns me (put k none s.claims j)
      unclaimed (inl e) = rw e (ground (arith, h j, owns-le me (s.claims j)))
      unclaimed (inr e) = rw e (ground (arith, h j))

      others :
          (t : ℕ)
          → (t == me) ≡ false
          → ((j == k) ≡ true) ⊎ ((j == k) ≡ false)
          → owns t (put k none s.claims j) ≡ owns t (s.claims j)
      others t d (inl e) = rw e (sym (owns-other me t (s.claims j) d (ground (arith, h j))))
      others t d (inr e) = rw e

  advance-KeepsHeld :
      (me : ℕ) (s : Shared V) (fs : List (Frame V))
      → IsHeld me s fs
      → KeepsHeld me s (advance me s fs)
  unfolding advance look claim wake
  advance-KeepsHeld me s [] h = λ j. (h j, λ t n. refl)
  advance-KeepsHeld me s (looking k ∷ fs) h =
      on_read-KeepsHeld s.ended (s.cache k) me k s fs (λ j. omega (arith, h j))
  advance-KeepsHeld me s (claiming k ∷ fs) h =
      on_recheck-KeepsHeld s.ended (s.cache k) (s.claims k) me k s fs refl (λ j. omega (arith, h j))
  advance-KeepsHeld me s (waiting k e ∷ fs) h =
      on_event-KeepsHeld (s.set e) s.ended me k e s fs (λ j. omega (arith, h j))
  advance-KeepsHeld me s (computing k ∷ fs) h = λ j. (h j, λ t n. refl)
  advance-KeepsHeld me s (storing k v ∷ fs) h = store-KeepsHeld me k v s fs h
  advance-KeepsHeld me s (unclaiming k r ∷ fs) h = unclaim-KeepsHeld me k r s fs h

  return_value-KeepsHeld :
      (me : ℕ) (v : V) (s : Shared V) (fs : List (Frame V))
      → IsHeld me s fs
      → KeepsHeld me s (return_value v s fs)
  unfolding return_value
  return_value-KeepsHeld me v s [] h = λ j. (h j, λ t n. refl)
  return_value-KeepsHeld me v s (computing k ∷ fs) h = λ j. (h j, λ t n. refl)
  return_value-KeepsHeld me v s (f ∷ fs) h = λ j. (h j, λ t n. refl)

  raise_error-KeepsHeld :
      (me e : ℕ) (s : Shared V) (fs : List (Frame V))
      → IsHeld me s fs
      → KeepsHeld me s (raise_error e s fs)
  unfolding raise_error
  raise_error-KeepsHeld me e s [] h = λ j. (h j, λ t n. refl)
  raise_error-KeepsHeld me e s (computing k ∷ fs) h = λ j. (h j, λ t n. refl)
  raise_error-KeepsHeld me e s (f ∷ fs) h = λ j. (h j, λ t n. refl)

  call-holding : (k j : ℕ) (fs : List (Frame V)) → holding j (call k fs) ≡ holding j fs
  unfolding call
  call-holding k j [] = refl
  call-holding k j (computing i ∷ fs) = omega arith
  call-holding k j (f ∷ fs) = refl

  pub perform-KeepsHeld :
      (me : ℕ) (a : Act V) (s : Shared V) (fs : List (Frame V))
      → IsHeld me s fs
      → KeepsHeld me s (perform me a s fs)
  perform-KeepsHeld me (calls k) s fs h j = (call-holding k j fs ∙ h j, λ t n. refl)
  perform-KeepsHeld me (raises e) s fs h j = raise_error-KeepsHeld me e s fs h j
  perform-KeepsHeld me (returns v) s fs h j = return_value-KeepsHeld me v s fs h j
  perform-KeepsHeld me advances s fs h j = advance-KeepsHeld me s fs h j

  -- In a whole system: each thread has claimed what its calls compute.
  abbrev pub IsClaimed : System V → Type 0
  IsClaimed y = (t : ℕ) → IsHeld t y.shared (y.stacks t)

  pub step-IsClaimed : (e : Event V) (y : System V) → IsClaimed y → IsClaimed (step e y)
  step-IsClaimed ends y h t k = h t k
  step-IsClaimed (acts me a) y h t k =
      let kept = perform-KeepsHeld me a y.shared (y.stacks me) (h me) k in
      elim (Bool-cases (t == me)) [
        | inl e ↦ rw (e, (==_iff t me).0 e) kept.0
        | inr d ↦ rw d (h t k ∙ sym (kept.1 t d))
      ]

  pub run-IsClaimed : (es : List (Event V)) (y : System V) → IsClaimed y → IsClaimed (run es y)
  unfolding run
  run-IsClaimed [] y h = h
  run-IsClaimed (e ∷ es) y h = run-IsClaimed es (step e y) (step-IsClaimed e y h)
