-- ===== src/Lifecycle/Wrappers/Results.antt =====
-- The return of a function and the store of its value keep what the invariant says.
use stratae.Prelude.{
  ℕ, suc, Bool, true, false, none, some, List, [], ◌∷◌, ◌==◌, ◌≡◌, refl, sym, ◌∙◌, ◌⊎◌, inl, inr,
  arith, Bool-cases, ==_iff, ==_refl, ap, some_inj,
}
use stratae.Lifecycle.Wrappers.{value, Frame, storing, unclaiming, Shared, put, stored}
use stratae.Lifecycle.Wrappers.Counting.{holding, owns, owns-le}
use stratae.Lifecycle.Wrappers.Invariant.{
  IsEntry, AreFrames, IsUnchanged, Carries, frames_kept, results_kept,
}
use stratae.Lifecycle.Wrappers.Steps.{IsStep, AreEntries, same-IsStep}

module _ {V : Type 0} where
  -- The entry that a thread has claimed, and no other, changes; for its value or its claim.
  held-others :
      (me k n : ℕ) (s s' : Shared V)
      → suc n ≡ owns me (s.claims k)
      → ((j : ℕ) → (j == k) ≡ false → IsUnchanged s s' j)
      → (j : ℕ) → (owns me (s.claims j) ≡ 1) ⊎ IsUnchanged s s' j
  held-others me k n s s' h u j = elim (Bool-cases (j == k)) [
    | inl i ↦ rw ((==_iff j k).0 i) (inl (omega (arith, owns-le me (s.claims k))))
    | inr d ↦ inr (u j d)
  ]

  -- No other call of the thread holds the entry.
  held-rest :
      (me k : ℕ) (fs : List (Frame V)) (s s' : Shared V)
      → suc (holding k fs) ≡ owns me (s.claims k)
      → ((j : ℕ) → (j == k) ≡ false → IsUnchanged s s' j)
      → (j : ℕ) → (holding j fs ≡ 0) ⊎ IsUnchanged s s' j
  held-rest me k fs s s' h u j = elim (Bool-cases (j == k)) [
    | inl i ↦ rw ((==_iff j k).0 i) (inl (omega (arith, owns-le me (s.claims k))))
    | inr d ↦ inr (u j d)
  ]

  held_claimed : (me k n : ℕ) (s : Shared V) → suc n ≡ owns me (s.claims k) → s.claims k ≡ none → ⊥
  held_claimed me k n s h e = omega (arith, h ∙ ap (owns me) e)

  -- The function has returned.
  abbrev with_computed : ℕ → V → Shared V → Shared V
  with_computed k v s = record s { computed = put k (v ∷ s.computed k) s.computed }

  computed_elsewhere :
      (k : ℕ) (v : V) (s : Shared V) (j : ℕ)
      → (j == k) ≡ false
      → IsUnchanged s (with_computed k v s) j
  computed_elsewhere k v s j d = (rw d, refl)

  computed-Carries :
      (k : ℕ) (v : V) (s : Shared V) → s.computed k ≡ [] → Carries s (with_computed k v s)
  computed-Carries k v s h = record {
    watched = λ t j e w. w;
    over = λ e. e;
    results = λ j w e. elim (Bool-cases (j == k)) [
      | inl i ↦ absurd (cc (sym h ∙ ap s.computed (sym ((==_iff j k).0 i)) ∙ e))
      | inr d ↦ rw d e
    ];
  }

  computed-IsEntry :
      (me k : ℕ) (v : V) (s : Shared V)
      → s.computed k ≡ []
      → (n : ℕ) → suc n ≡ owns me (s.claims k)
      → ((j : ℕ) → IsEntry s j)
      → (j : ℕ) → IsEntry (with_computed k v s) j
  computed-IsEntry me k v s h n o en j = elim (Bool-cases (j == k)) [
    | inl i ↦ rw ((==_iff j k).0 i) (record {
      cached = λ w e. absurd (cc (sym h ∙ (en k).cached w e));
      open_entry = λ p q r. absurd (held_claimed me k n s o p);
      once = ground (arith, h);
    })
    | inr d ↦ record {
      cached = λ w e. rw d ((en j).cached w e);
      open_entry = λ p q r. rw d ((en j).open_entry p q r);
      once = rw d (en j).once;
    }
  ]

  pub computed-IsStep :
      (me k : ℕ) (v : V) (s : Shared V) (fs : List (Frame V))
      → AreEntries s
      → suc (holding k fs) ≡ owns me (s.claims k)
      → s.computed k ≡ []
      → AreFrames s me fs
      → IsStep me s (with_computed k v s, storing k v ∷ fs)
  computed-IsStep me k v s fs h o e g =
      let s' = with_computed k v s in
      let c : Carries s s' = computed-Carries k v s e in
      record {
        carried = c;
        others = held-others me k (holding k fs) s s' o (computed_elsewhere k v s);
        frames = (
          rw (==_refl k) (ap (λ (l : List V). v ∷ l) e),
          frames_kept s s' me fs c (held-rest me k fs s s' o (computed_elsewhere k v s)) g,
        );
        entries = computed-IsEntry me k v s e (holding k fs) o h.0;
        results = results_kept s s' s.finished c h.1;
      }

  -- The value is stored.
  abbrev with_cached : ℕ → V → Shared V → Shared V
  with_cached k v s = record s { cache = put k (some v) s.cache }

  cached_elsewhere :
      (k : ℕ) (v : V) (s : Shared V) (j : ℕ)
      → (j == k) ≡ false
      → IsUnchanged s (with_cached k v s) j
  cached_elsewhere k v s j d = (refl, rw d)

  cached-IsEntry :
      (me k : ℕ) (v : V) (s : Shared V)
      → s.computed k ≡ v ∷ []
      → (n : ℕ) → suc n ≡ owns me (s.claims k)
      → ((j : ℕ) → IsEntry s j)
      → (j : ℕ) → IsEntry (with_cached k v s) j
  cached-IsEntry me k v s h n o en j = elim (Bool-cases (j == k)) [
    | inl i ↦ rw ((==_iff j k).0 i) (record {
      cached = λ w e. h ∙ ap (λ (x : V). x ∷ []) (some_inj (rw (==_refl k) at e));
      open_entry = λ p q r. absurd (held_claimed me k n s o p);
      once = (en k).once;
    })
    | inr d ↦ record {
      cached = λ w e. (en j).cached w (rw d at e);
      open_entry = λ p q r. (en j).open_entry p q (rw d at r);
      once = (en j).once;
    }
  ]

  pub stored-IsStep :
      (b : Bool) (me k : ℕ) (v : V) (s : Shared V) (fs : List (Frame V))
      → s.ended ≡ b
      → AreEntries s
      → suc (holding k fs) ≡ owns me (s.claims k)
      → s.computed k ≡ v ∷ []
      → AreFrames s me fs
      → IsStep me s (stored b k v s, unclaiming k (value v) ∷ fs)
  stored-IsStep true me k v s fs eb h o e g =
      same-IsStep me s (unclaiming k (value v) ∷ fs) h ((e, inl eb), g)
  stored-IsStep false me k v s fs eb h o e g =
      let s' = with_cached k v s in
      let c : Carries s s' = record {
        watched = λ t j e w. w;
        over = λ e. e;
        results = λ j w e. e;
      } in
      record {
        carried = c;
        others = held-others me k (holding k fs) s s' o (cached_elsewhere k v s);
        frames = (
          (e, inr (rw (==_refl k))),
          frames_kept s s' me fs c (held-rest me k fs s s' o (cached_elsewhere k v s)) g,
        );
        entries = cached-IsEntry me k v s e (holding k fs) o h.0;
        results = results_kept s s' s.finished c h.1;
      }
