-- ===== src/Depends/Overriding/Restoring.antt =====
-- What an override shows, what it leaves alone, and what its end restores.
use stratae.Prelude.{
  ℕ, ◌+◌, ◌-◌, Bool, true, false, Option, none, some, List, [], ◌∷◌, ◌==◌, ltb, if◌then◌else◌, ◌≡◌,
  refl, sym, ◌∙◌, ap, ==_refl, ==_iff, arith, Bool-cases, inl, inr, ◌⊎◌,
}
use mathlib.Core.Path.{fun_ext}
use stratae.Depends.Overriding.{
  Provider, new_provider, or_dependency, provide, update, set_in, enter_override, exit_override,
  Providers, put, enter_all, exit_all,
}

switched_back :
    (overridden : Bool) (count : ℕ)
    → overridden ≡ ltb 0 count
    → (if count + 1 - 1 == 0 then false else (if count == 0 then true else overridden)) ≡ overridden
switched_back overridden count h = ground arith

uncounted :
    (overridden : Bool) (count : ℕ)
    → overridden ≡ ltb 0 count
    → (if count - 1 == 0 then false else overridden) ≡ ltb 0 (count - 1)
uncounted overridden count h = ground arith

shown :
    {V : Type 0}
    → (overridden : Bool) (held : Option V) (dependency : V) → (overridden ≡ true) ⊎ (held ≡ none)
    → or_dependency dependency held
      ≡ (if overridden then or_dependency dependency held else dependency)
shown true held dependency h = refl
shown false none dependency h = refl
shown false (some v) dependency (inl h) = absurd cc
shown false (some v) dependency (inr h) = absurd cc

module _ {V : Type 0} where
  -- `provide` is the override's exactly while some override is counted.
  abbrev pub IsSwitched : Provider V → Type 0
  IsSwitched p = p.overridden ≡ ltb 0 p.override_count

  set_in-restored :
      (context : ℕ) (v : Option V) (override : ℕ → Option V) (c : ℕ)
      → set_in context (override context) (set_in context v override) c ≡ override c
  set_in-restored context v override c = elim (Bool-cases (c == context)) [
    | inl same ↦ rw same (ap override (sym ((==_iff c context).0 same)))
    | inr other ↦ rw other refl
  ]

  -- The end of an override in its own context undoes its start.
  exit-enter :
      (context : ℕ) (v : V) (p : Provider V)
      → IsSwitched p
      → (exit_override context (context, p.override context) (enter_override context v p)).1 ≡ p
  unfolding exit_override enter_override
  exit-enter context v p h =
      let back = switched_back p.overridden p.override_count h in
      let held = fun_ext (set_in-restored context (some v) p.override) in
      let count : p.override_count + 1 - 1 ≡ p.override_count = omega arith in
      rw (==_refl context) (λ i. record {
        dependency = p.dependency;
        overridden = back i;
        override = held i;
        override_count = count i;
      })

  enter-IsSwitched :
      (context : ℕ) (v : V) (p : Provider V)
      → IsSwitched p
      → IsSwitched (enter_override context v p)
  unfolding enter_override
  enter-IsSwitched context v p h = ground arith

  exit-IsSwitched :
      (context : ℕ) (token : ℕ × Option V) (p : Provider V)
      → IsSwitched p
      → IsSwitched (exit_override context token p).1
  unfolding exit_override
  exit-IsSwitched context (set_at, held) p h = elim (Bool-cases (set_at == context)) [
    | inl here ↦ rw here (uncounted p.overridden p.override_count h)
    | inr there ↦ rw there (uncounted p.overridden p.override_count h)
  ]

  update-IsSwitched :
      (dependency : V) (p : Provider V) → IsSwitched p → IsSwitched (update dependency p)
  unfolding update
  update-IsSwitched dependency p h = ground arith

  put-restored :
      (context i : ℕ) (v : V) (ps : Providers V)
      → IsSwitched (ps i)
      → let entered = put i (enter_override context v (ps i)) ps in
        put i (exit_override context (context, (ps i).override context) (entered i)).1 entered ≡ ps
  put-restored context i v ps h = rw (==_refl i) (
      rw (exit-enter context v (ps i) h) (
        fun_ext (λ k. elim (Bool-cases (k == i)) [
          | inl same ↦ rw same (ap ps (sym ((==_iff k i).0 same)))
          | inr other ↦ rw other refl
        ])))

  put-IsSwitched :
      (i : ℕ) (p : Provider V) (ps : Providers V)
      → IsSwitched p
      → ((k : ℕ) → IsSwitched (ps k))
      → (k : ℕ) → IsSwitched (put i p ps k)
  put-IsSwitched i p ps h hs k = elim (Bool-cases (k == i)) [
    | inl same ↦ rw same h
    | inr other ↦ rw other (hs k)
  ]

  enter_all-exit_all :
      (context : ℕ) (items : List (ℕ × V)) (tokens : List (ℕ × Option V)) (ps : Providers V)
      → ((k : ℕ) → IsSwitched (ps k))
      → let entered = enter_all context items tokens ps in
        exit_all context entered.0 entered.1 ≡ exit_all context tokens ps
  unfolding enter_all exit_all
  enter_all-exit_all context [] tokens ps h = refl
  enter_all-exit_all context (item ∷ items) tokens ps h =
      enter_all-exit_all context items ((item.0, (ps item.0).override context) ∷ tokens)
        (put item.0 (enter_override context item.1 (ps item.0)) ps)
        (put-IsSwitched item.0 (enter_override context item.1 (ps item.0)) ps
          (enter-IsSwitched context item.1 (ps item.0) (h item.0)) h)
      ∙ ap (exit_all context tokens) (put-restored context item.0 item.1 ps (h item.0))

  -- Overriding several dependencies, even one of them more than once, and ending the overrides in
  -- the same context leaves every provider, its value in every context included, as it was.
  pub exit_all-enter_all :
      (context : ℕ) (items : List (ℕ × V)) (ps : Providers V)
      → ((k : ℕ) → IsSwitched (ps k))
      → let entered = enter_all context items [] ps in exit_all context entered.0 entered.1 ≡ ps
  unfolding exit_all
  exit_all-enter_all context items ps h = enter_all-exit_all context items [] ps h

  -- An override shows its value in its own context, and leaves what any other context is provided
  -- as it was, if the provider was overridden already or that context holds no value.
  pub provide-enter :
      (context : ℕ) (v : V) (p : Provider V) (other : ℕ)
      → IsSwitched p
      → (other == context) ≡ false
      → (p.overridden ≡ true) ⊎ (p.override other ≡ none)
      → (provide context (enter_override context v p) ≡ v)
        × (provide other (enter_override context v p) ≡ provide other p)
  unfolding provide enter_override
  provide-enter context v p other h n free =
      let on : (if p.override_count == 0 then true else p.overridden) ≡ true = ground arith in
      (
        rw on (rw (==_refl context) refl),
        rw on (rw n (shown p.overridden (p.override other) p.dependency free)),
      )

-- What can happen to a provider: overrides start and end in some context, with any token, and its
-- dependency is replaced.
pub data Change (V : Type 0) : Type 0 where
  enters : ℕ → V → Change V
  exits : ℕ → ℕ × Option V → Change V
  updates : V → Change V

module _ {V : Type 0} where
  abbrev pub change : Change V → Provider V → Provider V
  change (enters context v) p = enter_override context v p
  change (exits context token) p = (exit_override context token p).1
  change (updates dependency) p = update dependency p

  unfoldable pub changed : List (Change V) → Provider V → Provider V
  changed [] p = p
  changed (c ∷ cs) p = changed cs (change c p)

  change-IsSwitched : (c : Change V) (p : Provider V) → IsSwitched p → IsSwitched (change c p)
  change-IsSwitched (enters context v) p h = enter-IsSwitched context v p h
  change-IsSwitched (exits context token) p h = exit-IsSwitched context token p h
  change-IsSwitched (updates dependency) p h = update-IsSwitched dependency p h

  changed-IsSwitched_from :
      (cs : List (Change V)) (p : Provider V) → IsSwitched p → IsSwitched (changed cs p)
  unfolding changed
  changed-IsSwitched_from [] p h = h
  changed-IsSwitched_from (c ∷ cs) p h =
      changed-IsSwitched_from cs (change c p) (change-IsSwitched c p h)

  -- From a new provider on, whatever overrides start and end in whatever contexts, failed ends
  -- included, and whatever its dependency is replaced with, it is switched to its overrides exactly
  -- while some are counted.
  pub changed-IsSwitched :
      (cs : List (Change V)) (dependency : V) → IsSwitched (changed cs (new_provider dependency))
  unfolding new_provider
  changed-IsSwitched cs dependency = changed-IsSwitched_from cs (new_provider dependency) refl
