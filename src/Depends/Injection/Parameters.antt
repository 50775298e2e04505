-- ===== src/Depends/Injection/Parameters.antt =====
-- What resolving a function's parameters comes to, where resolving a function comes to what it
-- should.
use stratae.Prelude.{
  ℕ, ◌<◌, Bool, true, false, Option, none, some, List, [], ◌∷◌, ◌++◌, ◌==◌, ◌≡◌, refl, sym, ◌∙◌,
  ◌⊎◌, inl, inr, arith, Bool-cases, ==_iff, ==_refl, ap,
}
use mathlib.Core.List.{append_assoc, append-nil}
use stratae.Depends.Injection.{
  Param, Func, Answer, wraps, refused, exhausted, Resolved, not_injected, injected, rejected,
  unfinished, Registry, mark, provider_of, on_resolved, on_depends, on_provider, resolve_parameter,
  then_params, resolve_parameters,
}
use stratae.Depends.Injection.Graph.{
  and_needs, needs, has, any_default, Needs, IsInjectable, Route, one, snoc,
}
use stratae.Depends.Injection.Soundness.{
  unmarked, IsSound, Grows, Grows-refl, Grows-trans, Grows-unmarked, AreAbove, GainsOnly, Verdict,
  Decides, ParamVerdict,
}

has-cons : (j q : ℕ) (qs : List ℕ) → has j qs ≡ true → has j (q ∷ qs) ≡ true
has-cons j q qs h = ground arith

has-and_needs :
    (j : ℕ) (o : Option ℕ) (qs : List ℕ) → has j qs ≡ true → has j (and_needs o qs) ≡ true
has-and_needs j none qs h = h
has-and_needs j (some q) qs h = has-cons j q qs h

module _ (funcs : ℕ → Func) (count : ℕ) where
  -- Where a function is being resolved itself.
  abbrev pub AreOnWay : Registry → ℕ → Type 0
  AreOnWay s f =
      (g : ℕ) → s.resolving g ≡ true → (s.resolved g ≡ true) ⊎ ((g ≡ f) ⊎ Route funcs g f)

  -- What is known before a parameter of `f` is resolved.
  pub record IsReady (fuel f : ℕ) (s : Registry) : Type 0 where
    pub sound : IsSound funcs count s
    pub room : unmarked count s.resolving < fuel
    pub way : AreOnWay s f

  IsReady-later :
      (fuel f : ℕ) (s s' : Registry)
      → IsReady fuel f s
      → Grows funcs count s s'
      → GainsOnly funcs count s s' (λ g. ⊥)
      → IsReady fuel f s'
  IsReady-later fuel f s s' h g new = record {
    sound = g.sound;
    room = omega (arith, h.room, Grows-unmarked funcs count s s' g);
    way = λ i e. later i (new i e);
  }
    where
      known :
          (i : ℕ)
          → (s.resolved i ≡ true) ⊎ ((i ≡ f) ⊎ Route funcs i f)
          → (s'.resolved i ≡ true) ⊎ ((i ≡ f) ⊎ Route funcs i f)
      known i (inl r) = inl (g.resolved i r)
      known i (inr w) = inr w

      later :
          (i : ℕ)
          → (s.resolving i ≡ true) ⊎ ((s'.resolved i ≡ true) ⊎ ⊥)
          → (s'.resolved i ≡ true) ⊎ ((i ≡ f) ⊎ Route funcs i f)
      later i (inl e) = known i (h.way i e)
      later i (inr (inl e)) = inl e
      later i (inr (inr e)) = absurd e

  above_child : (f q : ℕ) (s : Registry) → AreOnWay s f → Needs funcs f q → AreAbove funcs count s q
  above_child f q s h n g e = child g (h g e)
    where
      child :
          (g : ℕ)
          → (s.resolved g ≡ true) ⊎ ((g ≡ f) ⊎ Route funcs g f)
          → (s.resolved g ≡ true) ⊎ Route funcs g q
      child g (inl r) = inl r
      child g (inr (inl same)) = inr (rw same (one n))
      child g (inr (inr p)) = inr (snoc funcs p n)

  on_resolved_lem :
      (q : ℕ) (s : Registry) (x : Answer × Registry)
      → Grows funcs count s x.1
      → Verdict funcs count q s x
      → Grows funcs count s (on_resolved q x).1
        × ParamVerdict funcs count (some q) false s (on_resolved q x)
  on_resolved_lem q s (wraps deps, s') g v = (
    record {
      sound = λ i e. known i e (Bool-cases (i == q));
      resolving = g.resolving;
      resolved = λ i e. ground (arith, g.resolved i e);
    },
    (refl, refl, v.0, λ i e. gained i (v.2 i e)),
  )
    where
      known :
          (i : ℕ)
          → mark q s'.resolved i ≡ true
          → ((i == q) ≡ true) ⊎ ((i == q) ≡ false)
          → IsInjectable funcs i
      known i e (inl same) = rw ((==_iff i q).0 same) v.0
      known i e (inr d) = g.sound i (rw d at e)

      gained :
          (i : ℕ)
          → (s.resolving i ≡ true) ⊎ ((s'.resolved i ≡ true) ⊎ (i ≡ q))
          → (s.resolving i ≡ true) ⊎ ((mark q s'.resolved i ≡ true) ⊎ ⊥)
      gained i (inl e) = inl e
      gained i (inr (inl e)) = inr (inl (ground arith))
      gained i (inr (inr same)) = inr (inl (ground arith))
  on_resolved_lem q s (refused e, s') g v = (g, (q, refl, λ d. v))
  on_resolved_lem q s (exhausted, s') g v = absurd v

  abbrev pub ParamsVerdict : List Param → List ℕ → Registry → Answer × Registry → Type 0
  ParamsVerdict ps deps s (wraps out, s') =
      (out ≡ deps ++ needs ps)
      × (any_default ps ≡ false)
      × ((q : ℕ) → has q (needs ps) ≡ true → IsInjectable funcs q)
      × GainsOnly funcs count s s' (λ g. ⊥)
  ParamsVerdict ps deps s (refused e, s') =
      any_default ps ≡ false → ((q : ℕ) → has q (needs ps) ≡ true → IsInjectable funcs q) → ⊥
  ParamsVerdict ps deps s (exhausted, s') = ⊥

  -- Each parameter of `f` that is left needs what `f` does.
  abbrev pub AreNeeded : ℕ → List Param → Type 0
  AreNeeded f ps = (q : ℕ) → has q (needs ps) ≡ true → Needs funcs f q × (q < count)

  module _ (fuel : ℕ) (rec : ℕ → Registry → Answer × Registry)
      (decides : Decides funcs count fuel rec) where
    on_depends_lem :
        (f q : ℕ) (b : Bool) (s : Registry)
        → s.resolved q ≡ b
        → IsReady fuel f s
        → Needs funcs f q
        → q < count
        → Grows funcs count s (on_depends rec q b s).1
          × ParamVerdict funcs count (some q) false s (on_depends rec q b s)
    on_depends_lem f q true s e h n lt =
        (Grows-refl funcs count s h.sound, (refl, refl, h.sound q e, λ g r. inl r))
    on_depends_lem f q false s e h n lt =
        let found = decides q s lt h.room h.sound (above_child f q s h.way n) (λ r. e) in
        on_resolved_lem q s (rec q s) found.0 found.1

    on_provider_lem :
        (f : ℕ) (o : Option ℕ) (d : Bool) (s : Registry)
        → IsReady fuel f s
        → ((q : ℕ) → o ≡ some q → Needs funcs f q × (q < count))
        → Grows funcs count s (on_provider rec f o d s).1
          × ParamVerdict funcs count o d s (on_provider rec f o d s)
    on_provider_lem f none d s h n = (Grows-refl funcs count s h.sound, (refl, λ g r. inl r))
    on_provider_lem f (some q) true s h n =
        (Grows-refl funcs count s h.sound, (q, refl, λ d. absurd (cc d)))
    on_provider_lem f (some q) false s h n =
        let (needed, lt) = n q refl in on_depends_lem f q (s.resolved q) s refl h needed lt

    gains_both :
        (s s' s'' : Registry)
        → Grows funcs count s' s''
        → GainsOnly funcs count s s' (λ g. ⊥)
        → GainsOnly funcs count s' s'' (λ g. ⊥)
        → GainsOnly funcs count s s'' (λ g. ⊥)
    gains_both s s' s'' h a b g e = later (b g e)
      where
        before :
            (s.resolving g ≡ true) ⊎ ((s'.resolved g ≡ true) ⊎ ⊥)
            → (s.resolving g ≡ true) ⊎ ((s''.resolved g ≡ true) ⊎ ⊥)
        before (inl x) = inl x
        before (inr (inl x)) = inr (inl (h.resolved g x))
        before (inr (inr x)) = absurd x

        later :
            (s'.resolving g ≡ true) ⊎ ((s''.resolved g ≡ true) ⊎ ⊥)
            → (s.resolving g ≡ true) ⊎ ((s''.resolved g ≡ true) ⊎ ⊥)
        later (inl x) = before (a g x)
        later (inr x) = inr x

    -- The parameters after one that is not injected, or that is.
    after_skip :
        (p : Param) (ps : List Param) (deps : List ℕ) (s s' : Registry) (x : Answer × Registry)
        → provider_of p.annotation ≡ none
        → Grows funcs count s s'
        → GainsOnly funcs count s s' (λ g. ⊥)
        → Grows funcs count s' x.1 × ParamsVerdict ps deps s' x
        → Grows funcs count s x.1 × ParamsVerdict (p ∷ ps) deps s x
    after_skip p ps deps s s' (wraps out, s'') e g n (k, v) =
        (Grows-trans funcs count s s' s'' g k, rw e (v.0, v.1, v.2, gains_both s s' s'' k n v.3))
    after_skip p ps deps s s' (refused r, s'') e g n (k, v) =
        (Grows-trans funcs count s s' s'' g k, rw e v)
    after_skip p ps deps s s' (exhausted, s'') e g n (k, v) = absurd v

    after_injected :
        (q : ℕ) (p : Param) (ps : List Param) (deps : List ℕ) (s s' : Registry)
        (x : Answer × Registry)
        → provider_of p.annotation ≡ some q
        → p.has_default ≡ false
        → IsInjectable funcs q
        → Grows funcs count s s'
        → GainsOnly funcs count s s' (λ g. ⊥)
        → Grows funcs count s' x.1 × ParamsVerdict ps (deps ++ q ∷ []) s' x
        → Grows funcs count s x.1 × ParamsVerdict (p ∷ ps) deps s x
    after_injected q p ps deps s s' (wraps out, s'') e d i g n (k, v) = (
      Grows-trans funcs count s s' s'' g k,
      rw (e, d)
          (
            v.0 ∙ append_assoc deps (q ∷ []) (needs ps),
            v.1,
            λ j h. elim (Bool-cases (j == q)) [
              | inl same ↦ rw ((==_iff j q).0 same) i
              | inr other ↦ v.2 j (rw other at h)
            ],
            gains_both s s' s'' k n v.3,
          ),
    )
    after_injected q p ps deps s s' (refused r, s'') e d i g n (k, v) = (
      Grows-trans funcs count s s' s'' g k,
      rw (e, d) (λ free all. v free (λ j h. all j (has-cons j q (needs ps) h))),
    )
    after_injected q p ps deps s s' (exhausted, s'') e d i g n (k, v) = absurd v

    needed_head :
        (f : ℕ) (p : Param) (ps : List Param)
        → AreNeeded f (p ∷ ps)
        → (q : ℕ) → provider_of p.annotation ≡ some q
        → Needs funcs f q × (q < count)
    needed_head f p ps n q e =
        n q (ap (λ (o : Option ℕ). has q (and_needs o (needs ps))) e ∙ rw (==_refl q))

    needed_tail : (f : ℕ) (p : Param) (ps : List Param) → AreNeeded f (p ∷ ps) → AreNeeded f ps
    needed_tail f p ps n q h = n q (has-and_needs q (provider_of p.annotation) (needs ps) h)

    then_params_lem :
        (f : ℕ) (p : Param) (ps : List Param) (deps : List ℕ) (s : Registry)
        (y : Resolved × Registry)
        → IsReady fuel f s
        → ((out : List ℕ) (s' : Registry)
            → IsReady fuel f s'
            → Grows funcs count s' (resolve_parameters rec f ps out s').1
              × ParamsVerdict ps out s' (resolve_parameters rec f ps out s'))
        → Grows funcs count s y.1
        → ParamVerdict funcs count (provider_of p.annotation) p.has_default s y
        → Grows funcs count s (then_params (resolve_parameters rec f ps) deps y).1
          × ParamsVerdict (p ∷ ps) deps s (then_params (resolve_parameters rec f ps) deps y)
    then_params_lem f p ps deps s (not_injected, s') h rest g v =
        after_skip p ps deps s s' (resolve_parameters rec f ps deps s') v.0 g v.1
          (rest deps s' (IsReady-later fuel f s s' h g v.1))
    then_params_lem f p ps deps s (injected q, s') h rest g v =
        after_injected q p ps deps s s' (resolve_parameters rec f ps (deps ++ q ∷ []) s') v.0 v.1
          v.2 g v.3 (rest (deps ++ q ∷ []) s' (IsReady-later fuel f s s' h g v.3))
    then_params_lem f p ps deps s (rejected e, s') h rest g (q, o, bad) =
        (g, rw o (λ free all. bad (ground arith) (all q (rw (==_refl q)))))
    then_params_lem f p ps deps s (unfinished, s') h rest g v = absurd v

    pub parameters_lem :
        (f : ℕ) (ps : List Param) (deps : List ℕ) (s : Registry)
        → AreNeeded f ps
        → IsReady fuel f s
        → Grows funcs count s (resolve_parameters rec f ps deps s).1
          × ParamsVerdict ps deps s (resolve_parameters rec f ps deps s)
    unfolding resolve_parameters resolve_parameter
    parameters_lem f [] deps s n h = (
      Grows-refl funcs count s h.sound,
      (sym (append-nil deps), refl, λ q e. absurd (cc e), λ g e. inl e),
    )
    parameters_lem f (p ∷ ps) deps s n h =
        let found =
          on_provider_lem f (provider_of p.annotation) p.has_default s h (needed_head f p ps n) in
        then_params_lem f p ps deps s (resolve_parameter rec f p s) h
          (λ out s' h'. parameters_lem f ps out s' (needed_tail f p ps n) h') found.0 found.1
