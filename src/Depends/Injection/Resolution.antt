-- ===== src/Depends/Injection/Resolution.antt =====
-- `inject` decides whether a function is injectable, whatever its dependencies look like.
use stratae.Prelude.{
  ℕ, zero, suc, ◌<◌, Bool, true, false, List, [], ◌==◌, if◌then◌else◌, ◌≡◌, refl, ◌⊎◌, inl, inr,
  arith, Bool-cases, ==_iff,
}
use stratae.Depends.Injection.{
  Func, uninjectable, async_dependency, Answer, wraps, refused, exhausted, Registry, mark,
  any_quoted, is_postponed, rejects_object, rejects_async, resolve_parameters, validate, enter,
  resolve_entered, on_entry, resolve_function, inject,
}
use stratae.Depends.Injection.Graph.{
  needs, Needs, IsInjectable, wrapped, fit, Route, acyclic, Needs-IsInjectable, IsFit-of,
  injected_of,
}
use stratae.Depends.Injection.Soundness.{
  unmarked, unmarked-mark, unmarked-none, IsSound, Grows, Grows-refl, Grows-trans, AreAbove,
  GainsOnly, Verdict, Decides,
}
use stratae.Depends.Injection.Parameters.{IsReady, ParamsVerdict, parameters_lem}

module _ (funcs : ℕ → Func) (count : ℕ) where
  enter-Grows :
      (f : ℕ) (s : Registry) → IsSound funcs count s → Grows funcs count s (enter funcs f s)
  enter-Grows f s h = record { sound = h; resolving = λ g e. ground arith; resolved = λ g e. e }

  enter-IsReady :
      (fuel f : ℕ) (s : Registry)
      → f < count
      → unmarked count s.resolving < suc fuel
      → IsSound funcs count s
      → AreAbove funcs count s f
      → s.resolving f ≡ false
      → IsReady funcs count fuel f (enter funcs f s)
  enter-IsReady fuel f s lt room h above new = record {
    sound = h;
    room = omega (arith, unmarked-mark count f s.resolving lt new);
    way = λ g e. elim (Bool-cases (g == f)) [
      | inl same ↦ inr (inl ((==_iff g f).0 same))
      | inr d ↦ weaken g (above g (rw d at e))
    ];
  }
    where
      weaken :
          (g : ℕ)
          → (s.resolved g ≡ true) ⊎ Route funcs g f
          → (s.resolved g ≡ true) ⊎ ((g ≡ f) ⊎ Route funcs g f)
      weaken g (inl r) = inl r
      weaken g (inr p) = inr (inr p)

  entered-GainsOnly :
      (f : ℕ) (s s' : Registry)
      → GainsOnly funcs count (enter funcs f s) s' (λ g. ⊥)
      → GainsOnly funcs count s s' (λ g. g ≡ f)
  entered-GainsOnly f s s' h g e = out (h g e)
    where
      out :
          (mark f s.resolving g ≡ true) ⊎ ((s'.resolved g ≡ true) ⊎ ⊥)
          → (s.resolving g ≡ true) ⊎ ((s'.resolved g ≡ true) ⊎ (g ≡ f))
      out (inl m) = elim (Bool-cases (g == f)) [
        | inl same ↦ inr (inr ((==_iff g f).0 same))
        | inr d ↦ inl (rw d at m)
      ]
      out (inr (inl r)) = inr (inl r)
      out (inr (inr x)) = absurd x

  -- As for the function, but for the function itself, which is being resolved before and after.
  abbrev ValidVerdict : ℕ → Registry → Answer × Registry → Type 0
  ValidVerdict f s (wraps deps, s') =
      IsInjectable funcs f × (deps ≡ needs (funcs f).params) × GainsOnly funcs count s s' (λ g. ⊥)
  ValidVerdict f s (refused e, s') = ¬ IsInjectable funcs f
  ValidVerdict f s (exhausted, s') = ⊥

  abbrev checked : ℕ → Bool → Bool → List ℕ → Registry → Answer × Registry
  checked f object awaits deps s =
      if object
      then (refused (uninjectable f), s)
      else if awaits
      then (refused (async_dependency f), s)
      else (wraps deps, s)

  validated_wraps :
      (f : ℕ) (s s' : Registry) (object awaits : Bool) (out : List ℕ)
      → (funcs f).is_wrapper ≡ false
      → is_postponed (funcs f) ≡ false
      → any_quoted (funcs f).params ≡ false
      → rejects_object funcs (funcs f) (needs (funcs f).params) ≡ object
      → rejects_async funcs (funcs f) (needs (funcs f).params) ≡ awaits
      → Grows funcs count s s'
      → ParamsVerdict funcs count (funcs f).params [] s (wraps out, s')
      → Grows funcs count s (checked f object awaits (needs (funcs f).params) s').1
        × ValidVerdict f s (checked f object awaits (needs (funcs f).params) s')
  validated_wraps f s s' true awaits out w live q ro ra g v =
      (g, λ i. absurd (cc (ro, (IsFit-of funcs w i).function)))
  validated_wraps f s s' false true out w live q ro ra g v =
      (g, λ i. absurd (cc (ra, (IsFit-of funcs w i).awaits)))
  validated_wraps f s s' false false out w live q ro ra g v = (
    g,
    (
      fit (record { live = live; evaluated = q; free = v.1; function = ro; awaits = ra })
          (λ j n. v.2 j n.1),
      refl,
      v.3,
    ),
  )

  -- The checks of what the parameters came to.
  validated :
      (f : ℕ) (s : Registry) (x : Answer × Registry)
      → (funcs f).is_wrapper ≡ false
      → is_postponed (funcs f) ≡ false
      → any_quoted (funcs f).params ≡ false
      → Grows funcs count s x.1
      → ParamsVerdict funcs count (funcs f).params [] s x
      → Grows funcs count s (validate funcs f x).1 × ValidVerdict f s (validate funcs f x)
  validated f s (wraps out, s') w live q g v = rw v.0 (
      validated_wraps f s s' (rejects_object funcs (funcs f) (needs (funcs f).params))
        (rejects_async funcs (funcs f) (needs (funcs f).params)) out w live q refl refl g v)
  validated f s (refused e, s') w live q g v =
      (g, λ i. v (IsFit-of funcs w i).free (λ j h. Needs-IsInjectable funcs i j (w, h)))
  validated f s (exhausted, s') w live q g v = absurd v

  entered_verdict :
      (f : ℕ) (s : Registry) (x : Answer × Registry)
      → (funcs f).is_wrapper ≡ false
      → ValidVerdict f (enter funcs f s) x
      → Verdict funcs count f s x
  entered_verdict f s (wraps deps, s') w (i, d, n) = (i, rw w d, entered-GainsOnly f s s' n)
  entered_verdict f s (refused e, s') w v = v
  entered_verdict f s (exhausted, s') w v = v

  module _ (closed : (f q : ℕ) → f < count → Needs funcs f q → q < count) where
    entered_lem :
        (fuel : ℕ) (rec : ℕ → Registry → Answer × Registry)
        → Decides funcs count fuel rec
        → (f : ℕ) (postp quot : Bool) (s : Registry) → is_postponed (funcs f) ≡ postp
        → any_quoted (funcs f).params ≡ quot
        → (funcs f).is_wrapper ≡ false
        → f < count
        → IsReady funcs count fuel f s
        → Grows funcs count s (resolve_entered funcs rec f postp quot s).1
          × ValidVerdict f s (resolve_entered funcs rec f postp quot s)
    entered_lem fuel rec d f true quot s ep eq w lt h =
        (Grows-refl funcs count s h.sound, λ i. absurd (cc (ep, (IsFit-of funcs w i).live)))
    entered_lem fuel rec d f false true s ep eq w lt h =
        (Grows-refl funcs count s h.sound, λ i. absurd (cc (eq, (IsFit-of funcs w i).evaluated)))
    entered_lem fuel rec d f false false s ep eq w lt h =
        let found =
          parameters_lem funcs count fuel rec d f (funcs f).params [] s
            (λ q n. ((w, n), closed f q lt (w, n))) h in
        validated f s (resolve_parameters rec f (funcs f).params [] s) w ep eq found.0 found.1

    on_entry_lem :
        (fuel : ℕ) (rec : ℕ → Registry → Answer × Registry)
        → Decides funcs count fuel rec
        → (f : ℕ) (w r : Bool) (s : Registry) → (funcs f).is_wrapper ≡ w
        → s.resolving f ≡ r
        → f < count
        → unmarked count s.resolving < suc fuel
        → IsSound funcs count s
        → AreAbove funcs count s f
        → (s.resolving f ≡ true → s.resolved f ≡ false)
        → Grows funcs count s (on_entry funcs rec f w r s).1
          × Verdict funcs count f s (on_entry funcs rec f w r s)
    on_entry_lem fuel rec d f true r s ew er lt room h above new =
        (Grows-refl funcs count s h, (wrapped ew, rw ew, λ g e. inl e))
    on_entry_lem fuel rec d f false true s ew er lt room h above new =
        (Grows-refl funcs count s h, cyclic (above f er))
      where
        cyclic : (s.resolved f ≡ true) ⊎ Route funcs f f → ¬ IsInjectable funcs f
        cyclic (inl e) i = absurd (cc (e, new er))
        cyclic (inr p) i = acyclic funcs i p
    on_entry_lem fuel rec d f false false s ew er lt room h above new =
        let ready = enter-IsReady fuel f s lt room h above er in
        let s' = enter funcs f s in
        let x =
          resolve_entered funcs rec f (is_postponed (funcs f)) (any_quoted (funcs f).params) s' in
        let found =
          entered_lem fuel rec d f (is_postponed (funcs f)) (any_quoted (funcs f).params) s' refl
            refl ew lt ready in
        (
          Grows-trans funcs count s s' x.1 (enter-Grows f s h) found.0,
          entered_verdict f s x ew found.1,
        )

    resolve_function-Decides : (fuel : ℕ) → Decides funcs count fuel (resolve_function funcs fuel)
    unfolding resolve_function
    resolve_function-Decides zero f s lt room h above new = absurd (omega (arith, room))
    resolve_function-Decides (suc fuel) f s lt room h above new =
        on_entry_lem fuel (resolve_function funcs fuel) (resolve_function-Decides fuel) f
          (funcs f).is_wrapper (s.resolving f) s refl refl lt room h above new

  abbrev pub IsAnswer : ℕ → Answer → Type 0
  IsAnswer f (wraps deps) = IsInjectable funcs f × (deps ≡ injected_of funcs f)
  IsAnswer f (refused e) = ¬ IsInjectable funcs f
  IsAnswer f exhausted = ⊥

  answer_of :
      (f : ℕ) (s : Registry) (x : Answer × Registry) → Verdict funcs count f s x → IsAnswer f x.0
  answer_of f s (wraps deps, s') v = (v.0, v.1)
  answer_of f s (refused e, s') v = v
  answer_of f s (exhausted, s') v = v

  -- Where the functions are finitely many and the providers that are resolved already are injectable,
  -- inject() ends, for any dependencies: it wraps the function exactly if that is injectable, with
  -- the providers of its injected parameters, and raises if not. In either case the providers that
  -- are resolved afterwards are injectable, and those that were resolved still are.
  pub inject-decides :
      ((f q : ℕ) → f < count → Needs funcs f q → q < count)
      → (f : ℕ) (resolved : ℕ → Bool) → f < count
      → ((g : ℕ) → resolved g ≡ true → IsInjectable funcs g)
      → IsAnswer f (inject funcs count f resolved).0
        × ((g : ℕ) → (inject funcs count f resolved).1.resolved g ≡ true → IsInjectable funcs g)
        × ((g : ℕ) → resolved g ≡ true → (inject funcs count f resolved).1.resolved g ≡ true)
  unfolding inject
  inject-decides closed f resolved lt h =
      let s : Registry = record { resolved = resolved; resolving = λ g. false } in
      let x =
        resolve_function-Decides closed (suc count) f s lt (omega (arith, unmarked-none count)) h
          (λ g e. absurd (cc e)) (λ e. absurd (cc e)) in
      (answer_of f s (resolve_function funcs (suc count) f s) x.1, x.0.sound, x.0.resolved)
