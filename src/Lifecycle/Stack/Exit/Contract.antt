-- ===== src/Lifecycle/Stack/Exit/Contract.antt =====
-- The contract of `contextlib`'s `__exit__` and `__aexit__`, for the generators that are driven
-- without a context manager.
use stratae.Prelude.{Bool, true, false, some, ◌≡◌, refl, Bool-cases, inl, inr, ◌↔◌, ◌⊎◌, arith}
use stratae.Python.{
  Kind, stop_iteration, stop_async_iteration, runtime_error, Exc, is_same, returned,
}
use stratae.Lifecycle.Stack.Exit.{
  Advance, yielded, raises, Generator, is_stop_iteration, is_any_stop, caused_by, unstopped, thrown,
  thrown_async, exit_generator, exit_async_generator,
}

-- `err` is `exc` once more: the object itself, or the `RuntimeError` into which the generator
-- turned a stop signal that it was thrown.
abbrev pub IsReturned : Bool → Exc → Exc → Type 0
IsReturned converted exc err =
    (is_same err exc ≡ true)
    ⊎ ((err.kind ≡ runtime_error) × (converted ≡ true) × (caused_by err exc ≡ true))

-- When an exit that was handed `exc` may say that it suppressed it, or that it did not: the
-- generator returned, or it let `exc` out again.
abbrev pub Suppressed : Kind → Generator → Exc → Type 0
Suppressed stop g exc =
    (err : Exc) × (g.throw exc ≡ raises err) × (err.kind ≡ stop) × (is_same err exc ≡ false)

abbrev pub PassedOn : Bool → Generator → Exc → Type 0
PassedOn converted g exc = (err : Exc) × (g.throw exc ≡ raises err) × IsReturned converted exc err

Advance-cases : (a : Advance) → (a ≡ yielded) ⊎ ((e : Exc) × (a ≡ raises e))
Advance-cases yielded = inl refl
Advance-cases (raises e) = inr (e, refl)

unstopped-ne : (g : Generator) (b : Bool) → unstopped g ≡ returned b → ⊥
unstopped-ne g b h = ground arith

thrown-true :
    (exc err : Exc) (k : Kind)
    → thrown exc err k ≡ returned true
    → (k ≡ stop_iteration) × (is_same err exc ≡ false)
thrown-true exc err stop_iteration h = ground arith
thrown-true exc err k h = ground arith

thrown-false :
    (exc err : Exc) (k : Kind)
    → thrown exc err k ≡ returned false
    → (is_same err exc ≡ true)
      ⊎ ((k ≡ runtime_error) × (is_stop_iteration exc.kind ≡ true) × (caused_by err exc ≡ true))
thrown-false exc err stop_iteration h = ground arith
thrown-false exc err k h = ground arith

thrown_same :
    (exc err : Exc) (k : Kind) → is_same err exc ≡ true → thrown exc err k ≡ returned false
thrown_same exc err stop_iteration h = ground arith
thrown_same exc err k h = ground arith

thrown_async-true :
    (exc err : Exc) (k : Kind)
    → thrown_async exc err k ≡ returned true
    → (k ≡ stop_async_iteration) × (is_same err exc ≡ false)
thrown_async-true exc err stop_iteration h = ground arith
thrown_async-true exc err k h = ground arith

thrown_async-false :
    (exc err : Exc) (k : Kind)
    → thrown_async exc err k ≡ returned false
    → (is_same err exc ≡ true)
      ⊎ ((k ≡ runtime_error) × (is_any_stop exc.kind ≡ true) × (caused_by err exc ≡ true))
thrown_async-false exc err stop_iteration h = ground arith
thrown_async-false exc err k h = ground arith

thrown_async_same :
    (exc err : Exc) (k : Kind) → is_same err exc ≡ true → thrown_async exc err k ≡ returned false
thrown_async_same exc err stop_iteration h = ground arith
thrown_async_same exc err k h = ground arith

module _ (g : Generator) (exc : Exc) where
  exit_generator-Suppressed :
      exit_generator g (some exc) ≡ returned true → Suppressed stop_iteration g exc
  unfolding exit_generator
  exit_generator-Suppressed h = elim (Advance-cases (g.throw exc)) [
    | inl e ↦ absurd (unstopped-ne g true (rw (e, exit_generator) at h))
    | inr (err, e) ↦
        let t = thrown-true exc err err.kind (rw (e, exit_generator) at h) in (err, e, t.0, t.1)
  ]

  exit_generator-PassedOn :
      exit_generator g (some exc) ≡ returned false → PassedOn (is_stop_iteration exc.kind) g exc
  unfolding exit_generator
  exit_generator-PassedOn h = elim (Advance-cases (g.throw exc)) [
    | inl e ↦ absurd (unstopped-ne g false (rw (e, exit_generator) at h))
    | inr (err, e) ↦ (err, e, thrown-false exc err err.kind (rw (e, exit_generator) at h))
  ]

  Suppressed-exit_generator :
      Suppressed stop_iteration g exc → exit_generator g (some exc) ≡ returned true
  unfolding exit_generator
  Suppressed-exit_generator (err, e, stop, other) = rw (e, exit_generator) (rw (stop, other))

  PassedOn-exit_generator :
      PassedOn (is_stop_iteration exc.kind) g exc → exit_generator g (some exc) ≡ returned false
  unfolding exit_generator
  PassedOn-exit_generator (err, e, inl same) =
      rw (e, exit_generator) (thrown_same exc err err.kind same)
  PassedOn-exit_generator (err, e, inr (kind, converted, cause)) =
      rw (e, exit_generator)
        (elim (Bool-cases (is_same err exc)) [
          | inl same ↦ thrown_same exc err err.kind same
          | inr other ↦ rw (kind, other, converted, cause)
        ])

module _ (g : Generator) (exc : Exc) where
  exit_async_generator-Suppressed :
      exit_async_generator g (some exc) ≡ returned true → Suppressed stop_async_iteration g exc
  unfolding exit_async_generator
  exit_async_generator-Suppressed h = elim (Advance-cases (g.throw exc)) [
    | inl e ↦ absurd (unstopped-ne g true (rw (e, exit_async_generator) at h))
    | inr (err, e) ↦
        let t = thrown_async-true exc err err.kind (rw (e, exit_async_generator) at h) in
        (err, e, t.0, t.1)
  ]

  exit_async_generator-PassedOn :
      exit_async_generator g (some exc) ≡ returned false → PassedOn (is_any_stop exc.kind) g exc
  unfolding exit_async_generator
  exit_async_generator-PassedOn h = elim (Advance-cases (g.throw exc)) [
    | inl e ↦ absurd (unstopped-ne g false (rw (e, exit_async_generator) at h))
    | inr (err, e) ↦
        (err, e, thrown_async-false exc err err.kind (rw (e, exit_async_generator) at h))
  ]

  Suppressed-exit_async_generator :
      Suppressed stop_async_iteration g exc → exit_async_generator g (some exc) ≡ returned true
  unfolding exit_async_generator
  Suppressed-exit_async_generator (err, e, stop, other) =
      rw (e, exit_async_generator) (rw (stop, other))

  PassedOn-exit_async_generator :
      PassedOn (is_any_stop exc.kind) g exc → exit_async_generator g (some exc) ≡ returned false
  unfolding exit_async_generator
  PassedOn-exit_async_generator (err, e, inl same) =
      rw (e, exit_async_generator) (thrown_async_same exc err err.kind same)
  PassedOn-exit_async_generator (err, e, inr (kind, converted, cause)) =
      rw (e, exit_async_generator)
        (elim (Bool-cases (is_same err exc)) [
          | inl same ↦ thrown_async_same exc err err.kind same
          | inr other ↦ rw (kind, other, converted, cause)
        ])

-- Finishing a generator with an exception reports a suppression exactly when the generator
-- returned, and reports none exactly when the generator let the same exception out again, or the
-- `RuntimeError` that it made of a `StopIteration`. It raises in every other case.
pub exit_generator_contract :
    (g : Generator) (exc : Exc)
    → ((exit_generator g (some exc) ≡ returned true) ↔ Suppressed stop_iteration g exc)
      × ((exit_generator g (some exc) ≡ returned false)
          ↔ PassedOn (is_stop_iteration exc.kind) g exc)
exit_generator_contract g exc = (
  (exit_generator-Suppressed g exc, Suppressed-exit_generator g exc),
  (exit_generator-PassedOn g exc, PassedOn-exit_generator g exc),
)

-- The same of an asynchronous generator, which returns by a `StopAsyncIteration` and makes a
-- `RuntimeError` of either stop signal.
pub exit_async_generator_contract :
    (g : Generator) (exc : Exc)
    → ((exit_async_generator g (some exc) ≡ returned true) ↔ Suppressed stop_async_iteration g exc)
      × ((exit_async_generator g (some exc) ≡ returned false)
          ↔ PassedOn (is_any_stop exc.kind) g exc)
exit_async_generator_contract g exc = (
  (exit_async_generator-Suppressed g exc, Suppressed-exit_async_generator g exc),
  (exit_async_generator-PassedOn g exc, PassedOn-exit_async_generator g exc),
)
