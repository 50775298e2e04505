-- ===== src/Events/Outbox/Producer/Registration.antt =====
-- The routes that a producer registers.
use stratae.Prelude.{
  ℕ, Bool, true, false, none, some, ◌==◌, ==_refl, ==_iff, if◌then◌else◌, ◌≡◌, refl, sym, ◌∙◌,
  arith, Bool-cases, Option-cases, inl, inr, ◌⊎◌, clash, some_inj,
}
use stratae.Python.{Exc, Text, returned, raised}
use stratae.Python.Dict.{Dict, lookup, insert, lookup-insert}
use stratae.Events.Outbox.Producer.{
  Event, OutboxConfig, Binding, route_name, same_config, or_given, set_default, clashes, register,
}

module _ (eq : ℕ → ℕ → Bool) (taken : Exc) (event : Event) (config : OutboxConfig)
    (routes : Dict Binding) where
  register_new :
      lookup (route_name event config) routes ≡ none
      → register eq taken event config routes ≡ (
        returned (route_name event config),
        insert (route_name event config) (event.id, config.config) routes,
      )
  unfolding register
  register_new e =
      let free : clashes eq (event.id, config.config) event config ≡ false = ground arith in
      rw (e, or_given, set_default) (rw free refl)

  register_known :
      (known : Binding)
      → lookup (route_name event config) routes ≡ some known
      → register eq taken event config routes ≡ (
        if clashes eq known event config then raised taken else returned (route_name event config),
        routes,
      )
  unfolding register
  register_known known e = rw (e, or_given, set_default) refl

  -- A registration after which its route is bound to its event, with the same config or an equal one.
  abbrev pub IsBound : Dict Binding → Type 0
  IsBound routes' =
      (known : ℕ) × (lookup (route_name event config) routes' ≡ some (event.id, known))
      × (same_config eq known config.config ≡ true)

  clashes-false :
      (known : Binding)
      → clashes eq known event config ≡ false
      → (known.0 ≡ event.id) × (same_config eq known.1 config.config ≡ true)
  clashes-false known h = ground arith

  insert_keeps :
      (j : Text) (b given : Binding)
      → lookup (route_name event config) routes ≡ none
      → lookup j routes ≡ some b
      → lookup j (insert (route_name event config) given routes) ≡ some b
  insert_keeps j b given free h =
      rw (lookup-insert j (route_name event config) given routes)
        (elim (Bool-cases (j == route_name event config)) [
          | inl same ↦
              let here : lookup (route_name event config) routes ≡ some b =
                rw ((==_iff j (route_name event config)).0 same) at h in
              cc (free, here)
          | inr other ↦ rw other h
        ])

  insert-IsBound : IsBound (insert (route_name event config) (event.id, config.config) routes)
  insert-IsBound = (
    config.config,
    rw
        (lookup-insert (route_name event config) (route_name event config) (event.id, config.config)
          routes)
        (rw (==_refl (route_name event config)) refl),
    rw (==_refl config.config) refl,
  )

  known-IsBound :
      (known : Binding)
      → lookup (route_name event config) routes ≡ some known
      → clashes eq known event config ≡ false
      → IsBound routes
  known-IsBound known e h =
      let (same, agrees) = clashes-false known h in (known.1, rw (e, same) refl, agrees)

  clash-IsBound :
      (known : Binding)
      → lookup (route_name event config) routes ≡ some known
      → clashes eq known event config ≡ true
      → IsBound routes
      → ⊥
  clash-IsBound known e h (c, bound, agrees) =
      let same : (event.id, c) ≡ known = some_inj (sym bound ∙ e) in
      let free : clashes eq (event.id, c) event config ≡ false = rw agrees (ground arith) in
      clash (rw (sym same) at h) free

  -- What a route was bound to stays so, whatever is registered later; a registration that succeeds
  -- returns its route, bound to its event with the same config or an equal one; and one that fails
  -- changes nothing, and its route is not bound so.
  pub register_lem :
      let (o, routes') = register eq taken event config routes in
      ((j : Text) (b : Binding) → lookup j routes ≡ some b → lookup j routes' ≡ some b)
      × (((o ≡ returned (route_name event config)) × IsBound routes')
          ⊎ ((o ≡ raised taken) × (routes' ≡ routes) × (IsBound routes' → ⊥)))
  register_lem = elim (Option-cases (lookup (route_name event config) routes)) [
    | inl e ↦
        rw (register_new e)
          (λ j b h. insert_keeps j b (event.id, config.config) e h, inl (refl, insert-IsBound))
    | inr (known, e) ↦
        rw (register_known known e) (elim (Bool-cases (clashes eq known event config)) [
          | inl h ↦ rw h (λ j b k. k, inr (refl, refl, clash-IsBound known e h))
          | inr h ↦ rw h (λ j b k. k, inl (refl, known-IsBound known e h))
        ])
  ]
