-- ===== src/Events/Direct/Registry.antt =====
-- Which handlers a bus delivers an event to.
use stratae.Prelude.{
  ℕ, Bool, true, false, List, [], ◌∷◌, ◌==◌, ◌&&◌, if◌then◌else◌, ◌≡◌, refl, ◌∙◌, ap, arith,
}
use stratae.Python.Dict.{Dict}
use stratae.Events.Direct.{
  Handler, Bus, Registration, wrap_handler, handled, accept, has, discard, handlers,
  register_handler, remove,
}
use stratae.Events.Direct.Handlers.{
  is_handled, has-discard, has-insert, has-store, AreSync, discard-AreSync, IsSyncRegistry,
  insert-IsSyncRegistry, store-IsSyncRegistry,
}

-- What callers do to a registry.
pub data Call : Type 0 where
  registers : ℕ → ℕ → Registration → Call
  removes : ℕ → ℕ → Call

module _ (supports : ℕ → Bool) (bus : Bus) where
  abbrev pub apply : Call → Dict (List Handler) → Dict (List Handler)
  apply (registers event id r) registry = register_handler supports bus event id r registry
  apply (removes event id) registry = remove event id registry

  unfoldable pub run : List Call → Dict (List Handler) → Dict (List Handler)
  run [] registry = registry
  run (c ∷ cs) registry = run cs (apply c registry)

  -- Whether a handler is registered for an event after a call, if it was or was not before it.
  abbrev pub after : ℕ → ℕ → Call → Bool → Bool
  after event id (registers e i r) before =
      if (event == e) && ((id == i) && is_handled (accept supports bus e i r)) then true else before
  after event id (removes e i) before = if (event == e) && (id == i) then false else before

  -- Whether it is after some calls, of which the last one that concerns it decides.
  unfoldable pub is_registered : ℕ → ℕ → List Call → Bool → Bool
  is_registered event id [] before = before
  is_registered event id (c ∷ cs) before = is_registered event id cs (after event id c before)

module _ (supports : ℕ → Bool) (bus : Bus) where
  accept-id :
      (event id : ℕ) (r : Registration) (h : Handler)
      → accept supports bus event id r ≡ handled h
      → h.id ≡ id
  unfolding accept
  accept-id event id r h e = ground arith

  accept-sync :
      bus.asynchronous ≡ false
      → (event id : ℕ) (r : Registration) (h : Handler) → accept supports bus event id r ≡ handled h
      → h.is_async ≡ false
  unfolding accept wrap_handler
  accept-sync sync event id r h e = ground arith

  apply-after :
      (event id : ℕ) (c : Call) (registry : Dict (List Handler))
      → has id (handlers event (apply supports bus c registry))
        ≡ after supports bus event id c (has id (handlers event registry))
  unfolding register_handler remove
  apply-after event id (registers e i r) registry =
      has-store event e id i (accept supports bus e i r) registry (accept-id e i r)
  apply-after event id (removes e i) registry =
      has-insert event e id i (discard i (handlers e registry)) registry false
        (has-discard id i (handlers e registry))

  run-after :
      (event id : ℕ) (cs : List Call) (registry : Dict (List Handler))
      → has id (handlers event (run supports bus cs registry))
        ≡ is_registered supports bus event id cs (has id (handlers event registry))
  unfolding run is_registered
  run-after event id [] registry = refl
  run-after event id (c ∷ cs) registry =
      run-after event id cs (apply supports bus c registry)
      ∙ ap (is_registered supports bus event id cs) (apply-after event id c registry)

  apply-IsSyncRegistry :
      bus.asynchronous ≡ false
      → (c : Call) (registry : Dict (List Handler)) → IsSyncRegistry registry
      → IsSyncRegistry (apply supports bus c registry)
  unfolding register_handler remove
  apply-IsSyncRegistry sync (registers e i r) registry ss =
      store-IsSyncRegistry e (accept supports bus e i r) registry (accept-sync sync e i r) ss
  apply-IsSyncRegistry sync (removes e i) registry ss =
      insert-IsSyncRegistry e (discard i (handlers e registry)) registry
        (discard-AreSync i (handlers e registry) (ss e)) ss

  run-IsSyncRegistry :
      bus.asynchronous ≡ false
      → (cs : List Call) (registry : Dict (List Handler)) → IsSyncRegistry registry
      → IsSyncRegistry (run supports bus cs registry)
  unfolding run
  run-IsSyncRegistry sync [] registry ss = ss
  run-IsSyncRegistry sync (c ∷ cs) registry ss =
      run-IsSyncRegistry sync cs (apply supports bus c registry)
        (apply-IsSyncRegistry sync c registry ss)

  -- After any registrations and removals on a new bus, an event's handlers are exactly those of
  -- which the last call that concerned them was a registration that was not refused; and on a sync
  -- bus none of them is async, with its hooks and middleware around it.
  pub run-registered :
      (cs : List Call) (event : ℕ)
      → ((id : ℕ)
          → has id (handlers event (run supports bus cs []))
            ≡ is_registered supports bus event id cs false)
        × (bus.asynchronous ≡ false → AreSync (handlers event (run supports bus cs [])))
  run-registered cs event =
      (λ id. run-after event id cs [], λ sync. run-IsSyncRegistry sync cs [] (λ e. tt) event)
