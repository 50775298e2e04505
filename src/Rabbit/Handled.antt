-- ===== src/Rabbit/Handled.antt =====
-- How a delivered message should be decoded, what its handler should be given, and how the handling
-- ends inside the consumer's scope.
use stratae.Prelude.{ℕ, Bool, true, false, Option, none, some, ◌≡◌, refl, ◌⊎◌, inl, inr, sym}
use stratae.Python.{Exc, Outcome, returned, raised}
use stratae.Events.Envelope.{Codec, Envelope}
use stratae.Events.Envelope.Scope.{Draw, scope, chosen, Activates, chosen-Activates}
use stratae.Rabbit.{Runtime, Message, texts, given_headers, envelope_from}
use stratae.Rabbit.Consumer.{
  Block, exited, error_of, entered, in_scope, Consumer, Registration, deserialize, dispatch,
}

-- How `async with` ends after its body: an exit that raises replaces what the body came to, and one
-- that returns true swallows the body's error.
abbrev pub Leaves : Outcome (Unit {0}) → (Option Exc → Outcome Bool) → Outcome (Unit {0}) → Type 0
Leaves (returned u) exit o =
    ((e : Exc) × (exit none ≡ raised e) × (o ≡ raised e))
    ⊎ ((b : Bool) × (exit none ≡ returned b) × (o ≡ returned tt))
Leaves (raised x) exit o =
    ((e : Exc) × (exit (some x) ≡ raised e) × (o ≡ raised e))
    ⊎ ((exit (some x) ≡ returned true) × (o ≡ returned tt))
    ⊎ ((exit (some x) ≡ returned false) × (o ≡ raised x))

-- How a body ends inside a scope, if there is one: a scope that is not entered raises.
abbrev pub EndsAs : Option Block → Outcome (Unit {0}) → Outcome (Unit {0}) → Type 0
EndsAs none body o = o ≡ body
EndsAs (some s) body o =
    ((e : Exc) × (s.enter ≡ raised e) × (o ≡ raised e))
    ⊎ ((s.enter ≡ returned tt) × Leaves body s.exit o)

exited-Leaves :
    (exit : Option Exc → Outcome Bool) (body : Outcome (Unit {0})) (o : Outcome Bool)
    → exit (error_of body) ≡ o
    → Leaves body exit (exited body o)
exited-Leaves exit (returned u) (raised e) h = inl (e, h, refl)
exited-Leaves exit (returned u) (returned b) h = inr (b, h, refl)
exited-Leaves exit (raised x) (raised e) h = inl (e, h, refl)
exited-Leaves exit (raised x) (returned true) h = inr (inl (h, refl))
exited-Leaves exit (raised x) (returned false) h = inr (inr (h, refl))

entered-EndsAs :
    (s : Block) (o body : Outcome (Unit {0}))
    → s.enter ≡ o
    → EndsAs (some s) body (entered s o body)
entered-EndsAs s (raised e) body h = inl (e, h, refl)
entered-EndsAs s (returned u) body h = inr (h, exited-Leaves s.exit body _ refl)

in_scope-EndsAs : (s : Option Block) (body : Outcome (Unit {0})) → EndsAs s body (in_scope s body)
in_scope-EndsAs none body = refl
in_scope-EndsAs (some s) body = entered-EndsAs s s.enter body refl

module _ {P : Type 0} (r : Runtime) (codec : Codec) (d : Draw) (consumer : Consumer P)
    (reg : Registration P) where
  -- A signal has no payload; else the registration's own deserializer reads the body, or without
  -- one the consumer's.
  abbrev pub DecodesAs : Message → Outcome P → Type 0
  DecodesAs m o =
      ((reg.is_signal ≡ true) × (o ≡ returned consumer.no_payload))
      ⊎ ((reg.is_signal ≡ false)
          × (own : ℕ → Outcome P) × (reg.deserializer ≡ some own)
          × (o ≡ own m.body))
      ⊎ ((reg.is_signal ≡ false) × (reg.deserializer ≡ none) × (o ≡ consumer.deserializer m.body))

  -- The handler is called with the payload, the message's headers and an active envelope: the one
  -- that the message carries, or without one a new one.
  abbrev pub HandlesAs : Message → P → Outcome (Unit {0}) → Type 0
  HandlesAs m p o =
      (e : Envelope) × Activates d (envelope_from r codec d m.properties) consumer.around e
      × EndsAs consumer.scope (reg.handler (some e) (texts (given_headers m.properties.headers)) p)
          o

  deserialize_lem :
      (m : Message) (signal : Bool) (own : Option (ℕ → Outcome P))
      → reg.is_signal ≡ signal
      → reg.deserializer ≡ own
      → DecodesAs m (deserialize r codec d consumer reg m.body)
  unfolding deserialize
  deserialize_lem m true own s h = rw s (inl (refl, refl))
  deserialize_lem m false (some own) s h = rw (s, h) (inr (inl (refl, own, refl, refl)))
  deserialize_lem m false none s h = rw (s, h) (inr (inr (refl, refl, refl)))

  pub deserialize-DecodesAs :
      (m : Message) (o : Outcome P) → deserialize r codec d consumer reg m.body ≡ o → DecodesAs m o
  deserialize-DecodesAs m o h =
      rw (sym h) (deserialize_lem m reg.is_signal reg.deserializer refl refl)

  pub dispatch-HandlesAs :
      (m : Message) (p : P) (o : Outcome (Unit {0}))
      → dispatch r codec d consumer reg m p ≡ o
      → HandlesAs m p o
  unfolding dispatch scope
  dispatch-HandlesAs m p o h =
      let given = envelope_from r codec d m.properties in
      let e = chosen d given consumer.around in
      (e, chosen-Activates d given consumer.around, rw (sym h) (in_scope-EndsAs consumer.scope _))
