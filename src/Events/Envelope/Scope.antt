-- ===== src/Events/Envelope/Scope.antt =====
-- stratae/events/envelope.py: `Envelope.scope`, over the value of the context variable `_current`.
use stratae.Prelude.{ℕ, Option, none, some, List, [], ◌∷◌, ◌≡◌, refl}
use stratae.Python.{Outcome, returned, raised}
use stratae.Events.Envelope.{Envelope, child, root}

-- What a scope draws: two fresh ids and the time.
pub record Draw : Type 0 where
  pub id : ℕ
  pub other_id : ℕ
  pub now : ℕ

-- The envelope that a scope activates, given the one it was passed and the active one.
abbrev pub chosen : Draw → Option Envelope → Option Envelope → Envelope
chosen d (some e) active = e
chosen d none none = root d.id d.other_id d.now
chosen d none (some parent) = child d.id d.now parent

-- A block of code, which may change the active envelope on its way, and its result.
abbrev pub Block : Type 0 → Type 0
Block A = Option Envelope → Outcome A × Option Envelope

-- `with Envelope.scope(envelope) as e: body(e)`. The token resets the variable to what it was.
unfoldable pub scope : {A : Type 0} → Draw → Option Envelope → (Envelope → Block A) → Block A
scope d given body active = let e = chosen d given active in ((body e (some e)).0, active)

abbrev reported :
    Envelope → Outcome (List Envelope) × Option Envelope → Outcome (List Envelope) × Option Envelope
reported e (returned es, a) = (returned (e ∷ es), a)
reported e (raised x, a) = (raised x, a)

-- Scopes opened one inside the other, each with an envelope of its own or none, and each reporting
-- the envelope that it activates: those of a chain of emissions in which every handler emits the
-- next message.
pub chain : List (Draw × Option Envelope) → Block (List Envelope)
unfolding scope
chain [] active = (returned [], active)
chain (o ∷ os) active = scope o.0 o.1 (λ e a. reported e (chain os a)) active

-- The envelope of a scope against the one that was active when it was opened: the one that it was
-- passed, or else a new message that the active one is the cause of, or a root where none is active.
abbrev pub Activates : Draw → Option Envelope → Option Envelope → Envelope → Type 0
Activates d (some given) active e = e ≡ given
Activates d none none e =
    (e.message_id ≡ d.id)
    × (e.correlation_id ≡ d.other_id)
    × (e.causation_id ≡ none)
    × (e.timestamp ≡ d.now)
Activates d none (some p) e =
    (e.message_id ≡ d.id)
    × (e.correlation_id ≡ p.correlation_id)
    × (e.causation_id ≡ some p.message_id)
    × (e.timestamp ≡ d.now)

abbrev pub Follows : List (Draw × Option Envelope) → Option Envelope → List Envelope → Type 0
Follows [] active [] = Unit {0}
Follows [] active (e ∷ es) = ⊥
Follows (o ∷ os) active [] = ⊥
Follows (o ∷ os) active (e ∷ es) = Activates o.0 o.1 active e × Follows os (some e) es

pub chosen-Activates :
    (d : Draw) (given active : Option Envelope) → Activates d given active (chosen d given active)
unfolding child root
chosen-Activates d (some g) active = refl
chosen-Activates d none none = (refl, refl, refl, refl)
chosen-Activates d none (some p) = (refl, refl, refl, refl)

-- Of scopes that are opened one inside the other, each that is passed an envelope activates that
-- one, and each that is not a new envelope with the fresh id and the time: a child, caused by the
-- one around it and of its correlation id, or a root if none is active. The envelope that was
-- active is active again at the end.
pub chain-Follows :
    (os : List (Draw × Option Envelope)) (active : Option Envelope)
    → (es : List Envelope) × (chain os active ≡ (returned es, active)) × Follows os active es
unfolding chain
chain-Follows [] active = ([], refl, tt)
chain-Follows (o ∷ os) active =
    let e = chosen o.0 o.1 active in
    let (es, ran, follows) = chain-Follows os (some e) in
    (e ∷ es, rw ran refl, (chosen-Activates o.0 o.1 active, follows))
