-- ===== src/Depends/Overriding.antt =====
-- stratae/depends/_provide.py: `Provider`, and stratae/depends/overriding.py: `_Override` and
-- `_Overrides`. A dependency's call is the value that it gives; that an override of an asynchronous
-- dependency is wrapped to be awaited is left out. Contexts are numbers.
pub mod Restoring
use stratae.Prelude.{
  ℕ, ◌+◌, ◌-◌, Bool, true, false, Option, none, some, List, [], ◌∷◌, ◌==◌, if◌then◌else◌,
}

-- `overridden` tells that `provide` is `provide_override`, and not the dependency itself;
-- `override context` is what the context variable holds there.
pub record Provider (V : Type 0) : Type 0 where
  pub dependency : V
  pub overridden : Bool
  pub override : ℕ → Option V
  pub override_count : ℕ

-- The providers, by number.
abbrev pub Providers : Type 0 → Type 0
Providers V = ℕ → Provider V

module _ {V : Type 0} where
  -- `Provider.__new__`, of a dependency that has no provider yet.
  unfoldable pub new_provider : V → Provider V
  new_provider dependency = record {
    dependency = dependency;
    overridden = false;
    override = λ c. none;
    override_count = 0;
  }

  abbrev pub or_dependency : V → Option V → V
  or_dependency dependency none = dependency
  or_dependency dependency (some v) = v

  -- `provide_override`
  abbrev pub provide_override : ℕ → Provider V → V
  provide_override context p = or_dependency p.dependency (p.override context)

  -- `provider.provide()`, in a context.
  unfoldable pub provide : ℕ → Provider V → V
  provide context p = if p.overridden then provide_override context p else p.dependency

  -- `update`
  unfoldable pub update : V → Provider V → Provider V
  update dependency p = record p {
    dependency = dependency;
    overridden = if p.override_count == 0 then false else p.overridden;
  }

  abbrev pub set_in : ℕ → Option V → (ℕ → Option V) → ℕ → Option V
  set_in context v override c = if c == context then v else override c

  -- `_Override.__enter__`, but for the token, which is the context and what its variable held.
  unfoldable pub enter_override : ℕ → V → Provider V → Provider V
  enter_override context v p = record p {
    overridden = if p.override_count == 0 then true else p.overridden;
    override = set_in context (some v) p.override;
    override_count = p.override_count + 1;
  }

  -- The `finally` clause of `_Override.__exit__`.
  abbrev pub uncount : Provider V → Provider V
  uncount p = record p {
    overridden = if p.override_count - 1 == 0 then false else p.overridden;
    override_count = p.override_count - 1;
  }

  -- `_Override.__exit__`, in a context, with the last token: whether the reset raised, as it does
  -- in another context than the token's, and the provider.
  unfoldable pub exit_override : ℕ → ℕ × Option V → Provider V → Bool × Provider V
  exit_override context (set_at, held) p =
      if set_at == context
      then (false, uncount (record p { override = set_in context held p.override }))
      else (true, uncount p)

  abbrev pub put : ℕ → Provider V → Providers V → Providers V
  put i p ps k = if k == i then p else ps k

  -- `_Overrides.__enter__`: the tokens taken, the last one first, with their providers.
  unfoldable pub enter_all :
      ℕ → List (ℕ × V) → List (ℕ × Option V) → Providers V → List (ℕ × Option V) × Providers V
  enter_all context [] tokens ps = (tokens, ps)
  enter_all context (item ∷ items) tokens ps =
      enter_all context items ((item.0, (ps item.0).override context) ∷ tokens)
        (put item.0 (enter_override context item.1 (ps item.0)) ps)

  -- `_Overrides.__exit__`, in the context of the entry.
  unfoldable pub exit_all : ℕ → List (ℕ × Option V) → Providers V → Providers V
  exit_all context [] ps = ps
  exit_all context (token ∷ tokens) ps =
      exit_all context tokens
        (put token.0 (exit_override context (context, token.1) (ps token.0)).1 ps)
