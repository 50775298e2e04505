-- ===== src/Context.antt =====
-- stratae/context.py: `Context`, over the value of its context variable, and `_ContextScope`.
pub mod Uses
mod Tests
use stratae.Prelude.{Option, none, some, List, [], ◌∷◌}
use stratae.Python.{Outcome}

-- What `default` may be: left out, `IGNORE_DEFAULT`, or a value.
pub data Default (V : Type 0) : Type 0 where
  no_default ignore_default : Default V
  default : V → Default V

module _ {V : Type 0} where
  -- `Context.__init__`: `none` is the `IgnoreDefaultError`.
  unfoldable pub init : Default V → Option (Default V)
  init ignore_default = none
  init no_default = some no_default
  init (default v) = some (default v)

  -- The default that a read falls back on.
  abbrev pub chosen : Default V → Default V → Default V
  chosen constructed no_default = constructed
  chosen constructed ignore_default = ignore_default
  chosen constructed (default v) = default v

  -- `Context.get`, also a call: `none` is the `ContextNotSetError`.
  abbrev pub get_from : Default V → Option V → Option V
  get_from given (some v) = some v
  get_from no_default none = none
  get_from ignore_default none = none
  get_from (default v) none = some v

  unfoldable pub get : Default V → Default V → Option V → Option V
  get constructed given var = get_from (chosen constructed given) var

  -- `Context.set`: the token holds what the variable held.
  abbrev pub set : V → Option V → Option V × Option V
  set v var = (var, some v)

  -- `Context.reset`
  abbrev pub reset : Option V → Option V → Option V
  reset token var = token

  -- `with context.use(value): body`. The body gets the variable, and leaves it with a result.
  unfoldable pub use_value :
      {R : Type 0} → V → (Option V → Outcome R × Option V) → Option V → Outcome R × Option V
  use_value v body var =
      let entered = set v var in let left = body entered.1 in (left.0, reset entered.0 left.1)
