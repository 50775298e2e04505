-- ===== src/Context/Uses.antt =====
-- Which value a read sees inside nested uses.
use stratae.Prelude.{Option, none, some, List, [], ◌∷◌, ◌≡◌, refl, ap}
use stratae.Python.{Outcome, returned}
use stratae.Context.{Default, no_default, ignore_default, default, get, use_value}

module _ {V : Type 0} where
  -- `with context.use(v): with context.use(w): … context.get(given)`
  unfoldable pub read_inside :
      Default V → Default V → List V → Option V → Outcome (Option V) × Option V
  read_inside constructed given [] var = (returned (get constructed given var), var)
  read_inside constructed given (v ∷ vs) var = use_value v (read_inside constructed given vs) var

  -- The last of the values, or what the variable held.
  abbrev pub innermost : List V → Option V → Option V
  innermost [] var = var
  innermost (v ∷ vs) var = innermost vs (some v)

  -- The default that applies to a read, if any: the read's own; else the constructor's, unless the
  -- read ignores it.
  abbrev pub applicable : Default V → Default V → Option V
  applicable (default v) constructed = some v
  applicable ignore_default constructed = none
  applicable no_default (default v) = some v
  applicable no_default no_default = none
  applicable no_default ignore_default = none

  abbrev pub or_else : Option V → Option V → Option V
  or_else (some v) d = some v
  or_else none d = d

  get-applicable :
      (constructed given : Default V) (var : Option V)
      → get constructed given var ≡ or_else var (applicable given constructed)
  unfolding get
  get-applicable no_default no_default none = refl
  get-applicable ignore_default no_default none = refl
  get-applicable (default v) no_default none = refl
  get-applicable c ignore_default none = refl
  get-applicable c (default w) none = refl
  get-applicable no_default no_default (some u) = refl
  get-applicable ignore_default no_default (some u) = refl
  get-applicable (default v) no_default (some u) = refl
  get-applicable c ignore_default (some u) = refl
  get-applicable c (default w) (some u) = refl

  -- A read inside nested uses gives the innermost value, or what the variable held around them,
  -- or the read's default, or the constructor's unless the read ignores it, and fails else; the
  -- variable holds afterwards what it held before.
  pub read_inside-innermost :
      (constructed given : Default V) (vs : List V) (var : Option V)
      → read_inside constructed given vs var
        ≡ (returned (or_else (innermost vs var) (applicable given constructed)), var)
  unfolding read_inside use_value
  read_inside-innermost constructed given [] var =
      ap (λ o. (returned o, var)) (get-applicable constructed given var)
  read_inside-innermost constructed given (v ∷ vs) var =
      rw (read_inside-innermost constructed given vs (some v)) refl
