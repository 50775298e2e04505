-- ===== src/Serde.antt =====
-- stratae/serde.py: `Deserialize`, from a decoded value on: `construct`, the lookup of handlers, the
-- constructors of generic types, registration; and some of the registered decoders.
-- Handlers may raise. Which values are hashable and equal, what a `type` alias stands for, and the
-- bases of classes are parameters.
pub mod Data
pub mod Conforming
pub mod Soundness
pub mod Again
mod Fuel
mod Finishing
pub mod Termination
pub mod Decoders
mod Tests
use stratae.Prelude.{
  ℕ, zero, suc, Bool, true, false, Option, none, some, List, [], ◌∷◌, if◌then◌else◌,
}
use stratae.Serde.Data.{
  Sequence, list, tuple, set, frozenset, Value, null, boolean, number, text, other, array, dict,
  Values, nil, cons, Entries, end, entry, Target, none_type, class, alias, list_of, set_of,
  frozenset_of, tuple_of_all, tuple_of, union, dict_of, Targets, no_more, and, snoc, snoc_entry,
}

-- The errors: the library's, those of a handler, and the `TypeError` of an unhashable value.
pub data Error : Type 0 where
  deserialization no_deserializer ambiguous_union unhashable : Error
  handler_error : ℕ → Error

-- `exhausted` stands for fuel that ran out.
pub data Result (A : Type 0) : Type 0 where
  ok : A → Result A
  raised : Error → Result A
  exhausted : Result A

infixl 5 ◌>>=◌
abbrev pub ◌>>=◌ : {A B : Type 0} → Result A → (A → Result B) → Result B
ok a >>= f = f a
raised e >>= f = raised e
exhausted >>= f = exhausted

-- What a handler returns or raises.
pub data Decoded : Type 0 where
  decoded : Value → Decoded
  refuses : Error → Decoded

-- A handler, and whether it takes the type.
pub data Handler : Type 0 where
  of_value : (Value → Decoded) → Handler
  of_type : (Value → Target → Decoded) → Handler

abbrev pub result_of : Decoded → Result Value
result_of (decoded w) = ok w
result_of (refuses e) = raised e

-- `handler(value, type_) if takes_type else handler(value)`
abbrev pub run_handler : Handler → Target → Value → Result Value
run_handler (of_value h) t v = result_of (h v)
run_handler (of_type h) t v = result_of (h v t)

-- The program's surroundings: hashing and equality of values, what aliases stand for, the bases of a
-- type without itself, nearest first, and whether it is an enum class.
pub record World : Type 0 where
  pub hashable : Value → Bool
  pub same : Value → Value → Bool
  pub alias_value : ℕ → Target
  pub bases : Target → List ℕ
  pub is_enum : Target → Bool

-- `_handlers`
abbrev pub Handlers : Type 0
Handlers = Target → Option Handler

-- `len(value) == len(args)`
abbrev pub same_length : Targets → Values → Bool
same_length no_more nil = true
same_length no_more (cons v vs) = false
same_length (and t ts) nil = false
same_length (and t ts) (cons v vs) = same_length ts vs

abbrev pub is_none_type : Target → Bool
is_none_type none_type = true
is_none_type t = false

abbrev pub members : Targets → List Target
members no_more = []
members (and t ts) = if is_none_type t then members ts else t ∷ members ts

module _ (world : World) where
  open world use {hashable, same, alias_value, bases, is_enum}

  abbrev pub only_enums : List ℕ → List ℕ
  only_enums [] = []
  only_enums (c ∷ cs) = if is_enum (class c) then c ∷ only_enums cs else only_enums cs

  -- `_dispatch_bases`
  unfoldable pub dispatch_bases : Target → List ℕ
  dispatch_bases t = if is_enum t then only_enums (bases t) else bases t

  abbrev pub or_else : Option Handler → Option Handler → Option Handler
  or_else none o = o
  or_else (some h) o = some h

  unfoldable pub first_handler : Handlers → List ℕ → Option Handler
  first_handler handlers [] = none
  first_handler handlers (c ∷ cs) = or_else (handlers (class c)) (first_handler handlers cs)

  -- `_lookup_handler`
  unfoldable pub lookup_handler : Handlers → Target → Option Handler
  lookup_handler handlers t = or_else (handlers t) (first_handler handlers (dispatch_bases t))

  abbrev pub member : Value → Values → Bool
  member w nil = false
  member w (cons v vs) = if same w v then true else member w vs

  -- `set.add`
  unfoldable pub add : Value → Values → Result Values
  add w vs = if hashable w then ok (if member w vs then vs else snoc vs w) else raised unhashable

  abbrev pub has_key : Value → Entries → Bool
  has_key k end = false
  has_key k (entry j w es) = if same k j then true else has_key k es

  abbrev pub replace : Value → Value → Entries → Entries
  replace k v end = end
  replace k v (entry j w es) = if same k j then entry j v es else entry j w (replace k v es)

  -- `dict[k] = v`, which keeps the key that is there.
  unfoldable pub put : Value → Value → Entries → Result Entries
  put k v es =
      if hashable k
      then ok (if has_key k es then replace k v es else snoc_entry es k v)
      else raised unhashable

  module _ (rec : Target → Value → Result Value) where
    unfoldable pub each : Target → Values → Result Values
    each t nil = ok nil
    each t (cons v vs) = do w ← rec t v; ws ← each t vs; ok (cons w ws)

    unfoldable pub collect : Target → Values → Values → Result Values
    collect t nil acc = ok acc
    collect t (cons v vs) acc = do w ← rec t v; acc' ← add w acc; collect t vs acc'

    unfoldable pub zipped : Targets → Values → Result Values
    zipped no_more vs = ok nil
    zipped (and t ts) nil = ok nil
    zipped (and t ts) (cons v vs) = do w ← rec t v; ws ← zipped ts vs; ok (cons w ws)

    unfoldable pub collect_entries : Target → Target → Entries → Entries → Result Entries
    collect_entries t u end acc = ok acc
    collect_entries t u (entry k v es) acc = do
      j ← rec t k
      w ← rec u v
      acc' ← put j w acc
      collect_entries t u es acc'

    -- `_construct_list`, `_construct_set`, `_construct_frozenset`, `_construct_tuple` and
    -- `_construct_dict`, of a value that they take.
    abbrev pub construct_list : Target → Value → Result Value
    construct_list t (array kind vs) = do ws ← each t vs; ok (array list ws)
    construct_list t v = raised deserialization

    abbrev pub construct_set : Sequence → Target → Value → Result Value
    construct_set into t (array kind vs) = do ws ← collect t vs nil; ok (array into ws)
    construct_set into t v = raised deserialization

    abbrev pub construct_tuple : Target → Value → Result Value
    construct_tuple t (array kind vs) = do ws ← each t vs; ok (array tuple ws)
    construct_tuple t v = raised deserialization

    abbrev pub construct_fixed_tuple : Targets → Value → Result Value
    construct_fixed_tuple ts (array kind vs) =
        if same_length ts vs
        then (do ws ← zipped ts vs; ok (array tuple ws))
        else raised deserialization
    construct_fixed_tuple ts v = raised deserialization

    abbrev pub construct_dict : Target → Target → Value → Result Value
    construct_dict t u (dict es) = do es' ← collect_entries t u es end; ok (dict es')
    construct_dict t u v = raised deserialization

    abbrev pub construct_member : List Target → Value → Result Value
    construct_member [] v = raised ambiguous_union
    construct_member (t ∷ []) v = rec t v
    construct_member (t ∷ u ∷ ts) v = raised ambiguous_union

    -- `_construct_union`
    abbrev pub construct_union : Targets → Value → Result Value
    construct_union ts null = ok null
    construct_union ts v = construct_member (members ts) v

    -- `construct`, once no handler has been found.
    unfoldable pub construct_origin : Target → Value → Result Value
    construct_origin none_type v = raised no_deserializer
    construct_origin (class c) v = raised no_deserializer
    construct_origin (alias a) v = rec (alias_value a) v
    construct_origin (list_of t) v = construct_list t v
    construct_origin (set_of t) v = construct_set set t v
    construct_origin (frozenset_of t) v = construct_set frozenset t v
    construct_origin (tuple_of_all t) v = construct_tuple t v
    construct_origin (tuple_of ts) v = construct_fixed_tuple ts v
    construct_origin (union ts) v = construct_union ts v
    construct_origin (dict_of t u) v = construct_dict t u v

    abbrev pub on_handler : Option Handler → Target → Value → Result Value
    on_handler none t v = construct_origin t v
    on_handler (some h) t v = run_handler h t v

  -- `construct`, on fuel for the depth of its recursion.
  unfoldable pub construct : Handlers → ℕ → Target → Value → Result Value
  construct handlers zero t v = exhausted
  construct handlers (suc fuel) t v =
      on_handler (construct handlers fuel) (lookup_handler handlers t) t v
