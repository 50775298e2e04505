-- ===== src/Serde/Decoders.antt =====
-- stratae/serde.py: some of the decoders that are registered from the start, for `None`, str, bool,
-- list, tuple and dict. Lower case and the texts "true" and "false" are parameters.
use stratae.Prelude.{
  ℕ, Bool, true, false, Option, none, some, [], ◌==◌, ◌≡◌, refl, sym, ◌∙◌, ap, if◌then◌else◌,
  Bool-cases, inl, inr, some_inj, subst,
}
use stratae.Serde.Data.{
  Sequence, list, tuple, Value, null, boolean, text, array, dict, Target, none_type, class,
}
use stratae.Serde.{
  deserialization, ok, Decoded, decoded, refuses, Handler, of_value, result_of, run_handler, World,
  Handlers, dispatch_bases, first_handler, lookup_handler, or_else,
}
use stratae.Serde.Conforming.{AreFitting, ok-inj}

-- How the decoder of bools reads texts.
pub record Words : Type 0 where
  pub lower : ℕ → ℕ
  pub true_word : ℕ
  pub false_word : ℕ

abbrev pub decode_str : Value → Decoded
decode_str (text s) = decoded (text s)
decode_str v = refuses deserialization

abbrev pub decode_bool : Words → Value → Decoded
decode_bool words (boolean b) = decoded (boolean b)
decode_bool words (text s) =
    if words.lower s == words.true_word
    then decoded (boolean true)
    else if words.lower s == words.false_word
    then decoded (boolean false)
    else refuses deserialization
decode_bool words v = refuses deserialization

abbrev pub decode_none : Value → Decoded
decode_none null = decoded null
decode_none v = refuses deserialization

abbrev pub decode_dict : Value → Decoded
decode_dict (dict es) = decoded (dict es)
decode_dict v = refuses deserialization

abbrev pub decode_list : Value → Decoded
decode_list (array kind vs) = decoded (array list vs)
decode_list v = refuses deserialization

abbrev pub decode_tuple : Value → Decoded
decode_tuple (array kind vs) = decoded (array tuple vs)
decode_tuple v = refuses deserialization

-- The classes, by number.
abbrev pub class_handler : Words → ℕ → Option Handler
class_handler words c =
    if c == 1
    then some (of_value decode_str)
    else if c == 2
    then some (of_value (decode_bool words))
    else if c == 3
    then some (of_value decode_list)
    else if c == 4
    then some (of_value decode_tuple)
    else if c == 5
    then some (of_value decode_dict)
    else none

abbrev pub builtin : Words → Handlers
builtin words none_type = some (of_value decode_none)
builtin words (class c) = class_handler words c
builtin words t = none

abbrev pub is_text : Value → Bool
is_text (text s) = true
is_text v = false

abbrev pub is_boolean : Value → Bool
is_boolean (boolean b) = true
is_boolean v = false

abbrev pub is_null : Value → Bool
is_null null = true
is_null v = false

abbrev pub is_array : Sequence → Value → Bool
is_array list (array list vs) = true
is_array tuple (array tuple vs) = true
is_array kind v = false

abbrev pub is_dict : Value → Bool
is_dict (dict es) = true
is_dict v = false

abbrev pub is_instance : Target → Value → Bool
is_instance none_type v = is_null v
is_instance (class c) v =
    if c == 1
    then is_text v
    else if c == 2
    then is_boolean v
    else if c == 3
    then is_array list v
    else if c == 4
    then is_array tuple v
    else if c == 5
    then is_dict v
    else false
is_instance t v = false

abbrev pub IsInstance : Target → Value → Type 0
IsInstance t v = is_instance t v ≡ true

-- A handler makes what a test accepts, and leaves that alone.
abbrev FitsTest : (Value → Bool) → Handler → Type 0
FitsTest p h =
    ((t : Target) (v w : Value) → run_handler h t v ≡ ok w → p w ≡ true)
    × ((t : Target) (w : Value) → p w ≡ true → run_handler h t w ≡ ok w)

decode_str-FitsTest : FitsTest is_text (of_value decode_str)
decode_str-FitsTest = (λ t v w e. made v w e, λ t w e. left w e)
  where
    made : (v w : Value) → result_of (decode_str v) ≡ ok w → is_text w ≡ true
    made (text s) w e = ap is_text (sym (ok-inj e))
    made v w e = absurd (cc e)

    left : (w : Value) → is_text w ≡ true → result_of (decode_str w) ≡ ok w
    left (text s) e = refl
    left w e = absurd (cc e)

decode_bool-FitsTest : (words : Words) → FitsTest is_boolean (of_value (decode_bool words))
decode_bool-FitsTest words = (λ t v w e. made v w e, λ t w e. left w e)
  where
    made : (v w : Value) → result_of (decode_bool words v) ≡ ok w → is_boolean w ≡ true
    made (boolean b) w e = ap is_boolean (sym (ok-inj e))
    made (text s) w e = elim (Bool-cases (words.lower s == words.true_word)) [
      | inl a ↦ ap is_boolean (sym (ok-inj (rw a at e)))
      | inr a ↦ elim (Bool-cases (words.lower s == words.false_word)) [
        | inl b ↦ ap is_boolean (sym (ok-inj (rw (a, b) at e)))
        | inr b ↦ absurd (cc (rw (a, b) at e))
      ]
    ]
    made v w e = absurd (cc e)

    left : (w : Value) → is_boolean w ≡ true → result_of (decode_bool words w) ≡ ok w
    left (boolean b) e = refl
    left w e = absurd (cc e)

decode_none-FitsTest : FitsTest is_null (of_value decode_none)
decode_none-FitsTest = (λ t v w e. made v w e, λ t w e. left w e)
  where
    made : (v w : Value) → result_of (decode_none v) ≡ ok w → is_null w ≡ true
    made null w e = ap is_null (sym (ok-inj e))
    made v w e = absurd (cc e)

    left : (w : Value) → is_null w ≡ true → result_of (decode_none w) ≡ ok w
    left null e = refl
    left w e = absurd (cc e)

decode_dict-FitsTest : FitsTest is_dict (of_value decode_dict)
decode_dict-FitsTest = (λ t v w e. made v w e, λ t w e. left w e)
  where
    made : (v w : Value) → result_of (decode_dict v) ≡ ok w → is_dict w ≡ true
    made (dict es) w e = ap is_dict (sym (ok-inj e))
    made v w e = absurd (cc e)

    left : (w : Value) → is_dict w ≡ true → result_of (decode_dict w) ≡ ok w
    left (dict es) e = refl
    left w e = absurd (cc e)

decode_list-FitsTest : FitsTest (is_array list) (of_value decode_list)
decode_list-FitsTest = (λ t v w e. made v w e, λ t w e. left w e)
  where
    made : (v w : Value) → result_of (decode_list v) ≡ ok w → is_array list w ≡ true
    made (array kind vs) w e = ap (is_array list) (sym (ok-inj e))
    made v w e = absurd (cc e)

    left : (w : Value) → is_array list w ≡ true → result_of (decode_list w) ≡ ok w
    left (array list vs) e = refl
    left w e = absurd (cc e)

decode_tuple-FitsTest : FitsTest (is_array tuple) (of_value decode_tuple)
decode_tuple-FitsTest = (λ t v w e. made v w e, λ t w e. left w e)
  where
    made : (v w : Value) → result_of (decode_tuple v) ≡ ok w → is_array tuple w ≡ true
    made (array kind vs) w e = ap (is_array tuple) (sym (ok-inj e))
    made v w e = absurd (cc e)

    left : (w : Value) → is_array tuple w ≡ true → result_of (decode_tuple w) ≡ ok w
    left (array tuple vs) e = refl
    left w e = absurd (cc e)

FitsTest-if :
    (b : Bool) (h : Handler) (p : Value → Bool) (o : Option Handler) (q : Value → Bool)
    → FitsTest p h
    → ((g : Handler) → o ≡ some g → FitsTest q g)
    → (g : Handler) → (if b then some h else o) ≡ some g
    → FitsTest (λ v. if b then p v else q v) g
FitsTest-if true h p o q f k g e = subst (FitsTest p) (some_inj e) f
FitsTest-if false h p o q f k g e = k g e

class-FitsTest :
    (words : Words) (c : ℕ) (h : Handler)
    → class_handler words c ≡ some h
    → FitsTest (is_instance (class c)) h
class-FitsTest words c = FitsTest-if (c == 1) _ is_text _ _ decode_str-FitsTest (
    FitsTest-if (c == 2) _ is_boolean _ _ (decode_bool-FitsTest words) (
      FitsTest-if (c == 3) _ (is_array list) _ _ decode_list-FitsTest (
        FitsTest-if (c == 4) _ (is_array tuple) _ _ decode_tuple-FitsTest (
          FitsTest-if (c == 5) _ is_dict none (λ v. false) decode_dict-FitsTest
            (λ g e. absurd (cc e))))))

builtin-FitsTest :
    (words : Words) (t : Target) (h : Handler)
    → builtin words t ≡ some h
    → FitsTest (is_instance t) h
builtin-FitsTest words none_type h e = subst (FitsTest is_null) (some_inj e) decode_none-FitsTest
builtin-FitsTest words (class c) h e = class-FitsTest words c h e
builtin-FitsTest words t h e = absurd (cc e)

module _ (world : World) (words : Words)
    (no_bases : (t : Target) → dispatch_bases world t ≡ []) where
  lookup_handler-builtin : (t : Target) → lookup_handler world (builtin words) t ≡ builtin words t
  unfolding lookup_handler first_handler
  lookup_handler-builtin t = rw (no_bases t) (or_none (builtin words t))
    where
      or_none : (o : Option Handler) → or_else world o none ≡ o
      or_none none = refl
      or_none (some h) = refl

  -- Without other classes the decoders make instances of the classes that they are registered for,
  -- and leave such instances alone.
  pub builtin-AreFitting : AreFitting world (builtin words) IsInstance
  builtin-AreFitting = record {
    makes =
        λ t h v w l e. (builtin-FitsTest words t h (sym (lookup_handler-builtin t) ∙ l)).0 t v w e;
    leaves = λ t h w l f. (builtin-FitsTest words t h (sym (lookup_handler-builtin t) ∙ l)).1 t w f;
  }
