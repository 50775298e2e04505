-- ===== src/Serde/Data.antt =====
-- What json.loads decodes to, and what handlers make of it; and the types that it is made into.
use stratae.Prelude.{ℕ, Bool, ◌≡◌, refl, ap}

-- Which of Python's sequences and sets an array is.
pub data Sequence : Type 0 where
  list tuple set frozenset : Sequence

-- Numbers, texts and objects of other classes stand by number.
mutual
  pub data Value : Type 0 where
    null : Value
    boolean : Bool → Value
    number text other : ℕ → Value
    array : Sequence → Values → Value
    dict : Entries → Value

  pub data Values : Type 0 where
    nil : Values
    cons : Value → Values → Values

  pub data Entries : Type 0 where
    end : Entries
    entry : Value → Value → Entries → Entries

-- A class, `NoneType`, a `type` alias, or a generic type with its arguments; `tuple_of_all T` is
-- `tuple[T, ...]`.
mutual
  pub data Target : Type 0 where
    none_type : Target
    class alias : ℕ → Target
    list_of set_of frozenset_of tuple_of_all : Target → Target
    tuple_of union : Targets → Target
    dict_of : Target → Target → Target

  pub data Targets : Type 0 where
    no_more : Targets
    and : Target → Targets → Targets

abbrev pub snoc : Values → Value → Values
snoc nil w = cons w nil
snoc (cons v vs) w = cons v (snoc vs w)

abbrev pub append : Values → Values → Values
append nil ws = ws
append (cons v vs) ws = cons v (append vs ws)

abbrev pub snoc_entry : Entries → Value → Value → Entries
snoc_entry end k v = entry k v end
snoc_entry (entry j w es) k v = entry j w (snoc_entry es k v)

abbrev pub append_entries : Entries → Entries → Entries
append_entries end fs = fs
append_entries (entry k v es) fs = entry k v (append_entries es fs)

abbrev pub keys : Entries → Values
keys end = nil
keys (entry k v es) = cons k (keys es)

pub append-snoc :
    (vs : Values) (w : Value) (ws : Values) → append (snoc vs w) ws ≡ append vs (cons w ws)
append-snoc nil w ws = refl
append-snoc (cons v vs) w ws = ap (cons v) (append-snoc vs w ws)

pub append-nil : (vs : Values) → append vs nil ≡ vs
append-nil nil = refl
append-nil (cons v vs) = ap (cons v) (append-nil vs)

pub append_entries-snoc :
    (es : Entries) (k v : Value) (fs : Entries)
    → append_entries (snoc_entry es k v) fs ≡ append_entries es (entry k v fs)
append_entries-snoc end k v fs = refl
append_entries-snoc (entry j w es) k v fs = ap (entry j w) (append_entries-snoc es k v fs)

pub append_entries-end : (es : Entries) → append_entries es end ≡ es
append_entries-end end = refl
append_entries-end (entry k v es) = ap (entry k v) (append_entries-end es)

pub keys-snoc : (es : Entries) (k v : Value) → keys (snoc_entry es k v) ≡ snoc (keys es) k
keys-snoc end k v = refl
keys-snoc (entry j w es) k v = ap (cons j) (keys-snoc es k v)
