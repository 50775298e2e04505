-- ===== src/Serde/Conforming.antt =====
-- What it is for a value to be of a type, independently of how `construct` goes about it; and what
-- adding to a set or a dict keeps of it.
use stratae.Prelude.{
  ℕ, suc, true, false, none, some, [], ◌∷◌, ◌≡◌, refl, Bool-cases, inl, inr, arith, sym, ◌∙◌, subst,
}
use stratae.Serde.Data.{
  list, tuple, set, frozenset, Value, null, array, dict, Values, nil, cons, Entries, end, entry,
  Target, alias, list_of, set_of, frozenset_of, tuple_of_all, tuple_of, union, dict_of, Targets,
  no_more, and, snoc, append, snoc_entry, keys, append-snoc, append-nil,
}
use stratae.Serde.{
  Result, ok, raised, exhausted, ◌>>=◌, Handler, run_handler, World, Handlers, lookup_handler,
  member, add, has_key, replace, put, members,
}

pub >>=-eq-ok :
    {A B : Type 0} (m : Result A) (f : A → Result B) (b : B)
    → (m >>= f) ≡ ok b
    → (a : A) × (m ≡ ok a) × (f a ≡ ok b)
>>=-eq-ok (ok a) f b h = (a, refl, h)
>>=-eq-ok (raised e) f b h = absurd (cc h)
>>=-eq-ok exhausted f b h = absurd (cc h)

pub ok-inj : {A : Type 0} {a b : A} → ok a ≡ ok b → a ≡ b
ok-inj h = cc

-- `Fits t w` is what a handler that is found for `t` says of the value that it makes.
module _ (world : World) (handlers : Handlers) (Fits : Target → Value → Type 0) where
  open world use {hashable, same, alias_value}

  mutual
    -- A value is of a type, within a depth: by the handler that is found, or as the type is built.
    pub data Conforms : ℕ → Target → Value → Type 0 where
      by_handler :
          {n : ℕ} {t : Target} {w : Value} (h : Handler)
          → lookup_handler world handlers t ≡ some h
          → Fits t w
          → Conforms (suc n) t w
      by_origin :
          {n : ℕ} {t : Target} {w : Value}
          → lookup_handler world handlers t ≡ none
          → IsBuilt n t w
          → Conforms (suc n) t w

    pub data IsBuilt : ℕ → Target → Value → Type 0 where
      by_alias : {n a : ℕ} {w : Value} → Conforms n (alias_value a) w → IsBuilt n (alias a) w
      by_list :
          {n : ℕ} {t : Target} {ws : Values}
          → AllConform n t ws
          → IsBuilt n (list_of t) (array list ws)
      by_set :
          {n : ℕ} {t : Target} {ws : Values}
          → SetConforms n t nil ws
          → IsBuilt n (set_of t) (array set ws)
      by_frozenset :
          {n : ℕ} {t : Target} {ws : Values}
          → SetConforms n t nil ws
          → IsBuilt n (frozenset_of t) (array frozenset ws)
      by_tuple_of_all :
          {n : ℕ} {t : Target} {ws : Values}
          → AllConform n t ws
          → IsBuilt n (tuple_of_all t) (array tuple ws)
      by_tuple :
          {n : ℕ} {ts : Targets} {ws : Values}
          → EachConforms n ts ws
          → IsBuilt n (tuple_of ts) (array tuple ws)
      by_null : {n : ℕ} {ts : Targets} → IsBuilt n (union ts) null
      by_member :
          {n : ℕ} {ts : Targets} {w : Value} (t : Target)
          → members ts ≡ t ∷ []
          → Conforms n t w
          → IsBuilt n (union ts) w
      by_dict :
          {n : ℕ} {t u : Target} {es : Entries}
          → EntriesConform n t u nil es
          → IsBuilt n (dict_of t u) (dict es)

    pub data AllConform : ℕ → Target → Values → Type 0 where
      none_left : {n : ℕ} {t : Target} → AllConform n t nil
      one_more :
          {n : ℕ} {t : Target} {w : Value} {ws : Values}
          → Conforms n t w
          → AllConform n t ws
          → AllConform n t (cons w ws)

    -- As many values as types, in order.
    pub data EachConforms : ℕ → Targets → Values → Type 0 where
      no_types : {n : ℕ} → EachConforms n no_more nil
      next_type :
          {n : ℕ} {t : Target} {ts : Targets} {w : Value} {ws : Values}
          → Conforms n t w
          → EachConforms n ts ws
          → EachConforms n (and t ts) (cons w ws)

    -- The members of a set after some others: hashable, and none equal to one before it.
    pub data SetConforms : ℕ → Target → Values → Values → Type 0 where
      no_members : {n : ℕ} {t : Target} {before : Values} → SetConforms n t before nil
      next_member :
          {n : ℕ} {t : Target} {before : Values} {w : Value} {ws : Values}
          → Conforms n t w
          → hashable w ≡ true
          → member world w before ≡ false
          → SetConforms n t (snoc before w) ws
          → SetConforms n t before (cons w ws)

    -- The entries of a dict after some other keys.
    pub data EntriesConform : ℕ → Target → Target → Values → Entries → Type 0 where
      no_entries : {n : ℕ} {t u : Target} {before : Values} → EntriesConform n t u before end
      next_entry :
          {n : ℕ} {t u : Target} {before : Values} {k w : Value} {es : Entries}
          → Conforms n t k
          → Conforms n u w
          → hashable k ≡ true
          → member world k before ≡ false
          → EntriesConform n t u (snoc before k) es
          → EntriesConform n t u before (entry k w es)

  -- The handlers make what fits, and leave alone what does.
  pub record AreFitting : Type 0 where
    pub makes :
        (t : Target) (h : Handler) (v w : Value)
        → lookup_handler world handlers t ≡ some h
        → run_handler h t v ≡ ok w
        → Fits t w
    pub leaves :
        (t : Target) (h : Handler) (w : Value)
        → lookup_handler world handlers t ≡ some h
        → Fits t w
        → run_handler h t w ≡ ok w

  -- A call that makes what conforms, to be used for the parts of a value.
  abbrev pub IsSound : ℕ → (Target → Value → Result Value) → Type 0
  IsSound n rec = (t : Target) (v w : Value) → rec t v ≡ ok w → Conforms n t w

  SetConforms-snoc :
      {n : ℕ} {t : Target} {before : Values} {vs : Values} (w : Value)
      → SetConforms n t before vs
      → Conforms n t w
      → hashable w ≡ true
      → member world w (append before vs) ≡ false
      → SetConforms n t before (snoc vs w)
  SetConforms-snoc {before} w no_members c h m =
      next_member c h (rw (append-nil before) at m) no_members
  SetConforms-snoc {before} w (next_member {w = v} {ws} d k l rest) c h m =
      next_member d k l (SetConforms-snoc w rest c h (rw (append-snoc before v ws) m))

  EntriesConform-snoc :
      {n : ℕ} {t u : Target} {before : Values} {es : Entries} (k w : Value)
      → EntriesConform n t u before es
      → Conforms n t k
      → Conforms n u w
      → hashable k ≡ true
      → member world k (append before (keys es)) ≡ false
      → EntriesConform n t u before (snoc_entry es k w)
  EntriesConform-snoc {before} k w no_entries c d h m =
      next_entry c d h (rw (append-nil before) at m) no_entries
  EntriesConform-snoc {before} k w (next_entry {k = j} {w = v} {es} a b x l rest) c d h m =
      next_entry a b x l
        (EntriesConform-snoc k w rest c d h (rw (append-snoc before j (keys es)) m))

  EntriesConform-replace :
      {n : ℕ} {t u : Target} {before : Values} {es : Entries} (k w : Value)
      → EntriesConform n t u before es
      → Conforms n u w
      → EntriesConform n t u before (replace world k w es)
  EntriesConform-replace k w no_entries d = no_entries
  EntriesConform-replace k w (next_entry {k = j} a b x l rest) d = elim (Bool-cases (same k j)) [
    | inl e ↦ rw e (next_entry a d x l rest)
    | inr e ↦ rw e (next_entry a b x l (EntriesConform-replace k w rest d))
  ]

  pub has_key-member : (k : Value) (es : Entries) → has_key world k es ≡ member world k (keys es)
  has_key-member k end = refl
  has_key-member k (entry j w es) = ground (arith, has_key-member k es)

  pub add-SetConforms :
      (n : ℕ) (t : Target) (w : Value) (vs out : Values)
      → SetConforms n t nil vs
      → Conforms n t w
      → add world w vs ≡ ok out
      → SetConforms n t nil out
  unfolding add
  add-SetConforms n t w vs out h c e = elim (Bool-cases (hashable w)) [
    | inl y ↦ elim (Bool-cases (member world w vs)) [
      | inl m ↦ subst (SetConforms n t nil) (ok-inj (rw (y, m) at e)) h
      | inr m ↦ subst (SetConforms n t nil) (ok-inj (rw (y, m) at e)) (SetConforms-snoc w h c y m)
    ]
    | inr y ↦ absurd (cc (rw y at e))
  ]

  pub put-EntriesConform :
      (n : ℕ) (t u : Target) (k w : Value) (es out : Entries)
      → EntriesConform n t u nil es
      → Conforms n t k
      → Conforms n u w
      → put world k w es ≡ ok out
      → EntriesConform n t u nil out
  unfolding put
  put-EntriesConform n t u k w es out h c d e = elim (Bool-cases (hashable k)) [
    | inl y ↦ elim (Bool-cases (has_key world k es)) [
      | inl m ↦
          subst (EntriesConform n t u nil) (ok-inj (rw (y, m) at e))
            (EntriesConform-replace k w h d)
      | inr m ↦
          subst (EntriesConform n t u nil) (ok-inj (rw (y, m) at e))
            (EntriesConform-snoc k w h c d y (sym (has_key-member k es) ∙ m))
    ]
    | inr y ↦ absurd (cc (rw y at e))
  ]
