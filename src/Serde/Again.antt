-- ===== src/Serde/Again.antt =====
-- A value that is of a type already is left alone by `construct`.
use stratae.Prelude.{ℕ, true, false, [], ◌∷◌, ◌≡◌, refl, ◌∙◌, ap}
use stratae.Serde.Data.{
  tuple, Value, null, boolean, number, text, other, array, dict, Values, Entries, end, Target,
  Targets, snoc, append, snoc_entry, append_entries, keys, append-snoc, append-nil,
  append_entries-snoc, append_entries-end, keys-snoc,
}
use stratae.Serde.{
  ok, World, Handlers, member, add, has_key, put, same_length, members, each, collect, zipped,
  collect_entries, construct_fixed_tuple, construct_union, construct_origin, construct,
}
use stratae.Serde.Conforming.{
  Conforms, by_handler, by_origin, IsBuilt, by_alias, by_list, by_set, by_frozenset,
  by_tuple_of_all, by_tuple, by_null, by_member, by_dict, AllConform, none_left, one_more,
  EachConforms, no_types, next_type, SetConforms, no_members, next_member, EntriesConform,
  no_entries, next_entry, AreFitting, has_key-member,
}
use stratae.Serde.Soundness.{construct-IsSound}

module _ (world : World) (handlers : Handlers) (Fits : Target → Value → Type 0)
    (fitting : AreFitting world handlers Fits) where
  open world use {hashable, same, alias_value}

  abbrev Again : ℕ → Target → Value → Type 0
  Again n t w = construct world handlers n t w ≡ ok w

  union-Again :
      (n : ℕ) (ts : Targets) (t : Target) (w : Value)
      → members ts ≡ t ∷ []
      → Again n t w
      → construct_union world (construct world handlers n) ts w ≡ ok w
  union-Again n ts t null m e = refl
  union-Again n ts t (boolean b) m e = rw m e
  union-Again n ts t (number k) m e = rw m e
  union-Again n ts t (text k) m e = rw m e
  union-Again n ts t (other k) m e = rw m e
  union-Again n ts t (array kind vs) m e = rw m e
  union-Again n ts t (dict es) m e = rw m e

  add_new :
      (w : Value) (vs : Values)
      → hashable w ≡ true
      → member world w vs ≡ false
      → add world w vs ≡ ok (snoc vs w)
  unfolding add
  add_new w vs h m = rw (h, m)

  put_new :
      (k w : Value) (es : Entries)
      → hashable k ≡ true
      → has_key world k es ≡ false
      → put world k w es ≡ ok (snoc_entry es k w)
  unfolding put
  put_new k w es h m = rw (h, m)

  fixed_tuple_again :
      (n : ℕ) (ts : Targets) (ws : Values)
      → same_length ts ws ≡ true
      → zipped world (construct world handlers n) ts ws ≡ ok ws
      → construct_fixed_tuple world (construct world handlers n) ts (array tuple ws)
        ≡ ok (array tuple ws)
  fixed_tuple_again n ts ws l e = rw (l, e)

  lengths :
      {n : ℕ} {ts : Targets} {ws : Values}
      → EachConforms world handlers Fits n ts ws
      → same_length ts ws ≡ true
  lengths no_types = refl
  lengths (next_type c rest) = lengths rest

  mutual
    unfolding construct construct_origin each zipped collect collect_entries

    Conforms-Again :
        {n : ℕ} {t : Target} {w : Value} → Conforms world handlers Fits n t w → Again n t w
    Conforms-Again {t} {w} (by_handler h l f) = rw l (fitting.leaves t h w l f)
    Conforms-Again (by_origin l b) = rw l (built_again b)

    built_again :
        {n : ℕ} {t : Target} {w : Value}
        → IsBuilt world handlers Fits n t w
        → construct_origin world (construct world handlers n) t w ≡ ok w
    built_again (by_alias c) = Conforms-Again c
    built_again (by_list a) = rw (all_again a)
    built_again (by_set {ws} s) = rw (set_again s)
    built_again (by_frozenset {ws} s) = rw (set_again s)
    built_again (by_tuple_of_all a) = rw (all_again a)
    built_again {n} (by_tuple {ts} {ws} a) = fixed_tuple_again n ts ws (lengths a) (each_again a)
    built_again by_null = refl
    built_again {n} (by_member {ts} {w} t m c) = union-Again n ts t w m (Conforms-Again c)
    built_again (by_dict {es} s) = rw (entries_again end s refl)

    all_again :
        {n : ℕ} {t : Target} {ws : Values}
        → AllConform world handlers Fits n t ws
        → each world (construct world handlers n) t ws ≡ ok ws
    all_again none_left = refl
    all_again (one_more c rest) = rw (Conforms-Again c, all_again rest)

    each_again :
        {n : ℕ} {ts : Targets} {ws : Values}
        → EachConforms world handlers Fits n ts ws
        → zipped world (construct world handlers n) ts ws ≡ ok ws
    each_again no_types = refl
    each_again (next_type c rest) = rw (Conforms-Again c, each_again rest)

    set_again :
        {n : ℕ} {t : Target} {before ws : Values}
        → SetConforms world handlers Fits n t before ws
        → collect world (construct world handlers n) t ws before ≡ ok (append before ws)
    set_again {before} no_members = rw (append-nil before)
    set_again {before} (next_member {w} {ws} c h m rest) =
        rw (Conforms-Again c, add_new w before h m, set_again rest, append-snoc before w ws)

    entries_again :
        {n : ℕ} {t u : Target} {before : Values} {es : Entries} (acc : Entries)
        → EntriesConform world handlers Fits n t u before es
        → keys acc ≡ before
        → collect_entries world (construct world handlers n) t u es acc ≡ ok (append_entries acc es)
    entries_again acc no_entries e = rw (append_entries-end acc)
    entries_again acc (next_entry {k} {w} {es} c d h m rest) e = rw (
      Conforms-Again c,
      Conforms-Again d,
      put_new k w acc h (has_key-member world handlers Fits k acc ∙ ap (member world k) e ∙ m),
      entries_again (snoc_entry acc k w) rest
          (keys-snoc acc k w ∙ ap (λ (vs : Values). snoc vs k) e),
      append_entries-snoc acc k w es,
    )

  -- If the handlers make what fits their types and leave alone what does, then whatever is
  -- constructed is of the type that it was asked for, down to the elements of its containers, with no
  -- element or key twice; and constructing it again gives it back.
  pub construct-Conforms :
      (n : ℕ) (t : Target) (v w : Value)
      → construct world handlers n t v ≡ ok w
      → Conforms world handlers Fits n t w × (construct world handlers n t w ≡ ok w)
  construct-Conforms n t v w e =
      let c = construct-IsSound world handlers Fits fitting n t v w e in (c, Conforms-Again c)
