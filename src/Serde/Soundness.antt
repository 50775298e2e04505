-- ===== src/Serde/Soundness.antt =====
-- What `construct` makes is of the type that it was asked for, if the handlers make what fits theirs.
use stratae.Prelude.{
  ℕ, zero, suc, true, Option, none, some, List, [], ◌∷◌, ◌≡◌, refl, Bool-cases, inl, inr, sym,
  subst,
}
use stratae.Serde.Data.{
  Sequence, set, frozenset, Value, null, array, dict, Values, nil, cons, Entries, end, entry,
  Target, none_type, class, alias, list_of, set_of, frozenset_of, tuple_of_all, tuple_of, union,
  dict_of, Targets, no_more, and,
}
use stratae.Serde.{
  Result, ok, Handler, World, Handlers, lookup_handler, add, put, same_length, members, each,
  collect, zipped, collect_entries, construct_list, construct_set, construct_tuple,
  construct_fixed_tuple, construct_dict, construct_member, construct_union, construct_origin,
  on_handler, construct,
}
use stratae.Serde.Conforming.{
  >>=-eq-ok, ok-inj, Conforms, by_handler, by_origin, IsBuilt, by_alias, by_list, by_set,
  by_frozenset, by_tuple_of_all, by_tuple, by_null, by_member, by_dict, AllConform, none_left,
  one_more, EachConforms, no_types, next_type, SetConforms, no_members, EntriesConform, no_entries,
  AreFitting, IsSound, add-SetConforms, put-EntriesConform,
}

module _ (world : World) (handlers : Handlers) (Fits : Target → Value → Type 0) where
  open world use {hashable, same, alias_value}

  module _ (n : ℕ) (rec : Target → Value → Result Value)
      (sound : IsSound world handlers Fits n rec) where
    each-AllConform :
        (t : Target) (vs ws : Values)
        → each world rec t vs ≡ ok ws
        → AllConform world handlers Fits n t ws
    unfolding each
    each-AllConform t nil ws e = subst (AllConform world handlers Fits n t) (ok-inj e) none_left
    each-AllConform t (cons v vs) ws e =
        let (w, made, e') = >>=-eq-ok (rec t v) _ ws e in
        let (us, rest, e'') = >>=-eq-ok (each world rec t vs) _ ws e' in
        subst (AllConform world handlers Fits n t) (ok-inj e'')
          (one_more (sound t v w made) (each-AllConform t vs us rest))

    collect-SetConforms :
        (t : Target) (vs acc ws : Values)
        → SetConforms world handlers Fits n t nil acc
        → collect world rec t vs acc ≡ ok ws
        → SetConforms world handlers Fits n t nil ws
    unfolding collect
    collect-SetConforms t nil acc ws h e =
        subst (SetConforms world handlers Fits n t nil) (ok-inj e) h
    collect-SetConforms t (cons v vs) acc ws h e =
        let (w, made, e') = >>=-eq-ok (rec t v) _ ws e in
        let (us, added, rest) = >>=-eq-ok (add world w acc) _ ws e' in
        collect-SetConforms t vs us ws
          (add-SetConforms world handlers Fits n t w acc us h (sound t v w made) added) rest

    zipped-EachConforms :
        (ts : Targets) (vs ws : Values)
        → same_length ts vs ≡ true
        → zipped world rec ts vs ≡ ok ws
        → EachConforms world handlers Fits n ts ws
    unfolding zipped
    zipped-EachConforms no_more vs ws l e =
        subst (EachConforms world handlers Fits n no_more) (ok-inj e) no_types
    zipped-EachConforms (and t ts) nil ws l e = absurd (cc l)
    zipped-EachConforms (and t ts) (cons v vs) ws l e =
        let (w, made, e') = >>=-eq-ok (rec t v) _ ws e in
        let (us, rest, e'') = >>=-eq-ok (zipped world rec ts vs) _ ws e' in
        subst (EachConforms world handlers Fits n (and t ts)) (ok-inj e'')
          (next_type (sound t v w made) (zipped-EachConforms ts vs us l rest))

    collect_entries-EntriesConform :
        (t u : Target) (es acc out : Entries)
        → EntriesConform world handlers Fits n t u nil acc
        → collect_entries world rec t u es acc ≡ ok out
        → EntriesConform world handlers Fits n t u nil out
    unfolding collect_entries
    collect_entries-EntriesConform t u end acc out h e =
        subst (EntriesConform world handlers Fits n t u nil) (ok-inj e) h
    collect_entries-EntriesConform t u (entry k v es) acc out h e =
        let (j, key, e') = >>=-eq-ok (rec t k) _ out e in
        let (w, made, e'') = >>=-eq-ok (rec u v) _ out e' in
        let (fs, added, rest) = >>=-eq-ok (put world j w acc) _ out e'' in
        collect_entries-EntriesConform t u es fs out
          (put-EntriesConform world handlers Fits n t u j w acc fs h (sound t k j key)
            (sound u v w made) added)
          rest

    member-IsBuilt :
        (ts : Targets) (us : List Target) (v w : Value)
        → members ts ≡ us
        → construct_member world rec us v ≡ ok w
        → IsBuilt world handlers Fits n (union ts) w
    member-IsBuilt ts [] v w m e = absurd (cc e)
    member-IsBuilt ts (t ∷ []) v w m e = by_member t m (sound t v w e)
    member-IsBuilt ts (t ∷ u ∷ us) v w m e = absurd (cc e)

    list-IsBuilt :
        (t : Target) (v w : Value)
        → construct_list world rec t v ≡ ok w
        → IsBuilt world handlers Fits n (list_of t) w
    list-IsBuilt t (array kind vs) w e =
        let (ws, made, e') = >>=-eq-ok (each world rec t vs) _ w e in
        subst (IsBuilt world handlers Fits n (list_of t)) (ok-inj e')
          (by_list (each-AllConform t vs ws made))
    list-IsBuilt t v w e = absurd (cc e)

    tuple-IsBuilt :
        (t : Target) (v w : Value)
        → construct_tuple world rec t v ≡ ok w
        → IsBuilt world handlers Fits n (tuple_of_all t) w
    tuple-IsBuilt t (array kind vs) w e =
        let (ws, made, e') = >>=-eq-ok (each world rec t vs) _ w e in
        subst (IsBuilt world handlers Fits n (tuple_of_all t)) (ok-inj e')
          (by_tuple_of_all (each-AllConform t vs ws made))
    tuple-IsBuilt t v w e = absurd (cc e)

    set-SetConforms :
        (into : Sequence) (t : Target) (v w : Value)
        → construct_set world rec into t v ≡ ok w
        → (ws : Values) × (w ≡ array into ws) × SetConforms world handlers Fits n t nil ws
    set-SetConforms into t (array kind vs) w e =
        let (ws, made, e') = >>=-eq-ok (collect world rec t vs nil) _ w e in
        (ws, sym (ok-inj e'), collect-SetConforms t vs nil ws no_members made)
    set-SetConforms into t v w e = absurd (cc e)

    fixed_tuple-IsBuilt :
        (ts : Targets) (v w : Value)
        → construct_fixed_tuple world rec ts v ≡ ok w
        → IsBuilt world handlers Fits n (tuple_of ts) w
    fixed_tuple-IsBuilt ts (array kind vs) w e = elim (Bool-cases (same_length ts vs)) [
      | inl l ↦
          let (ws, made, e') = >>=-eq-ok (zipped world rec ts vs) _ w (rw l at e) in
          subst (IsBuilt world handlers Fits n (tuple_of ts)) (ok-inj e')
            (by_tuple (zipped-EachConforms ts vs ws l made))
      | inr l ↦ absurd (cc (rw l at e))
    ]
    fixed_tuple-IsBuilt ts v w e = absurd (cc e)

    dict-IsBuilt :
        (t u : Target) (v w : Value)
        → construct_dict world rec t u v ≡ ok w
        → IsBuilt world handlers Fits n (dict_of t u) w
    dict-IsBuilt t u (dict es) w e =
        let (fs, made, e') = >>=-eq-ok (collect_entries world rec t u es end) _ w e in
        subst (IsBuilt world handlers Fits n (dict_of t u)) (ok-inj e')
          (by_dict (collect_entries-EntriesConform t u es end fs no_entries made))
    dict-IsBuilt t u v w e = absurd (cc e)

    union-IsBuilt :
        (ts : Targets) (v w : Value)
        → construct_union world rec ts v ≡ ok w
        → IsBuilt world handlers Fits n (union ts) w
    union-IsBuilt ts null w e = subst (IsBuilt world handlers Fits n (union ts)) (ok-inj e) by_null
    union-IsBuilt ts v w e = member-IsBuilt ts (members ts) v w refl e

    origin-IsBuilt :
        (t : Target) (v w : Value)
        → construct_origin world rec t v ≡ ok w
        → IsBuilt world handlers Fits n t w
    unfolding construct_origin
    origin-IsBuilt none_type v w e = absurd (cc e)
    origin-IsBuilt (class c) v w e = absurd (cc e)
    origin-IsBuilt (alias a) v w e = by_alias (sound (alias_value a) v w e)
    origin-IsBuilt (list_of t) v w e = list-IsBuilt t v w e
    origin-IsBuilt (set_of t) v w e =
        let (ws, made, c) = set-SetConforms set t v w e in rw made (by_set c)
    origin-IsBuilt (frozenset_of t) v w e =
        let (ws, made, c) = set-SetConforms frozenset t v w e in rw made (by_frozenset c)
    origin-IsBuilt (tuple_of_all t) v w e = tuple-IsBuilt t v w e
    origin-IsBuilt (tuple_of ts) v w e = fixed_tuple-IsBuilt ts v w e
    origin-IsBuilt (union ts) v w e = union-IsBuilt ts v w e
    origin-IsBuilt (dict_of t u) v w e = dict-IsBuilt t u v w e

    handled-Conforms :
        (o : Option Handler) (t : Target) (v w : Value)
        → lookup_handler world handlers t ≡ o
        → AreFitting world handlers Fits
        → on_handler world rec o t v ≡ ok w
        → Conforms world handlers Fits (suc n) t w
    handled-Conforms none t v w l f e = by_origin l (origin-IsBuilt t v w e)
    handled-Conforms (some h) t v w l f e = by_handler h l (f.makes t h v w l e)

  pub construct-IsSound :
      AreFitting world handlers Fits
      → (n : ℕ) → IsSound world handlers Fits n (construct world handlers n)
  unfolding construct
  construct-IsSound f zero t v w e = absurd (cc e)
  construct-IsSound f (suc n) t v w e =
      handled-Conforms n (construct world handlers n) (construct-IsSound f n)
        (lookup_handler world handlers t) t v w refl f e
