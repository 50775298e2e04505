-- ===== src/Serde/Fuel.antt =====
-- More fuel changes nothing once `construct` has ended.
use stratae.Prelude.{
  ℕ, zero, suc, Bool, true, false, Option, none, some, List, [], ◌∷◌, ◌≡◌, refl, ◌≤◌, ◌==◌, ==_iff,
  if◌then◌else◌, Bool-cases, inl, inr, arith, ◌∙◌,
}
use stratae.Serde.Data.{
  Value, null, array, dict, Values, nil, cons, Entries, end, entry, Target, none_type, class, alias,
  list_of, set_of, frozenset_of, tuple_of_all, tuple_of, union, dict_of, Targets, no_more, and,
}
use stratae.Serde.{
  Result, ok, raised, exhausted, ◌>>=◌, Handler, World, Handlers, lookup_handler, add, put,
  same_length, members, each, collect, zipped, collect_entries, construct_member, construct_origin,
  on_handler, construct,
}

abbrev pub Ends : {A : Type 0} → Result A → Type 0
Ends (ok a) = Unit {0}
Ends (raised e) = Unit {0}
Ends exhausted = ⊥

-- Where the first result is one, the second is the same.
abbrev pub Extends : {A : Type 0} → Result A → Result A → Type 0
Extends r r' = Ends r → r' ≡ r

bind-Extends :
    {A B : Type 0} (m m' : Result A) (f f' : A → Result B)
    → Extends m m'
    → ((a : A) → Extends (f a) (f' a))
    → Extends (m >>= f) (m' >>= f')
bind-Extends (ok a) m' f f' h k e = rw (h tt) (k a e)
bind-Extends (raised x) m' f f' h k e = rw (h tt)
bind-Extends exhausted m' f f' h k e = absurd e

if-Extends :
    {A : Type 0} (b : Bool) (r r' s : Result A)
    → Extends r r'
    → Extends (if b then r else s) (if b then r' else s)
if-Extends true r r' s h = h
if-Extends false r r' s h = λ e. refl

zero_only : (n : ℕ) → n ≤ 0 → n ≡ 0
zero_only n h = omega arith

module _ (world : World) where
  open world use {alias_value}

  module _ (rec rec' : Target → Value → Result Value)
      (extends : (t : Target) (v : Value) → Extends (rec t v) (rec' t v)) where
    pub each-Extends :
        (t : Target) (vs : Values) → Extends (each world rec t vs) (each world rec' t vs)
    unfolding each
    each-Extends t nil = λ e. refl
    each-Extends t (cons v vs) = bind-Extends (rec t v) (rec' t v) _ _ (extends t v) (λ w.
        bind-Extends (each world rec t vs) (each world rec' t vs) _ _ (each-Extends t vs)
          (λ ws e. refl))

    pub collect-Extends :
        (t : Target) (vs acc : Values)
        → Extends (collect world rec t vs acc) (collect world rec' t vs acc)
    unfolding collect
    collect-Extends t nil acc = λ e. refl
    collect-Extends t (cons v vs) acc = bind-Extends (rec t v) (rec' t v) _ _ (extends t v) (λ w.
        bind-Extends (add world w acc) (add world w acc) _ _ (λ e. refl)
          (λ acc'. collect-Extends t vs acc'))

    pub zipped-Extends :
        (ts : Targets) (vs : Values) → Extends (zipped world rec ts vs) (zipped world rec' ts vs)
    unfolding zipped
    zipped-Extends no_more vs = λ e. refl
    zipped-Extends (and t ts) nil = λ e. refl
    zipped-Extends (and t ts) (cons v vs) =
        bind-Extends (rec t v) (rec' t v) _ _ (extends t v) (λ w.
          bind-Extends (zipped world rec ts vs) (zipped world rec' ts vs) _ _ (zipped-Extends ts vs)
            (λ ws e. refl))

    pub collect_entries-Extends :
        (t u : Target) (es acc : Entries)
        → Extends (collect_entries world rec t u es acc) (collect_entries world rec' t u es acc)
    unfolding collect_entries
    collect_entries-Extends t u end acc = λ e. refl
    collect_entries-Extends t u (entry k v es) acc =
        bind-Extends (rec t k) (rec' t k) _ _ (extends t k) (λ j.
          bind-Extends (rec u v) (rec' u v) _ _ (extends u v) (λ w.
            bind-Extends (put world j w acc) (put world j w acc) _ _ (λ e. refl)
              (λ acc'. collect_entries-Extends t u es acc')))

    member-Extends :
        (ts : List Target) (v : Value)
        → Extends (construct_member world rec ts v) (construct_member world rec' ts v)
    member-Extends [] v = λ e. refl
    member-Extends (t ∷ []) v = extends t v
    member-Extends (t ∷ u ∷ ts) v = λ e. refl

    origin-Extends :
        (t : Target) (v : Value)
        → Extends (construct_origin world rec t v) (construct_origin world rec' t v)
    unfolding construct_origin
    origin-Extends none_type v = λ e. refl
    origin-Extends (class c) v = λ e. refl
    origin-Extends (alias a) v = extends (alias_value a) v
    origin-Extends (list_of t) (array kind vs) =
        bind-Extends (each world rec t vs) (each world rec' t vs) _ _ (each-Extends t vs)
          (λ ws e. refl)
    origin-Extends (list_of t) v = λ e. refl
    origin-Extends (set_of t) (array kind vs) =
        bind-Extends (collect world rec t vs nil) (collect world rec' t vs nil) _ _
          (collect-Extends t vs nil) (λ ws e. refl)
    origin-Extends (set_of t) v = λ e. refl
    origin-Extends (frozenset_of t) (array kind vs) =
        bind-Extends (collect world rec t vs nil) (collect world rec' t vs nil) _ _
          (collect-Extends t vs nil) (λ ws e. refl)
    origin-Extends (frozenset_of t) v = λ e. refl
    origin-Extends (tuple_of_all t) (array kind vs) =
        bind-Extends (each world rec t vs) (each world rec' t vs) _ _ (each-Extends t vs)
          (λ ws e. refl)
    origin-Extends (tuple_of_all t) v = λ e. refl
    origin-Extends (tuple_of ts) (array kind vs) = if-Extends (same_length ts vs) _ _ _ (
        bind-Extends (zipped world rec ts vs) (zipped world rec' ts vs) _ _ (zipped-Extends ts vs)
          (λ ws e. refl))
    origin-Extends (tuple_of ts) v = λ e. refl
    origin-Extends (union ts) null = λ e. refl
    origin-Extends (union ts) v = member-Extends (members ts) v
    origin-Extends (dict_of t u) (dict es) =
        bind-Extends (collect_entries world rec t u es end) (collect_entries world rec' t u es end)
          _ _ (collect_entries-Extends t u es end) (λ ws e. refl)
    origin-Extends (dict_of t u) v = λ e. refl

    handler-Extends :
        (o : Option Handler) (t : Target) (v : Value)
        → Extends (on_handler world rec o t v) (on_handler world rec' o t v)
    handler-Extends none t v = origin-Extends t v
    handler-Extends (some h) t v = λ e. refl

  construct-Extends :
      (handlers : Handlers) (n : ℕ) (t : Target) (v : Value)
      → Extends (construct world handlers n t v) (construct world handlers (suc n) t v)
  unfolding construct
  construct-Extends handlers zero t v = λ e. absurd e
  construct-Extends handlers (suc n) t v =
      handler-Extends (construct world handlers n) (construct world handlers (suc n))
        (construct-Extends handlers n) (lookup_handler world handlers t) t v

  pub construct-more :
      (handlers : Handlers) (n m : ℕ)
      → n ≤ m
      → (t : Target) (v : Value)
      → Extends (construct world handlers n t v) (construct world handlers m t v)
  construct-more handlers n zero h t v e = rw (zero_only n h)
  construct-more handlers n (suc m) h t v e = elim (Bool-cases (n == suc m)) [
    | inl same ↦ rw ((==_iff n (suc m)).0 same)
    | inr differs ↦
        let before = construct-more handlers n m (ground arith) t v e in
        construct-Extends handlers m t v (rw before e) ∙ before
  ]
