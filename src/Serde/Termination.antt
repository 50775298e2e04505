-- ===== src/Serde/Termination.antt =====
-- `construct` ends, if the `type` aliases do not go round in a circle without a container between.
use stratae.Prelude.{ℕ, zero, suc, Option, none, some, List, [], ◌∷◌, ◌≡◌, refl, ◌≤◌, ◌<◌, arith}
use stratae.Serde.Data.{
  Value, null, array, dict, nil, end, Target, none_type, class, alias, list_of, set_of,
  frozenset_of, tuple_of_all, tuple_of, union, dict_of, Targets,
}
use stratae.Serde.{
  Handler, World, Handlers, lookup_handler, same_length, members, each, collect, zipped,
  collect_entries, construct_member, construct_origin, construct,
}
use stratae.Serde.Fuel.{Ends, construct-more}
use stratae.Serde.Finishing.{
  size, size-pos, bind-Ends, if-Ends, run_handler-Ends, Finishes, each_finishes, collect_finishes,
  zipped_finishes, entries_finish,
}

module _ (world : World) (handlers : Handlers) where
  open world use {alias_value}

  -- A rank that falls from an alias to what it stands for, and from a union to its one member.
  pub record IsRanked (rank : Target → ℕ) : Type 0 where
    pub alias_falls :
        (a : ℕ)
        → lookup_handler world handlers (alias a) ≡ none
        → rank (alias_value a) < rank (alias a)
    pub member_falls :
        (ts : Targets) (t : Target)
        → lookup_handler world handlers (union ts) ≡ none
        → members ts ≡ t ∷ []
        → rank t < rank (union ts)

  module _ (rank : Target → ℕ) (ranked : IsRanked rank) where
    member_finishes :
        (ts : List Target) (v : Value)
        → ((t : Target) → ts ≡ t ∷ [] → Finishes world handlers t v)
        → (n : ℕ) × Ends (construct_member world (construct world handlers n) ts v)
    member_finishes [] v rec = (0, tt)
    member_finishes (t ∷ []) v rec = rec t refl
    member_finishes (t ∷ u ∷ ts) v rec = (0, tt)

    module _ (s : ℕ)
        (ih : (t : Target) (v : Value) → size v ≤ s → Finishes world handlers t v) where
      origin_finishes :
          (t : Target) (v : Value)
          → size v ≤ suc s
          → lookup_handler world handlers t ≡ none
          → ((u : Target) → rank u < rank t → Finishes world handlers u v)
          → (n : ℕ) × Ends (construct_origin world (construct world handlers n) t v)
      unfolding construct_origin size
      origin_finishes none_type v h l rec = (0, tt)
      origin_finishes (class c) v h l rec = (0, tt)
      origin_finishes (alias a) v h l rec = rec (alias_value a) (ranked.alias_falls a l)
      origin_finishes (list_of t) (array kind vs) h l rec =
          let (n, e) = each_finishes world handlers s ih t vs (omega arith) in
          (n, bind-Ends (each world (construct world handlers n) t vs) _ e (λ ws. tt))
      origin_finishes (list_of t) v h l rec = (0, tt)
      origin_finishes (set_of t) (array kind vs) h l rec =
          let (n, e) = collect_finishes world handlers s ih t vs (omega arith) in
          (n, bind-Ends (collect world (construct world handlers n) t vs nil) _ (e nil) (λ ws. tt))
      origin_finishes (set_of t) v h l rec = (0, tt)
      origin_finishes (frozenset_of t) (array kind vs) h l rec =
          let (n, e) = collect_finishes world handlers s ih t vs (omega arith) in
          (n, bind-Ends (collect world (construct world handlers n) t vs nil) _ (e nil) (λ ws. tt))
      origin_finishes (frozenset_of t) v h l rec = (0, tt)
      origin_finishes (tuple_of_all t) (array kind vs) h l rec =
          let (n, e) = each_finishes world handlers s ih t vs (omega arith) in
          (n, bind-Ends (each world (construct world handlers n) t vs) _ e (λ ws. tt))
      origin_finishes (tuple_of_all t) v h l rec = (0, tt)
      origin_finishes (tuple_of ts) (array kind vs) h l rec =
          let (n, e) = zipped_finishes world handlers s ih ts vs (omega arith) in
          (
            n,
            if-Ends (same_length ts vs) _ _
                (bind-Ends (zipped world (construct world handlers n) ts vs) _ e (λ ws. tt)) tt,
          )
      origin_finishes (tuple_of ts) v h l rec = (0, tt)
      origin_finishes (union ts) null h l rec = (0, tt)
      origin_finishes (union ts) v h l rec =
          member_finishes (members ts) v (λ t m. rec t (ranked.member_falls ts t l m))
      origin_finishes (dict_of t u) (dict es) h l rec =
          let (n, e) = entries_finish world handlers s ih t u es (omega arith) in
          (
            n,
            bind-Ends (collect_entries world (construct world handlers n) t u es end) _ (e end)
                (λ ws. tt),
          )
      origin_finishes (dict_of t u) v h l rec = (0, tt)

      handled-Finishes :
          (o : Option Handler) (t : Target) (v : Value)
          → lookup_handler world handlers t ≡ o
          → size v ≤ suc s
          → ((u : Target) → rank u < rank t → Finishes world handlers u v)
          → Finishes world handlers t v
      unfolding construct
      handled-Finishes none t v l h rec =
          let (n, e) = origin_finishes t v h l rec in (suc n, rw l e)
      handled-Finishes (some g) t v l h rec = (1, rw l (run_handler-Ends g t v))

      ranked-Finishes :
          (r : ℕ) (t : Target) (v : Value)
          → rank t ≤ r
          → size v ≤ suc s
          → Finishes world handlers t v
      ranked-Finishes zero t v hr h =
          handled-Finishes (lookup_handler world handlers t) t v refl h
            (λ u lt. absurd (omega (arith, lt, hr)))
      ranked-Finishes (suc r) t v hr h =
          handled-Finishes (lookup_handler world handlers t) t v refl h
            (λ u lt. ranked-Finishes r u v (omega (arith, lt, hr)) h)

    sized-Finishes : (s : ℕ) (t : Target) (v : Value) → size v ≤ s → Finishes world handlers t v
    sized-Finishes zero t v h = absurd (omega (arith, size-pos v))
    sized-Finishes (suc s) t v h = ranked-Finishes s (sized-Finishes s) (rank t) t v (omega arith) h

    -- If a rank falls from every alias to what it stands for and from every union to its one member,
    -- where no handler takes them, then `construct` ends on every value: with some fuel, and with
    -- any more the same.
    pub construct-Ends :
        (t : Target) (v : Value)
        → (n : ℕ) × Ends (construct world handlers n t v)
          × ((m : ℕ) → n ≤ m → construct world handlers m t v ≡ construct world handlers n t v)
    construct-Ends t v =
        let (n, e) = sized-Finishes (size v) t v (omega arith) in
        (n, e, λ m h. construct-more world handlers n m h t v e)
