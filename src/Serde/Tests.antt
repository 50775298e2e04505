-- ===== src/Serde/Tests.antt =====
-- Constructing values, with an alias that stands for a list of itself or `None`.
use stratae.Prelude.{
  ℕ, suc, ◌+◌, ◌≤◌, Bool, true, false, List, [], ◌∷◌, ◌==◌, ◌≡◌, refl, arith, Bool-cases, inl, inr,
  ap,
}
use stratae.Serde.Data.{
  list, tuple, set, Value, null, boolean, text, array, dict, nil, cons, Target, none_type, class,
  alias, list_of, set_of, frozenset_of, tuple_of_all, tuple_of, union, dict_of, Targets, no_more,
  and,
}
use stratae.Serde.{
  ok, World, members, is_none_type, collect, zipped, add, dispatch_bases, first_handler,
  lookup_handler, construct_origin, construct,
}
use stratae.Serde.Conforming.{Conforms}
use stratae.Serde.Again.{construct-Conforms}
use stratae.Serde.Fuel.{Ends}
use stratae.Serde.Termination.{IsRanked, construct-Ends}
use stratae.Serde.Decoders.{Words, builtin, IsInstance, builtin-AreFitting}

abbrev same_text : Value → Value → Bool
same_text (text s) (text r) = s == r
same_text v w = false

abbrev is_hashable : Value → Bool
is_hashable (array list vs) = false
is_hashable (dict es) = false
is_hashable v = true

abbrev nested : Target
nested = union (and (list_of (alias 0)) (and none_type no_more))

abbrev world : World
world = record {
  hashable = is_hashable;
  same = same_text;
  alias_value = λ (a : ℕ). nested;
  bases = λ (t : Target). [];
  is_enum = λ (t : Target). false;
}

abbrev words : Words
words = record { lower = λ (s : ℕ). s; true_word = 100; false_word = 101 }

-- `set[str]` and `tuple[str, bool]`.
abbrev texts : Target
texts = set_of (class 1)

abbrev pair : Target
pair = tuple_of (and (class 1) (and (class 2) no_more))

no_bases : (t : Target) → dispatch_bases world t ≡ []
unfolding dispatch_bases
no_bases t = refl

construct-texts :
    construct world
      (builtin words)
      2
      texts
      (array list (cons (text 5) (cons (text 6) (cons (text 5) nil))))
    ≡ ok (array set (cons (text 5) (cons (text 6) nil)))
unfolding construct construct_origin collect add lookup_handler first_handler dispatch_bases
construct-texts = refl

construct-pair :
    construct world (builtin words) 2 pair (array list (cons (text 5) (cons (text 100) nil)))
    ≡ ok (array tuple (cons (text 5) (cons (boolean true) nil)))
unfolding construct construct_origin zipped lookup_handler first_handler dispatch_bases
construct-pair = refl

construct-Conforms_example :
    Conforms world (builtin words) IsInstance 2 texts (array set (cons (text 5) nil))
    × (construct world (builtin words) 2 texts (array set (cons (text 5) nil))
        ≡ ok (array set (cons (text 5) nil)))
unfolding construct construct_origin collect add lookup_handler first_handler dispatch_bases
construct-Conforms_example =
    construct-Conforms world (builtin words) IsInstance (builtin-AreFitting world words no_bases) 2
      texts (array list (cons (text 5) (cons (text 5) nil))) (array set (cons (text 5) nil)) refl

abbrev mutual
  rank : Target → ℕ
  rank none_type = 0
  rank (class c) = 0
  rank (alias a) = 2
  rank (list_of t) = 0
  rank (set_of t) = 0
  rank (frozenset_of t) = 0
  rank (tuple_of_all t) = 0
  rank (tuple_of ts) = 0
  rank (union ts) = suc (rank_all ts)
  rank (dict_of t u) = 0

  rank_all : Targets → ℕ
  rank_all no_more = 0
  rank_all (and t ts) = rank t + rank_all ts

abbrev sum_ranks : List Target → ℕ
sum_ranks [] = 0
sum_ranks (t ∷ ts) = rank t + sum_ranks ts

sum_ranks-members : (ts : Targets) → sum_ranks (members ts) ≤ rank_all ts
sum_ranks-members no_more = omega arith
sum_ranks-members (and t ts) = elim (Bool-cases (is_none_type t)) [
  | inl e ↦ rw e (omega (arith, sum_ranks-members ts))
  | inr e ↦ rw e (omega (arith, sum_ranks-members ts))
]

nested-IsRanked : IsRanked world (builtin words) rank
nested-IsRanked = record {
  alias_falls = λ a l. omega arith;
  member_falls = λ ts t l m. omega (arith, sum_ranks-members ts, ap sum_ranks m);
}

construct-Ends_example :
    (n : ℕ) × Ends (construct world (builtin words) n (alias 0) (array list (cons null nil)))
    × ((m : ℕ)
        → n ≤ m
        → construct world (builtin words) m (alias 0) (array list (cons null nil))
          ≡ construct world (builtin words) n (alias 0) (array list (cons null nil)))
construct-Ends_example =
    construct-Ends world (builtin words) rank nested-IsRanked (alias 0) (array list (cons null nil))
