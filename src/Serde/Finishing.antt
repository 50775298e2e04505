-- ===== src/Serde/Finishing.antt =====
-- The size of a value, and that the loops of `construct` end if it ends on smaller values.
use stratae.Prelude.{ℕ, suc, Bool, true, false, ◌+◌, ◌≤◌, if◌then◌else◌, arith}
use stratae.Serde.Data.{
  Value, null, boolean, number, text, other, array, dict, Values, nil, cons, Entries, end, entry,
  Target, Targets, no_more, and,
}
use stratae.Serde.{
  Result, ok, raised, exhausted, ◌>>=◌, Handler, run_handler, World, Handlers, add, put, each,
  collect, zipped, collect_entries, construct,
}
use stratae.Serde.{result_of, decoded, refuses, of_value, of_type, Decoded}
use stratae.Serde.Fuel.{
  Ends, each-Extends, collect-Extends, zipped-Extends, collect_entries-Extends, construct-more,
}

unfoldable mutual
  pub size : Value → ℕ
  size null = 1
  size (boolean b) = 1
  size (number n) = 1
  size (text n) = 1
  size (other n) = 1
  size (array kind vs) = suc (size_all vs)
  size (dict es) = suc (size_entries es)

  pub size_all : Values → ℕ
  size_all nil = 0
  size_all (cons v vs) = size v + size_all vs

  pub size_entries : Entries → ℕ
  size_entries end = 0
  size_entries (entry k v es) = size k + size v + size_entries es

pub size-pos : (v : Value) → 1 ≤ size v
unfolding size
size-pos null = omega arith
size-pos (boolean b) = omega arith
size-pos (number n) = omega arith
size-pos (text n) = omega arith
size-pos (other n) = omega arith
size-pos (array kind vs) = omega arith
size-pos (dict es) = omega arith

pub bind-Ends :
    {A B : Type 0} (m : Result A) (f : A → Result B)
    → Ends m
    → ((a : A) → Ends (f a))
    → Ends (m >>= f)
bind-Ends (ok a) f h k = k a
bind-Ends (raised e) f h k = tt
bind-Ends exhausted f h k = h

pub if-Ends : {A : Type 0} (b : Bool) (r s : Result A) → Ends r → Ends s → Ends (if b then r else s)
if-Ends true r s h k = h
if-Ends false r s h k = k

result_of-Ends : (d : Decoded) → Ends (result_of d)
result_of-Ends (decoded w) = tt
result_of-Ends (refuses e) = tt

pub run_handler-Ends : (h : Handler) (t : Target) (v : Value) → Ends (run_handler h t v)
run_handler-Ends (of_value h) t v = result_of-Ends (h v)
run_handler-Ends (of_type h) t v = result_of-Ends (h v t)

module _ (world : World) (handlers : Handlers) where
  open world use {alias_value}

  abbrev pub Finishes : Target → Value → Type 0
  Finishes t v = (n : ℕ) × Ends (construct world handlers n t v)

  add-Ends : (w : Value) (vs : Values) → Ends (add world w vs)
  unfolding add
  add-Ends w vs = if-Ends (world.hashable w) _ _ tt tt

  put-Ends : (k w : Value) (es : Entries) → Ends (put world k w es)
  unfolding put
  put-Ends k w es = if-Ends (world.hashable k) _ _ tt tt

  later :
      (n m : ℕ)
      → n ≤ m
      → (t : Target) (v : Value) → Ends (construct world handlers n t v)
      → Ends (construct world handlers m t v)
  later n m h t v e = rw (construct-more world handlers n m h t v e) e

  module _ (s : ℕ) (ih : (t : Target) (v : Value) → size v ≤ s → Finishes t v) where
    pub each_finishes :
        (t : Target) (vs : Values)
        → size_all vs ≤ s
        → (n : ℕ) × Ends (each world (construct world handlers n) t vs)
    unfolding each size_all
    each_finishes t nil h = (0, tt)
    each_finishes t (cons v vs) h =
        let (n, e) = ih t v (omega arith) in
        let (m, k) = each_finishes t vs (omega arith) in
        let same =
          each-Extends world (construct world handlers m) (construct world handlers (n + m))
            (construct-more world handlers m (n + m) (omega arith)) t vs k in
        (
          n + m,
          bind-Ends (construct world handlers (n + m) t v) _ (later n (n + m) (omega arith) t v e)
              (λ w.
                bind-Ends (each world (construct world handlers (n + m)) t vs) _ (rw same k)
                  (λ ws. tt)),
        )

    pub collect_finishes :
        (t : Target) (vs : Values)
        → size_all vs ≤ s
        → (n : ℕ) × ((acc : Values) → Ends (collect world (construct world handlers n) t vs acc))
    unfolding collect size_all
    collect_finishes t nil h = (0, λ acc. tt)
    collect_finishes t (cons v vs) h =
        let (n, e) = ih t v (omega arith) in
        let (m, k) = collect_finishes t vs (omega arith) in
        (
          n + m,
          λ acc.
              bind-Ends (construct world handlers (n + m) t v) _
                (later n (n + m) (omega arith) t v e)
                (λ w. bind-Ends (add world w acc) _ (add-Ends w acc) (λ out.
                  rw
                    (collect-Extends world (construct world handlers m)
                      (construct world handlers (n + m))
                      (construct-more world handlers m (n + m) (omega arith)) t vs out (k out))
                    (k out))),
        )

    pub zipped_finishes :
        (ts : Targets) (vs : Values)
        → size_all vs ≤ s
        → (n : ℕ) × Ends (zipped world (construct world handlers n) ts vs)
    unfolding zipped size_all
    zipped_finishes no_more vs h = (0, tt)
    zipped_finishes (and t ts) nil h = (0, tt)
    zipped_finishes (and t ts) (cons v vs) h =
        let (n, e) = ih t v (omega arith) in
        let (m, k) = zipped_finishes ts vs (omega arith) in
        let same =
          zipped-Extends world (construct world handlers m) (construct world handlers (n + m))
            (construct-more world handlers m (n + m) (omega arith)) ts vs k in
        (
          n + m,
          bind-Ends (construct world handlers (n + m) t v) _ (later n (n + m) (omega arith) t v e)
              (λ w.
                bind-Ends (zipped world (construct world handlers (n + m)) ts vs) _ (rw same k)
                  (λ ws. tt)),
        )

    pub entries_finish :
        (t u : Target) (es : Entries)
        → size_entries es ≤ s
        → (n : ℕ) × ((acc : Entries)
            → Ends (collect_entries world (construct world handlers n) t u es acc))
    unfolding collect_entries size_entries
    entries_finish t u end h = (0, λ acc. tt)
    entries_finish t u (entry k v es) h =
        let (n, e) = ih t k (omega arith) in
        let (i, d) = ih u v (omega arith) in
        let (m, c) = entries_finish t u es (omega arith) in
        let all : ℕ = n + i + m in
        (
          all,
          λ acc.
              bind-Ends (construct world handlers all t k) _ (later n all (omega arith) t k e) (λ j.
                bind-Ends (construct world handlers all u v) _ (later i all (omega arith) u v d)
                  (λ w. bind-Ends (put world j w acc) _ (put-Ends j w acc) (λ out.
                    rw
                      (collect_entries-Extends world (construct world handlers m)
                        (construct world handlers all)
                        (construct-more world handlers m all (omega arith)) t u es out (c out))
                      (c out)))),
        )
