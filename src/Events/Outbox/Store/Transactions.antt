-- ===== src/Events/Outbox/Store/Transactions.antt =====
-- `transaction()` against what a database's transactions keep: the records of every block that
-- exits cleanly, up to the outermost one.
use mathlib.Core.List.{append-nil, append_assoc}
use stratae.Prelude.{Option, none, some, List, [], ◌∷◌, ◌++◌, ◌≡◌, refl, subst}
use stratae.Python.{Exc, Outcome, returned, raised}
use stratae.Events.Outbox.Record.{OutboxRecord}
use stratae.Events.Outbox.Store.{Store, pending, settle, keep_records, add, transaction}

-- A unit of work: it adds records, opens transactions (and lets their exception through, or
-- catches it), and ends or raises.
pub data Work : Type 0 where
  done : Work
  fails : Exc → Work
  adds : OutboxRecord → Work → Work
  within attempts : Work → Work → Work

abbrev continue_with :
    (Store → Outcome (Unit {0}) × Store) → Outcome (Unit {0}) × Store → Outcome (Unit {0}) × Store
continue_with k (returned _, s) = k s
continue_with k (raised e, s) = (raised e, s)

-- The store's answers to a unit of work.
pub perform : Work → Store → Outcome (Unit {0}) × Store
perform done s = (returned tt, s)
perform (fails e) s = (raised e, s)
perform (adds r w) s = perform w (add r s)
perform (within v w) s = continue_with (perform w) (transaction (perform v) s)
perform (attempts v w) s = perform w (transaction (perform v) s).1

-- The independent description: how a unit of work ends, and the records that it wrote for good,
-- seen from the block that it stands in.
abbrev joined :
    Outcome (Unit {0}) × List OutboxRecord
    → Outcome (Unit {0}) × List OutboxRecord
    → Outcome (Unit {0}) × List OutboxRecord
joined (returned _, rs) (o, qs) = (o, rs ++ qs)
joined (raised e, rs) later = (raised e, [])

abbrev rescued : Outcome (Unit {0}) × List OutboxRecord → List OutboxRecord
rescued (returned _, rs) = rs
rescued (raised e, rs) = []

unfoldable pub written : Work → Outcome (Unit {0}) × List OutboxRecord
written done = (returned tt, [])
written (fails e) = (raised e, [])
written (adds r w) = let (o, rs) = written w in (o, r ∷ rs)
written (within v w) = joined (written v) (written w)
written (attempts v w) = let (o, rs) = written w in (o, rescued (written v) ++ rs)

-- A store with a staged list has it extended; one without keeps the records.
abbrev extended : Option (List OutboxRecord) → List OutboxRecord → Store → Store
extended none rs s = keep_records rs s
extended (some staged) rs s = record s { staged = some (staged ++ rs) }

keep_records-append :
    (rs qs : List OutboxRecord) (s : Store)
    → keep_records (rs ++ qs) s ≡ keep_records qs (keep_records rs s)
unfolding keep_records
keep_records-append [] qs s = refl
keep_records-append (r ∷ rs) qs s = keep_records-append rs qs (settle r pending s)

keep_records-staged : (rs : List OutboxRecord) (s : Store) → (keep_records rs s).staged ≡ s.staged
unfolding keep_records settle
keep_records-staged [] s = refl
keep_records-staged (r ∷ rs) s = keep_records-staged rs (settle r pending s)

abbrev staging : Option (List OutboxRecord) → Store → Store
staging staged s = record s { staged = staged }

staging_self :
    (staged : Option (List OutboxRecord)) (s : Store) → s.staged ≡ staged → staging staged s ≡ s
staging_self staged s h = subst (λ t. staging t s ≡ s) h refl

keep_records-staging :
    (rs : List OutboxRecord) (s : Store)
    → staging none (keep_records rs (staging none s)) ≡ keep_records rs (staging none s)
keep_records-staging rs s =
    staging_self none (keep_records rs (staging none s)) (keep_records-staged rs (staging none s))

-- A transaction inside another one hands its records on if it ends cleanly.
transaction_inner :
    (body : Store → Outcome (Unit {0}) × Store) (s : Store) (l rs : List OutboxRecord)
    → (o : Outcome (Unit {0})) → body (staging (some []) s) ≡ (o, staging (some rs) s)
    → transaction body (staging (some l) s) ≡ (o, staging (some (l ++ rescued (o, rs))) s)
unfolding transaction
transaction_inner body s l rs (returned _) h = rw h refl
transaction_inner body s l rs (raised e) h = rw (h, append-nil l) refl

-- An outermost transaction keeps its records if it ends cleanly.
transaction_outer :
    (body : Store → Outcome (Unit {0}) × Store) (s : Store) (rs : List OutboxRecord)
    → (o : Outcome (Unit {0})) → body (staging (some []) s) ≡ (o, staging (some rs) s)
    → transaction body (staging none s) ≡ (o, keep_records (rescued (o, rs)) (staging none s))
unfolding transaction keep_records
transaction_outer body s rs (returned _) h = rw h refl
transaction_outer body s rs (raised e) h = rw h refl

perform_staged :
    (w : Work) (s : Store) (l : List OutboxRecord)
    → perform w (staging (some l) s) ≡ ((written w).0, staging (some (l ++ (written w).1)) s)
unfolding perform written add
perform_staged done s l = rw (append-nil l) refl
perform_staged (fails e) s l = rw (append-nil l) refl
perform_staged (adds r w) s l =
    rw (perform_staged w s (l ++ r ∷ []), append_assoc l (r ∷ []) (written w).1) refl
perform_staged (within v w) s l =
    let t = transaction_inner (perform v) s l (written v).1 (written v).0 (perform_staged v s []) in
    rw t (go (written v).0 (perform_staged w s (l ++ (written v).1)))
  where
    go :
        (o : Outcome (Unit {0}))
        → perform w (staging (some (l ++ (written v).1)) s)
          ≡ ((written w).0, staging (some ((l ++ (written v).1) ++ (written w).1)) s)
        → continue_with (perform w) (o, staging (some (l ++ rescued (o, (written v).1))) s) ≡ (
          (joined (o, (written v).1) (written w)).0,
          staging (some (l ++ (joined (o, (written v).1) (written w)).1)) s,
        )
    go (returned _) ih = rw (ih, append_assoc l (written v).1 (written w).1) refl
    go (raised e) ih = refl
perform_staged (attempts v w) s l =
    let t = transaction_inner (perform v) s l (written v).1 (written v).0 (perform_staged v s []) in
    let kept = rescued (written v) in
    rw (t, perform_staged w s (l ++ kept), append_assoc l kept (written w).1) refl

-- Work that goes on after some records were kept.
perform_kept :
    (w : Work) (rs : List OutboxRecord) (s : Store)
    → let kept = keep_records rs (staging none s) in
      perform w (staging none kept)
        ≡ ((written w).0, keep_records (written w).1 (staging none kept))
      → perform w kept ≡ ((written w).0, keep_records (rs ++ (written w).1) (staging none s))
perform_kept w rs s ih =
    rw (keep_records-append rs (written w).1 (staging none s))
      (rw (keep_records-staging rs s) at ih)

perform_plain :
    (w : Work) (s : Store)
    → perform w (staging none s) ≡ ((written w).0, keep_records (written w).1 (staging none s))
unfolding perform written add keep_records settle
perform_plain done s = refl
perform_plain (fails e) s = refl
perform_plain (adds r w) s = perform_plain w (settle r pending s)
perform_plain (within v w) s =
    let t = transaction_outer (perform v) s (written v).1 (written v).0 (perform_staged v s []) in
    rw t (
      go (written v).0 (
        perform_kept w (written v).1 s
          (perform_plain w (keep_records (written v).1 (staging none s)))))
  where
    go :
        (o : Outcome (Unit {0}))
        → perform w (keep_records (written v).1 (staging none s))
          ≡ ((written w).0, keep_records ((written v).1 ++ (written w).1) (staging none s))
        → continue_with (perform w) (o, keep_records (rescued (o, (written v).1)) (staging none s))
          ≡ (
            (joined (o, (written v).1) (written w)).0,
            keep_records (joined (o, (written v).1) (written w)).1 (staging none s),
          )
    go (returned _) ih = ih
    go (raised e) ih = refl
perform_plain (attempts v w) s =
    let t = transaction_outer (perform v) s (written v).1 (written v).0 (perform_staged v s []) in
    rw t (
      perform_kept w (rescued (written v)) s
        (perform_plain w (keep_records (rescued (written v)) (staging none s))))

-- Outside any transaction, a unit of work that opens and nests transactions, some of whose
-- exceptions it catches, ends as described and keeps exactly the records described, in their order:
-- those of the blocks that exited cleanly up to the outermost one, and those added outside any.
pub perform_lem :
    (w : Work) (s : Store)
    → s.staged ≡ none
    → perform w s ≡ ((written w).0, keep_records (written w).1 s)
perform_lem w s h = rw (staging_self none s h) at (perform_plain w s)

-- A transaction around a unit of work keeps all that the work wrote if it ends cleanly, and leaves
-- the store as it was if it raises.
pub transaction_atomic :
    (w : Work) (s : Store)
    → s.staged ≡ none
    → transaction (perform w) s ≡ ((written w).0, keep_records (rescued (written w)) s)
transaction_atomic w s h =
    rw (staging_self none s h) at
      (transaction_outer (perform w) s (written w).1 (written w).0 (perform_staged w s []))
