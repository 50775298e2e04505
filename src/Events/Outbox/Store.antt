-- ===== src/Events/Outbox/Store.antt =====
-- stratae/events/outbox.py: `InMemoryOutboxStore`, method by method. The clock's reading is an
-- argument of `claim`.
pub mod Leases
pub mod Validity
pub mod Claimable
pub mod Order
pub mod Transactions
use stratae.Prelude.{
  ℕ, ◌+◌, Bool, true, false, Option, none, some, List, [], ◌∷◌, ◌++◌, leb, ◌==◌, keep, take,
  if◌then◌else◌, ◌&&◌,
}
use stratae.Python.{Outcome, returned, raised}
use stratae.Python.Dict.{Dict, lookup, insert, erase, get_or, values}
use stratae.Events.Outbox.Record.{OutboxRecord}

-- The texts "pending", "sent" and "failed".
pub data Status : Type 0 where
  pending sent failed : Status

abbrev pub is_status : Status → Status → Bool
is_status pending pending = true
is_status sent sent = true
is_status failed failed = true
is_status _ _ = false

-- `staged` is the value that the context variable has in the calling context.
pub record Store : Type 0 where
  pub lease : ℕ
  pub records : Dict OutboxRecord
  pub status : Dict Status
  pub leased : Dict ℕ
  pub staged : Option (List OutboxRecord)

-- `__init__`
unfoldable pub init : ℕ → Store
init lease = record { lease = lease; records = []; status = []; leased = []; staged = none }

-- `InMemoryOutboxStore._settle`
unfoldable pub settle : OutboxRecord → Status → Store → Store
settle r st s = record s {
  records = insert r.id r s.records;
  status = insert r.id st s.status;
  leased = erase r.id s.leased;
}

-- `_keep`
unfoldable pub keep_records : List OutboxRecord → Store → Store
keep_records [] s = s
keep_records (r ∷ rs) s = keep_records rs (settle r pending s)

-- The comprehension of `_with_status`; `none` is the `KeyError` of a record without a status.
unfoldable pub select : Status → Dict Status → List OutboxRecord → Option (List OutboxRecord)
select st status [] = some []
select st status (r ∷ rs) = elim (lookup r.id status) [
  | none ↦ none
  | some found ↦ elim (select st status rs) [
    | none ↦ none
    | some rest ↦ some (if is_status found st then r ∷ rest else rest)
  ]
]

-- `sorted(records, key=lambda r: r.created_at)`, which is stable.
unfoldable pub insert_by_age : OutboxRecord → List OutboxRecord → List OutboxRecord
insert_by_age r [] = r ∷ []
insert_by_age r (q ∷ qs) =
    if leb r.created_at q.created_at then r ∷ q ∷ qs else q ∷ insert_by_age r qs

unfoldable pub sort_by_age : List OutboxRecord → List OutboxRecord
sort_by_age [] = []
sort_by_age (r ∷ rs) = insert_by_age r (sort_by_age rs)

-- `_with_status`
unfoldable pub with_status : Status → Store → Option (List OutboxRecord)
with_status st s = elim (select st s.status (values s.records)) [
  | none ↦ none
  | some rs ↦ some (sort_by_age rs)
]

-- `add`
unfoldable pub add : OutboxRecord → Store → Store
unfolding keep_records
add r s = elim s.staged [
  | none ↦ keep_records (r ∷ []) s
  | some staged ↦ record s { staged = some (staged ++ r ∷ []) }
]

-- The condition of the comprehension in `claim`.
abbrev pub is_due : ℕ → Store → OutboxRecord → Bool
is_due now s r = leb r.available_at now && leb (get_or (lookup r.id s.leased) now) now

-- The loop of `claim` over the due records.
unfoldable pub lease_all : ℕ → List OutboxRecord → Store → Store
lease_all until [] s = s
lease_all until (r ∷ rs) s = lease_all until rs (record s { leased = insert r.id until s.leased })

-- `claim`
unfoldable pub claim : ℕ → ℕ → Store → Option (List OutboxRecord × Store)
claim now limit s = elim (with_status pending s) [
  | none ↦ none
  | some rs ↦
      let due = take limit (keep (is_due now s) rs) in some (due, lease_all (now + s.lease) due s)
]

-- `mark_sent`
unfoldable pub mark_sent : List OutboxRecord → Store → Store
mark_sent [] s = s
mark_sent (r ∷ rs) s = mark_sent rs (settle r sent s)

-- `reschedule`
unfoldable pub reschedule : OutboxRecord → Store → Store
reschedule r s = settle r pending s

-- `mark_failed`
unfoldable pub mark_failed : OutboxRecord → Store → Store
mark_failed r s = settle r failed s

abbrev staged_records : Option (List OutboxRecord) → List OutboxRecord
staged_records none = []
staged_records (some rs) = rs

-- The part of `transaction` after a clean exit of the block.
abbrev commit : Option (List OutboxRecord) → List OutboxRecord → Store → Store
commit none staged s = keep_records staged s
commit (some outer) staged s = record s { staged = some (outer ++ staged) }

-- The end of `transaction`: a block that raises leaves nothing staged.
abbrev close_block : Store → Outcome (Unit {0}) × Store → Outcome (Unit {0}) × Store
close_block s (returned u, s') =
    (returned u, commit s.staged (staged_records s'.staged) (record s' { staged = s.staged }))
close_block s (raised e, s') = (raised e, record s' { staged = s.staged })

-- `async with store.transaction(): body`
unfoldable pub transaction :
    (Store → Outcome (Unit {0}) × Store) → Store → Outcome (Unit {0}) × Store
transaction body s = close_block s (body (record s { staged = some [] }))
