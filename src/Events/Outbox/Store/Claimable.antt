-- ===== src/Events/Outbox/Store/Claimable.antt =====
-- Which records a claim may take, described without the code's tests.
use stratae.Prelude.{
  ℕ, Bool, true, false, Option, none, some, List, [], ◌∷◌, leb, keep, ◌&&◌, sym, ap, ◌∙◌, ◌≡◌, refl,
  inl, inr, arith, Bool-cases, Option-cases, All,
}
use stratae.Python.Dict.{Dict, lookup, contains, values, contains-lookup}
use stratae.Events.Outbox.Record.{OutboxRecord}
use stratae.Events.Outbox.Store.{Status, pending, sent, failed, is_status, Store, select, is_due}

-- Whether the store has a record under a status.
abbrev pub has_status : Status → Dict Status → OutboxRecord → Bool
has_status st status r = elim (lookup r.id status) [
  | none ↦ false
  | some found ↦ is_status found st
]

pub values_indexed :
    (status : Dict Status) (d : Dict OutboxRecord)
    → All (λ e. (e.1.id ≡ e.0) × (contains e.0 status ≡ true)) d
    → All (λ r. contains r.id status ≡ true) (values d)
values_indexed status [] h = tt
values_indexed status (e ∷ d) h = (rw (h.0.0) h.0.1, values_indexed status d h.1)

pub select_lem :
    (st : Status) (status : Dict Status) (rs : List OutboxRecord)
    → All (λ r. contains r.id status ≡ true) rs
    → select st status rs ≡ some (keep (has_status st status) rs)
unfolding select
select_lem st status [] h = refl
select_lem st status (r ∷ rs) h =
    let (found, e) = contains-lookup r.id status h.0 in
    ground (arith, e, select_lem st status rs h.1)

-- A record that a claim may take: the store has it as pending, it is available, and its lease, if
-- it has one, has run out.
abbrev pub is_pending : Option Status → Bool
is_pending (some pending) = true
is_pending (some sent) = false
is_pending (some failed) = false
is_pending none = false

abbrev pub is_unleased : ℕ → Option ℕ → Bool
is_unleased now none = true
is_unleased now (some until) = leb until now

abbrev pub is_claimable : ℕ → Store → OutboxRecord → Bool
is_claimable now s r =
    is_pending (lookup r.id s.status)
    && (leb r.available_at now && is_unleased now (lookup r.id s.leased))

leb_refl : (n : ℕ) → leb n n ≡ true
leb_refl n = ground arith

has_status-is_pending :
    (r : OutboxRecord) (d : Dict Status) → has_status pending d r ≡ is_pending (lookup r.id d)
has_status-is_pending r d = elim (Option-cases (lookup r.id d)) [
  | inl e ↦ rw (e, has_status) refl
  | inr (st, e) ↦ rw (e, has_status) (is_status_lem st)
]
  where
    is_status_lem : (st : Status) → is_status st pending ≡ is_pending (some st)
    is_status_lem pending = refl
    is_status_lem sent = refl
    is_status_lem failed = refl

is_due-is_unleased :
    (now : ℕ) (s : Store) (r : OutboxRecord)
    → is_due now s r ≡ (leb r.available_at now && is_unleased now (lookup r.id s.leased))
is_due-is_unleased now s r = elim (Option-cases (lookup r.id s.leased)) [
  | inl e ↦ rw e (rw (leb_refl now) refl)
  | inr (u, e) ↦ rw e refl
]

pub keep-is_claimable :
    (now : ℕ) (s : Store) (rs : List OutboxRecord)
    → keep (is_due now s) (keep (has_status pending s.status) rs) ≡ keep (is_claimable now s) rs
keep-is_claimable now s [] = refl
keep-is_claimable now s (r ∷ rs) =
    let h = has_status-is_pending r s.status in
    let d = is_due-is_unleased now s r in
    let rest = keep-is_claimable now s rs in
    elim (Bool-cases (has_status pending s.status r)) [
      | inl i ↦ elim (Bool-cases (is_due now s r)) [
        | inl j ↦
            let both : is_claimable now s r ≡ true = rw (sym h ∙ i) (sym d ∙ j) in
            rw (i, both) (rw j (ap (◌∷◌ r) rest))
        | inr j ↦
            let both : is_claimable now s r ≡ false = rw (sym h ∙ i) (sym d ∙ j) in
            rw (i, both) (rw j rest)
      ]
      | inr i ↦
          let neither : is_claimable now s r ≡ false = rw (sym h ∙ i) refl in rw (i, neither) rest
    ]
