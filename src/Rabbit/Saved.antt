-- ===== src/Rabbit/Saved.antt =====
-- Where a failed message should go, and with which headers.
use stratae.Prelude.{
  ℕ, zero, suc, ◌≤◌, Bool, true, false, Option, none, some, List, [], ◌∷◌, ◌++◌, ◌==◌, ◌≡◌, ◌≢◌,
  refl, ap, ◌⊎◌, inl, inr, Bool-cases, Option-cases, ==_iff, some_inj, sym, length, max, arith,
}
use stratae.Python.{Text, Exc}
use stratae.Python.Dict.{Dict, lookup, insert, lookup-insert}
use stratae.Rabbit.{
  Runtime, HeaderValue, whole, negative, text, nothing, object, Properties, attempts, failed,
  attempts_header, failure_header, given_headers, count_of,
}
use stratae.Rabbit.Policy.{Policy, delay_at, retry_queue, dead_letter_target}
use stratae.Rabbit.Consumer.{next_queue}

-- The value of a header, if a message has it.
abbrev pub header_in : Text → Option (Dict HeaderValue) → Option HeaderValue
header_in name none = none
header_in name (some headers) = lookup name headers

-- How often a message has failed before: what its header counts, or never without a count.
abbrev pub FailedBefore : Properties → ℕ → Type 0
FailedBefore q n =
    (header_in attempts_header q.headers ≡ some (whole n))
    ⊎ ((n ≡ 0) × ((k : ℕ) → header_in attempts_header q.headers ≢ some (whole k)))

-- The properties of a message that has failed once more: one attempt more, its failure, and
-- everything else as it was.
pub record IsCountedFrom (r : Runtime) (q : Properties) (n : ℕ) (e : Exc) (q' : Properties)
    : Type 0 where
  pub attempt : header_in attempts_header q'.headers ≡ some (whole (suc n))
  pub failure : header_in failure_header q'.headers ≡ some (text (r.describe e))
  pub others :
      (name : Text)
      → (name == attempts_header) ≡ false
      → (name == failure_header) ≡ false
      → header_in name q'.headers ≡ header_in name q.headers
  pub message : q'.message_id ≡ q.message_id
  pub correlation : q'.correlation_id ≡ q.correlation_id
  pub time : q'.timestamp ≡ q.timestamp
  pub rest : q'.others ≡ q.others

-- The delay at a position.
abbrev pub IsAt : ℕ → ℕ → List ℕ → Type 0
IsAt n delay delays =
    (before after : List ℕ) × (delays ≡ before ++ delay ∷ after) × (length before ≡ n)

-- Dropped, or dead-lettered to the queue that the policy names, or to the consumed queue's.
abbrev pub IsLast : Runtime → Policy → Text → Option Text → Type 0
IsLast r policy queue target =
    ((policy.dead_letter ≡ false) × (target ≡ none))
    ⊎ ((policy.dead_letter ≡ true)
        × (q : Text) × (policy.dead_letter_queue ≡ some q)
        × ((q == 0) ≡ false)
        × (target ≡ some q))
    ⊎ ((policy.dead_letter ≡ true)
        × ((policy.dead_letter_queue ≡ none) ⊎ (policy.dead_letter_queue ≡ some 0))
        × (target ≡ some (r.dead_letter_name queue)))

-- The retry queue of the delay at the number of failures before, if it may be retried and there is
-- one, and else the last resort.
abbrev pub GoesTo : Runtime → Policy → Text → ℕ → Bool → Option Text → Type 0
GoesTo r policy queue n retry target =
    ((retry ≡ true)
      × (delay : ℕ) × IsAt n delay policy.retry_delays
      × (target ≡ some (r.retry_name queue (max 1 (r.round_milliseconds delay)))))
    ⊎ (((retry ≡ false) ⊎ (length policy.retry_delays ≤ n)) × IsLast r policy queue target)

-- A count, as `attempts` reads it.
FailedBefore_of :
    (n : ℕ) (o : Option HeaderValue)
    → n ≡ count_of o
    → (o ≡ some (whole n)) ⊎ ((n ≡ 0) × ((k : ℕ) → o ≢ some (whole k)))
FailedBefore_of n none h = inr (h, λ k i. cc)
FailedBefore_of n (some (whole k)) h = inl (ap (λ m. some (whole m)) (sym h))
FailedBefore_of n (some nothing) h = inr (h, λ k i. cc)
FailedBefore_of n (some (negative v)) h = inr (h, λ k i. cc)
FailedBefore_of n (some (text v)) h = inr (h, λ k i. cc)
FailedBefore_of n (some (object v)) h = inr (h, λ k i. cc)

header_in-given :
    (name : Text) (h : Option (Dict HeaderValue)) → lookup name (given_headers h) ≡ header_in name h
header_in-given name none = refl
header_in-given name (some h) = refl

attempts_lem : (q : Properties) → attempts q ≡ count_of (header_in attempts_header q.headers)
unfolding attempts
attempts_lem q = ap count_of (header_in-given attempts_header q.headers)

pub attempts-FailedBefore : (q : Properties) → FailedBefore q (attempts q)
attempts-FailedBefore q =
    FailedBefore_of (attempts q) (header_in attempts_header q.headers) (attempts_lem q)

pub failed-IsCountedFrom :
    (r : Runtime) (q : Properties) (n : ℕ) (e : Exc) → IsCountedFrom r q n e (failed r q (suc n) e)
unfolding failed
failed-IsCountedFrom r q n e =
    let own = given_headers q.headers in
    let counted = insert attempts_header (whole (suc n)) own in
    record {
      attempt =
          rw
            (
              lookup-insert attempts_header failure_header (text (r.describe e)) counted,
              lookup-insert attempts_header attempts_header (whole (suc n)) own,
            )
            refl;
      failure = rw (lookup-insert failure_header failure_header (text (r.describe e)) counted) refl;
      others = λ name a f.
          rw (lookup-insert name failure_header (text (r.describe e)) counted, f)
            (rw (lookup-insert name attempts_header (whole (suc n)) own, a)
              (header_in-given name q.headers));
      message = refl;
      correlation = refl;
      time = refl;
      rest = refl;
    }

delay_at-IsAt : (ds : List ℕ) (n d : ℕ) → delay_at ds n ≡ some d → IsAt n d ds
delay_at-IsAt [] n d h = cc
delay_at-IsAt (x ∷ xs) zero d h = ([], xs, ap (λ y. y ∷ xs) (some_inj h), refl)
delay_at-IsAt (x ∷ xs) (suc n) d h =
    let (before, after, same, size) = delay_at-IsAt xs n d h in
    (x ∷ before, after, ap (λ l. x ∷ l) same, ap suc size)

delay_at-past : (ds : List ℕ) (n : ℕ) → delay_at ds n ≡ none → length ds ≤ n
delay_at-past [] n h = omega arith
delay_at-past (x ∷ xs) zero h = cc
delay_at-past (x ∷ xs) (suc n) h = let le = delay_at-past xs n h in omega (arith, le)

dead_letter-IsLast :
    (r : Runtime) (policy : Policy) (queue : Text)
    → IsLast r policy queue (dead_letter_target r policy queue)
unfolding dead_letter_target
dead_letter-IsLast r policy queue = elim (Bool-cases policy.dead_letter) [
  | inl kept ↦ elim (Option-cases policy.dead_letter_queue) [
    | inl unnamed ↦ rw (kept, unnamed) (inr (inr (refl, inl refl, refl)))
    | inr (q, named) ↦ elim (Bool-cases (q == 0)) [
      | inl empty ↦
          rw (kept, named, empty) (inr (inr (refl, inr (ap some ((==_iff q 0).0 empty)), refl)))
      | inr full ↦ rw (kept, named, full) (inr (inl (refl, q, refl, full, refl)))
    ]
  ]
  | inr dropped ↦ rw dropped (inl (refl, refl))
]

pub next_queue-GoesTo :
    (r : Runtime) (policy : Policy) (queue : Text) (n : ℕ) (retry : Bool)
    → GoesTo r policy queue n retry (next_queue r policy queue n retry)
unfolding next_queue retry_queue
next_queue-GoesTo r policy queue n false = inr (inl refl, dead_letter-IsLast r policy queue)
next_queue-GoesTo r policy queue n true = elim (Option-cases (delay_at policy.retry_delays n)) [
  | inl past ↦
      rw past
        (inr (inr (delay_at-past policy.retry_delays n past), dead_letter-IsLast r policy queue))
  | inr (d, at) ↦ rw at (inl (refl, d, delay_at-IsAt policy.retry_delays n d at, refl))
]
