-- ===== src/Events/Outbox/Relay/Backoff.antt =====
-- The relay's waits: before a retry, and between polls.
use native.Mathlib.Nat.{pow-suc}
use stratae.Prelude.{
  ℕ, suc, ◌-◌, ◌*◌, ◌^◌, ◌≤◌, min, Bool, true, false, none, some, List, [], ◌∷◌, ◌==◌, ◌≡◌, refl,
  inl, inr, arith, Option-cases, Bool-cases, ap, All, leb, ◌&&◌, if◌then◌else◌, some_inj, sym, ◌∙◌,
  ◌↔◌,
}
use stratae.Events.Outbox.Relay.{Config, delay, poll_round, poll_loop}

-- The waits that a float can count, as they double.
abbrev backoff : Config → ℕ → ℕ
backoff c k = min (c.retry_delay * 2 ^ k) c.max_retry_delay

backoff_doubles :
    (c : Config) (k : ℕ)
    → (backoff c (suc k) ≡ min (backoff c k * 2) c.max_retry_delay)
      × (backoff c k ≤ backoff c (suc k))
      × (backoff c k ≤ c.max_retry_delay)
backoff_doubles c k =
    let twice : c.retry_delay * 2 ^ suc k ≡ c.retry_delay * 2 ^ k * 2 =
      rw (pow-suc 2 k) (omega arith) in
    (omega (arith, twice), omega (arith, twice), omega arith)

delay-backoff :
    (c : Config) (k : ℕ)
    → delay c (suc k) ≡ (if c.float_delay && leb 1024 k then none else some (backoff c k))
delay-backoff c k = let one : suc k - 1 ≡ k = omega arith in rw one refl

delay-some : (c : Config) (k d : ℕ) → delay c (suc k) ≡ some d → d ≡ backoff c k
delay-some c k d h = elim (Bool-cases (c.float_delay && leb 1024 k)) [
  | inl i ↦ let over = rw i at (delay-backoff c k) in cc (h, over)
  | inr i ↦ let fits = rw i at (delay-backoff c k) in some_inj (sym h ∙ fits)
]

delay-none : (c : Config) (k : ℕ) → (delay c (suc k) ≡ none) ↔ ((c.float_delay ≡ true) × (1024 ≤ k))
delay-none c k = (
  λ h. elim (Bool-cases (c.float_delay && leb 1024 k)) [
    | inl i ↦ (ground (arith, i), ground (arith, i))
    | inr i ↦ let fits = rw i at (delay-backoff c k) in cc (h, fits)
  ],
  λ h.
      let over : (c.float_delay && leb 1024 k) ≡ true = rw (h.0) (ground (arith, h.1)) in
      rw over at (delay-backoff c k),
)

-- The waits before the retries of a record: while a float can count them, the first is
-- `retry_delay`, each next one is twice the one before, and none is shorter than the one before it
-- or longer than `max_retry_delay`. With a float `retry_delay`, the failures from the 1025th on
-- have no wait, but an `OverflowError`; and no others.
pub delay_doubles :
    (c : Config) (k d d' : ℕ)
    → delay c (suc k) ≡ some d
    → delay c (suc (suc k)) ≡ some d'
    → (d' ≡ min (d * 2) c.max_retry_delay)
      × (d ≤ d')
      × (d ≤ c.max_retry_delay)
      × (delay c 1 ≡ some (min c.retry_delay c.max_retry_delay))
      × ((n : ℕ) → (delay c (suc n) ≡ none) ↔ ((c.float_delay ≡ true) × (1024 ≤ n)))
delay_doubles c k d d' now next =
    let b = backoff_doubles c k in
    let one = delay-some c k d now in
    let two = delay-some c (suc k) d' next in
    (
      rw (one, two) b.0,
      rw (one, two) b.1,
      rw one b.2,
      elim (Bool-cases c.float_delay) [
        | inl i ↦ rw i (ap some (omega arith))
        | inr i ↦ rw i (ap some (omega arith))
      ],
      λ n. delay-none c n,
    )

poll_round-bounds :
    (c : Config) (b : ℕ × Bool) (wait : ℕ)
    → c.poll_interval ≤ c.max_poll_interval
    → c.poll_interval ≤ wait
    → wait ≤ c.max_poll_interval
    → (c.poll_interval ≤ (poll_round c b wait).1) × ((poll_round c b wait).1 ≤ c.max_poll_interval)
unfolding poll_round
poll_round-bounds c (claimed, outage) wait h lo hi = ground arith

poll_round-slept :
    (c : Config) (b : ℕ × Bool) (wait t : ℕ)
    → c.poll_interval ≤ c.max_poll_interval
    → c.poll_interval ≤ wait
    → wait ≤ c.max_poll_interval
    → (poll_round c b wait).0 ≡ some t
    → (c.poll_interval ≤ t) × (t ≤ c.max_poll_interval)
unfolding poll_round
poll_round-slept c (claimed, outage) wait t h lo hi e = ground arith

-- A wait is `poll_interval` after a batch that claimed something and met no outage.
poll_round-reset :
    (c : Config) (claimed wait : ℕ)
    → (claimed == 0) ≡ false
    → (claimed == c.batch_size) ≡ false
    → poll_round c (claimed, false) wait
      ≡ (some c.poll_interval, min (c.poll_interval * 2) c.max_poll_interval)
unfolding poll_round
poll_round-reset c claimed wait some_claimed not_full = ground arith

abbrev Within : Config → ℕ → Type 0
Within c t = (c.poll_interval ≤ t) × (t ≤ c.max_poll_interval)

poll_loop-Within :
    (c : Config) (bs : List (ℕ × Bool)) (wait : ℕ)
    → c.poll_interval ≤ c.max_poll_interval
    → Within c wait
    → All (Within c) (poll_loop c bs wait)
unfolding poll_loop
poll_loop-Within c [] wait h w = tt
poll_loop-Within c (b ∷ bs) wait h w =
    let rest =
      poll_loop-Within c bs (poll_round c b wait).1 h (poll_round-bounds c b wait h w.0 w.1) in
    elim (Option-cases (poll_round c b wait).0) [
      | inl e ↦ rw (e, poll_loop) rest
      | inr (t, e) ↦ rw (e, poll_loop) (poll_round-slept c b wait t h w.0 w.1 e, rest)
    ]

-- Whatever its batches return, every wait that a relay sleeps lies between the two poll intervals,
-- if these are in order; and after a batch that claimed something, but not a full batch, and met no
-- outage, it sleeps the shorter one, whatever it waited before.
pub poll_bounds :
    (c : Config) (bs : List (ℕ × Bool))
    → c.poll_interval ≤ c.max_poll_interval
    → All (λ t. (c.poll_interval ≤ t) × (t ≤ c.max_poll_interval)) (poll_loop c bs c.poll_interval)
      × ((claimed wait : ℕ)
          → (claimed == 0) ≡ false
          → (claimed == c.batch_size) ≡ false
          → (poll_round c (claimed, false) wait).0 ≡ some c.poll_interval)
poll_bounds c bs h = (
  poll_loop-Within c bs c.poll_interval h (omega arith),
  λ claimed wait n f. rw (poll_round-reset c claimed wait n f) refl,
)
