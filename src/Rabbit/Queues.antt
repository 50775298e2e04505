-- ===== src/Rabbit/Queues.antt =====
-- stratae/integrations/rabbitmq.py: the queues that a consumer declares when it starts consuming,
-- against those that its failed messages are published to.
use stratae.Prelude.{
  ℕ, zero, suc, Bool, true, false, Option, none, some, List, [], ◌∷◌, ◌++◌, map, ◌==◌, not,
  if◌then◌else◌, ◌≡◌, refl, sym, ◌⊎◌, inl, inr, Bool-cases, ==_iff, some_inj, keep,
}
use stratae.Python.{Text}
use stratae.Python.Dict.{get_or}
use stratae.Rabbit.{Runtime}
use stratae.Rabbit.Policy.{
  Policy, Config, milliseconds, retry_queue_name, delay_at, named_queue, retry_queue,
  dead_letter_target,
}
use stratae.Rabbit.Consumer.{fail_target, next_queue}
use mathlib.Core.List.{Memᴰ}
use mathlib.Core.List.Memᴰ

-- A durable queue: its name, and after how many milliseconds its messages go on to which queue, if
-- they do.
pub record Declared : Type 0 where
  pub name : Text
  pub expires : Option (ℕ × Text)

-- `dict.fromkeys(xs)`: each once, where it is first.
abbrev pub fromkeys : List ℕ → List ℕ
fromkeys [] = []
fromkeys (x ∷ xs) = x ∷ keep (λ y. not (y == x)) (fromkeys xs)

abbrev pub retry_declared : Runtime → Text → ℕ → Declared
retry_declared r queue delay = record {
  name = retry_queue_name r queue delay;
  expires = some (milliseconds r delay, queue);
}

abbrev pub dead_letter_declared : Option Text → List Declared
dead_letter_declared none = []
dead_letter_declared (some name) = record { name = name; expires = none } ∷ []

-- `_declare_failure_queues`
unfoldable pub declare_failure_queues : Runtime → Text → Policy → List Declared
declare_failure_queues r queue policy =
    map (retry_declared r queue) (fromkeys policy.retry_delays)
    ++ dead_letter_declared (dead_letter_target r policy queue)

-- `config.queue or declared.queue or ""`, given the name that the broker answers.
abbrev named_or : Option Text → Text → Text
named_or none answered = answered
named_or (some q) answered = if q == 0 then answered else q

unfoldable pub consumed_queue : Config → Option Text → Text
consumed_queue config answered = named_or config.queue (get_or answered 0)

abbrev of_policy : Runtime → Text → Option Policy → List Declared
of_policy r queue none = []
of_policy r queue (some policy) = declare_failure_queues r queue policy

-- The failure queues that `_declare` declares.
unfoldable pub declare : Runtime → Config → Option Text → List Declared
declare r config answered = of_policy r (consumed_queue config answered) config.on_failure

Mem-keep : (p : ℕ → Bool) (x : ℕ) (xs : List ℕ) → p x ≡ true → Memᴰ x xs → Memᴰ x (keep p xs)
Mem-keep p x [] h m = elim (Memᴰ.not-nil m) [ ]
Mem-keep p x (y ∷ ys) h m = elim (Memᴰ.cases_cons m) [
  | inl e ↦ rw (← e, h) (Memᴰ.head refl)
  | inr n ↦ elim (Bool-cases (p y)) [
    | inl i ↦ rw i (Memᴰ.tail (Mem-keep p x ys h n))
    | inr i ↦ rw i (Mem-keep p x ys h n)
  ]
]

pub Mem-fromkeys : (x : ℕ) (xs : List ℕ) → Memᴰ x xs → Memᴰ x (fromkeys xs)
Mem-fromkeys x [] m = m
Mem-fromkeys x (y ∷ ys) m = elim (Memᴰ.cases_cons m) [
  | inl e ↦ Memᴰ.head e
  | inr n ↦ elim (Bool-cases (x == y)) [
    | inl i ↦ Memᴰ.head ((==_iff x y).0 i)
    | inr i ↦
        Memᴰ.tail (Mem-keep (λ z. not (z == y)) x (fromkeys ys) (rw i refl) (Mem-fromkeys x ys n))
  ]
]

pub Mem-delay_at : (ds : List ℕ) (n d : ℕ) → delay_at ds n ≡ some d → Memᴰ d ds
Mem-delay_at [] n d h = cc
Mem-delay_at (x ∷ xs) zero d h = Memᴰ.head (sym (some_inj h))
Mem-delay_at (x ∷ xs) (suc n) d h = Memᴰ.tail (Mem-delay_at xs n d h)

-- Among some declared queues, either as one that holds its messages for a while and then hands
-- them to the consumed queue, or as one that keeps them.
abbrev pub IsAmong : Text → Text → List Declared → Type 0
IsAmong queue name declared =
    ((ms : ℕ) × Memᴰ (record { name = name; expires = some (ms, queue) }) declared)
    ⊎ Memᴰ (record { name = name; expires = none }) declared

module _ (r : Runtime) (policy : Policy) (queue : Text) where
  retry-IsAmong :
      (o : Option ℕ) (name : Text)
      → ((d : ℕ) → o ≡ some d → Memᴰ d policy.retry_delays)
      → named_queue r queue o ≡ some name
      → IsAmong queue name (declare_failure_queues r queue policy)
  unfolding declare_failure_queues
  retry-IsAmong none name m h = cc
  retry-IsAmong (some d) name m h =
      let found =
        Memᴰ.map (retry_declared r queue) (Mem-fromkeys d policy.retry_delays (m d refl)) in
      let dead = dead_letter_declared (dead_letter_target r policy queue) in
      inl (milliseconds r d, rw (← some_inj h) (Memᴰ.append_left dead found))

  dead-IsAmong :
      (name : Text)
      → dead_letter_target r policy queue ≡ some name
      → IsAmong queue name (declare_failure_queues r queue policy)
  unfolding declare_failure_queues
  dead-IsAmong name h = inr (
      rw h (
        Memᴰ.append_right (map (retry_declared r queue) (fromkeys policy.retry_delays))
          (Memᴰ.head refl)))

  target-IsAmong :
      (n : ℕ) (o : Option Text) (name : Text)
      → ((t : Text) → o ≡ some t → IsAmong queue t (declare_failure_queues r queue policy))
      → fail_target r policy queue n o ≡ some name
      → IsAmong queue name (declare_failure_queues r queue policy)
  target-IsAmong n none name a h = dead-IsAmong name h
  target-IsAmong n (some t) name a h = a name h

  pub next_queue-IsAmong :
      (n : ℕ) (retry : Bool) (name : Text)
      → next_queue r policy queue n retry ≡ some name
      → IsAmong queue name (declare_failure_queues r queue policy)
  unfolding next_queue retry_queue
  next_queue-IsAmong n true name h =
      target-IsAmong n (named_queue r queue (delay_at policy.retry_delays n)) name
        (λ t i.
          retry-IsAmong (delay_at policy.retry_delays n) t
            (λ d j. Mem-delay_at policy.retry_delays n d j) i)
        h
  next_queue-IsAmong n false name h = dead-IsAmong name h
