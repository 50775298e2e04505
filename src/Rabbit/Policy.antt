-- ===== src/Rabbit/Policy.antt =====
-- stratae/integrations/rabbitmq.py: the failure policy of a consumer, and its config as far as
-- failures depend on it.
use stratae.Prelude.{
  ℕ, zero, suc, Bool, true, false, Option, none, some, List, [], ◌∷◌, ◌==◌, if◌then◌else◌, max,
}
use stratae.Python.{Text}
use stratae.Python.Dict.{get_or}
use stratae.Rabbit.{Runtime}

-- `RabbitMQFailurePolicy`
pub record Policy : Type 0 where
  pub retry_delays : List ℕ
  pub dead_letter : Bool
  pub dead_letter_queue : Option Text

abbrev all_positive : Runtime → List ℕ → Bool
all_positive r [] = true
all_positive r (d ∷ ds) = if r.is_positive d then all_positive r ds else false

abbrev drops_with_queue : Bool → Option Text → Bool
drops_with_queue false (some q) = true
drops_with_queue _ _ = false

-- `RabbitMQFailurePolicy.__init__`: `none` is the `ValueError`.
unfoldable pub new_policy : Runtime → List ℕ → Bool → Option Text → Option Policy
new_policy r delays dead queue =
    if all_positive r delays
    then (if drops_with_queue dead queue
        then none
        else some (record { retry_delays = delays; dead_letter = dead; dead_letter_queue = queue }))
    else none

-- `_milliseconds`
abbrev pub milliseconds : Runtime → ℕ → ℕ
milliseconds r seconds = max 1 (r.round_milliseconds seconds)

-- `_retry_queue`
abbrev pub retry_queue_name : Runtime → Text → ℕ → Text
retry_queue_name r queue delay = r.retry_name queue (milliseconds r delay)

-- The delay at a position, or `none` past the last.
abbrev pub delay_at : List ℕ → ℕ → Option ℕ
delay_at [] n = none
delay_at (d ∷ ds) zero = some d
delay_at (d ∷ ds) (suc n) = delay_at ds n

abbrev pub named_queue : Runtime → Text → Option ℕ → Option Text
named_queue r queue none = none
named_queue r queue (some delay) = some (retry_queue_name r queue delay)

-- `retry_queue(queue, earlier + 1)`: failures are counted from 1.
unfoldable pub retry_queue : Runtime → Policy → Text → ℕ → Option Text
retry_queue r policy queue earlier = named_queue r queue (delay_at policy.retry_delays earlier)

-- `dead_letter_queue or f"{queue}.dead-letter"`
abbrev pub dead_letter_or : Runtime → Text → Option Text → Text
dead_letter_or r queue none = r.dead_letter_name queue
dead_letter_or r queue (some q) = if q == 0 then r.dead_letter_name queue else q

-- `dead_letter_target`
unfoldable pub dead_letter_target : Runtime → Policy → Text → Option Text
dead_letter_target r policy queue =
    if policy.dead_letter then some (dead_letter_or r queue policy.dead_letter_queue) else none

-- `RabbitMQConsumeConfig`, as far as failures depend on it.
pub record Config : Type 0 where
  pub queue : Option Text
  pub on_failure : Option Policy

-- `cast(str, config.queue)`; the constructor refuses a policy without a queue.
abbrev pub queue_of : Config → Text
queue_of config = get_or config.queue 0

abbrev lacks_queue : Option Policy → Option Text → Bool
lacks_queue (some policy) none = true
lacks_queue _ _ = false

-- `RabbitMQConsumeConfig.__init__`: `none` is the `ValueError`.
unfoldable pub new_config : Option Text → Option Text → Option Policy → Option Config
new_config none none policy = none
new_config queue exchange policy =
    if lacks_queue policy queue then none else some (record { queue = queue; on_failure = policy })
