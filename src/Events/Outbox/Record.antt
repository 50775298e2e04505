-- ===== src/Events/Outbox/Record.antt =====
-- stratae/events/outbox.py: `OutboxRecord`.
use stratae.Prelude.{ℕ, Option}
use stratae.Python.{Exc, Text}
use stratae.Python.Dict.{Dict}

-- Identities, bodies and texts are numbers, since they are only compared and passed on; times
-- count the clock's ticks. `error` is the exception from which the stored text is formatted.
pub record OutboxRecord : Type 0 where
  pub id : ℕ
  pub route : Text
  pub body : ℕ
  pub headers : Dict Text
  pub created_at : ℕ
  pub available_at : ℕ
  pub key : Option Text
  pub attempts : ℕ
  pub error : Option Exc
