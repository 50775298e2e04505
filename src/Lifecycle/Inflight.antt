-- ===== src/Lifecycle/Inflight.antt =====
-- stratae/lifecycle/_inflight.py: `Pending` and `watch_thread_claim`, the claims of threads on
-- entries that they compute. Threads and events are numbers.
use stratae.Prelude.{ℕ, Bool, true, Option, none, some, ◌==◌, if◌then◌else◌}

-- A claim is the owning thread's id, or a `Pending` with its owner and its event, if there is one.
pub data Claim : Type 0 where
  thread : ℕ → Claim
  pending : ℕ → Option ℕ → Claim

abbrev pub owner : Claim → ℕ
owner (thread t) = t
owner (pending t event) = t

-- The event of a `Pending` that is waited on, a new one if it has none.
abbrev pub or_new : ℕ → Option ℕ → ℕ
or_new new none = new
or_new new (some event) = event

-- `Pending.watch`, by a thread: the `Pending`, and the event, or none if it raises a
-- `CacheCycleError`.
unfoldable pub watch : ℕ → ℕ → ℕ → Option ℕ → Claim × Option ℕ
watch me new t event =
    if t == me
    then (pending t event, none)
    else (pending t (some (or_new new event)), some (or_new new event))

-- `watch_thread_claim`: the claim that the dict then has, and the event.
unfoldable pub watch_thread_claim : ℕ → ℕ → Claim → Claim × Option ℕ
watch_thread_claim me new (thread t) = watch me new t none
watch_thread_claim me new (pending t event) = watch me new t event

-- `Pending.release`, on the events that are set; an owner's id has nothing to release.
unfoldable pub release : Claim → (ℕ → Bool) → ℕ → Bool
release (thread t) set e = set e
release (pending t none) set e = set e
release (pending t (some event)) set e = if e == event then true else set e

abbrev pub release_popped : Option Claim → (ℕ → Bool) → ℕ → Bool
release_popped none set = set
release_popped (some c) set = release c set
