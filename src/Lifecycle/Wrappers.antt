-- ===== src/Lifecycle/Wrappers.antt =====
-- stratae/lifecycle/_wrappers.py: the code that is generated for sync functions that a scope caches
-- once per activation, where threads share the activation: `_write_slot_body`,
-- `_write_claimed_slot_miss`, `_write_claimed_compute` and `_write_slot_store`.
-- An entry, by number, is a wrapper with its slot and its claims' key. One activation of the scope
-- is modelled, from its start over its end. What runs under a wrapper's lock is one step; all other
-- reads and writes of shared state are steps of their own.

mod Counting
mod Invariant
mod Steps
mod Results
mod Finishing
pub mod Once
pub mod Waiting
mod Tests
use stratae.Prelude.{
  ℕ, ◌+◌, Bool, true, false, Option, none, some, List, [], ◌∷◌, ◌==◌, if◌then◌else◌,
}
use stratae.Lifecycle.Inflight.{Claim, thread, watch_thread_claim, release_popped}

-- What a call of a wrapper comes to. `inactive` is the error of `get_slots`, and `emptied` that of
-- reading the storage of an activation that ended after the first read.
pub data Result (V : Type 0) : Type 0 where
  value : V → Result V
  failed : ℕ → Result V
  cache_cycle activation_ended inactive emptied : Result V

-- A call in progress: before its first read; before the lock is taken; waiting for an event; in
-- the function; with its value before the store; and before the claim is given up.
pub data Frame (V : Type 0) : Type 0 where
  looking claiming computing : ℕ → Frame V
  waiting : ℕ → ℕ → Frame V
  storing : ℕ → V → Frame V
  unclaiming : ℕ → Result V → Frame V

-- A finished call: its thread, its entry and what it came to.
pub record Finished (V : Type 0) : Type 0 where
  pub by : ℕ
  pub entry : ℕ
  pub result : Result V

-- `cache` is the content of the slots and `ended` tells that the storage has been emptied; `claims`
-- is `__inflight__`, and `set` the events that are set. `computed` and `finished` are the history:
-- what the functions have returned, and the calls that are over, the latest first.
pub record Shared (V : Type 0) : Type 0 where
  pub cache : ℕ → Option V
  pub ended : Bool
  pub claims : ℕ → Option Claim
  pub set : ℕ → Bool
  pub new_event : ℕ
  pub computed : ℕ → List V
  pub finished : List (Finished V)

abbrev pub put : {A : Type 0} → ℕ → A → (ℕ → A) → ℕ → A
put k a f j = if j == k then a else f j

module _ {V : Type 0} where
  abbrev pub finish : ℕ → ℕ → Result V → Shared V → List (Frame V) → Shared V × List (Frame V)
  finish me k r s fs =
      (record s { finished = record { by = me; entry = k; result = r } ∷ s.finished }, fs)

  -- The first read of the slot, and `get_slots` if the storage has been emptied.
  abbrev pub on_read :
      Bool → Option V → ℕ → ℕ → Shared V → List (Frame V) → Shared V × List (Frame V)
  on_read true c me k s fs = finish me k inactive s fs
  on_read false (some v) me k s fs = finish me k (value v) s fs
  on_read false none me k s fs = (s, claiming k ∷ fs)

  unfoldable pub look : ℕ → ℕ → Shared V → List (Frame V) → Shared V × List (Frame V)
  look me k s fs = on_read s.ended (s.cache k) me k s fs

  abbrev pub on_watch :
      Claim × Option ℕ → ℕ → ℕ → Shared V → List (Frame V) → Shared V × List (Frame V)
  on_watch (c, none) me k s fs =
      finish me k cache_cycle (record s { claims = put k (some c) s.claims }) fs
  on_watch (c, some e) me k s fs =
      (record s { claims = put k (some c) s.claims; new_event = s.new_event + 1 }, waiting k e ∷ fs)

  -- The read again, by whether the storage has been emptied and what it holds; then by the claim
  -- that there is, one of one's own or a wait.
  abbrev pub on_recheck :
      Bool → Option V → Option Claim → ℕ → ℕ → Shared V → List (Frame V) → Shared V × List (Frame V)
  on_recheck true c p me k s fs = finish me k emptied s fs
  on_recheck false (some v) p me k s fs = finish me k (value v) s fs
  on_recheck false none none me k s fs =
      (record s { claims = put k (some (thread me)) s.claims }, computing k ∷ fs)
  on_recheck false none (some c) me k s fs =
      on_watch (watch_thread_claim me s.new_event c) me k s fs

  -- `write_claim`, under the lock.
  unfoldable pub claim : ℕ → ℕ → Shared V → List (Frame V) → Shared V × List (Frame V)
  claim me k s fs = on_recheck s.ended (s.cache k) (s.claims k) me k s fs

  -- `__done__.wait()`, then the test for an end; a thread whose event is not set stays where it is.
  abbrev pub on_event :
      Bool → Bool → ℕ → ℕ → ℕ → Shared V → List (Frame V) → Shared V × List (Frame V)
  on_event false ended me k e s fs = (s, waiting k e ∷ fs)
  on_event true true me k e s fs = finish me k activation_ended s fs
  on_event true false me k e s fs = (s, claiming k ∷ fs)

  unfoldable pub wake : ℕ → ℕ → ℕ → Shared V → List (Frame V) → Shared V × List (Frame V)
  wake me k e s fs = on_event (s.set e) s.ended me k e s fs

  -- `_write_slot_store`: an emptied storage is not filled again.
  abbrev pub stored : Bool → ℕ → V → Shared V → Shared V
  stored true k v s = s
  stored false k v s = record s { cache = put k (some v) s.cache }

  unfoldable pub store : ℕ → V → Shared V → List (Frame V) → Shared V × List (Frame V)
  store k v s fs = (stored s.ended k v s, unclaiming k (value v) ∷ fs)

  -- `write_unclaim`, under the lock.
  unfoldable pub unclaim : ℕ → ℕ → Result V → Shared V → List (Frame V) → Shared V × List (Frame V)
  unclaim me k r s fs =
      finish me k r
        (record s { claims = put k none s.claims; set = release_popped (s.claims k) s.set }) fs

  -- The next step of a thread's latest call. Within the function it is the function's to make.
  unfoldable pub advance : ℕ → Shared V → List (Frame V) → Shared V × List (Frame V)
  advance me s [] = (s, [])
  advance me s (looking k ∷ fs) = look me k s fs
  advance me s (claiming k ∷ fs) = claim me k s fs
  advance me s (waiting k e ∷ fs) = wake me k e s fs
  advance me s (computing k ∷ fs) = (s, computing k ∷ fs)
  advance me s (storing k v ∷ fs) = store k v s fs
  advance me s (unclaiming k r ∷ fs) = unclaim me k r s fs

  -- The function returns.
  unfoldable pub return_value : V → Shared V → List (Frame V) → Shared V × List (Frame V)
  return_value v s (computing k ∷ fs) =
      (record s { computed = put k (v ∷ s.computed k) s.computed }, storing k v ∷ fs)
  return_value v s fs = (s, fs)

  -- The function raises.
  unfoldable pub raise_error : ℕ → Shared V → List (Frame V) → Shared V × List (Frame V)
  raise_error e s (computing k ∷ fs) = (s, unclaiming k (failed e) ∷ fs)
  raise_error e s fs = (s, fs)

  -- A wrapper is called, by the program or from a function that is being computed.
  unfoldable pub call : ℕ → List (Frame V) → List (Frame V)
  call k [] = looking k ∷ []
  call k (computing j ∷ fs) = looking k ∷ computing j ∷ fs
  call k fs = fs

-- What a thread does next, if it is where it can.
pub data Act (V : Type 0) : Type 0 where
  calls raises : ℕ → Act V
  returns : V → Act V
  advances : Act V

-- The shared state, and each thread's calls in progress, the innermost first.
pub record System (V : Type 0) : Type 0 where
  pub shared : Shared V
  pub stacks : ℕ → List (Frame V)

-- A step of a thread, or the end of the activation, which empties its storage.
pub data Event (V : Type 0) : Type 0 where
  acts : ℕ → Act V → Event V
  ends : Event V

module _ {V : Type 0} where
  abbrev pub perform : ℕ → Act V → Shared V → List (Frame V) → Shared V × List (Frame V)
  perform me (calls k) s fs = (s, call k fs)
  perform me (raises e) s fs = raise_error e s fs
  perform me (returns v) s fs = return_value v s fs
  perform me advances s fs = advance me s fs

  abbrev pub install : ℕ → Shared V × List (Frame V) → (ℕ → List (Frame V)) → System V
  install me done stacks = record { shared = done.0; stacks = put me done.1 stacks }

  abbrev pub step : Event V → System V → System V
  step (acts me a) y = install me (perform me a y.shared (y.stacks me)) y.stacks
  step ends y = record y { shared = record (y.shared) { ended = true; cache = λ (k : ℕ). none } }

  unfoldable pub run : List (Event V) → System V → System V
  run [] y = y
  run (e ∷ es) y = run es (step e y)

  -- A new activation, with no calls.
  abbrev pub initial : System V
  initial = record {
    shared = record {
      cache = λ (k : ℕ). none;
      ended = false;
      claims = λ (k : ℕ). none;
      set = λ (e : ℕ). false;
      new_event = 0;
      computed = λ (k : ℕ). [];
      finished = [];
    };
    stacks = λ (t : ℕ). [];
  }
