-- ===== src/Events/Outbox/Relay/Batch.antt =====
-- One batch of the relay against the description of where every claimed record goes.
use mathlib.Core.List.{Perm, append-nil, append_assoc}
use stratae.Prelude.{
  ℕ, Bool, true, false, List, [], ◌∷◌, ◌++◌, length, ◌≡◌, refl, sym, ap, inl, inr, Bool-cases,
}
use stratae.Python.{Exc, Outcome, returned, raised}
use stratae.Events.Outbox.Record.{OutboxRecord}
use stratae.Events.Outbox.Relay.{
  OutboxStore, Config, Failure, unreachable, counts, aborts, failure_of, on_failure, on_publish,
  ended, after_marked, Progress, relay_loop, finish_batch, relay_batch,
}
use stratae.Events.Outbox.Relay.Described.{
  IsTotal, is_returned, overflows, stops_at, end_at, handled, unhandled, end_of, waiting_of,
  sent_of, failed_of, attempted, fail_step, fail_all, mark_all, put_back_all, reported,
}
use stratae.Events.Outbox.Relay.Attempts.{
  Takes, failure_of-Takes, batch-perm, put_back_lem, fail_record-attempted, fail_record-overflows,
}

module _ {S : Type 0} (store : OutboxStore S) (c : Config) (clock : OutboxRecord → ℕ) where
  -- What the loop leaves, by the description.
  abbrev described :
      (OutboxRecord → Outcome (Unit {0}))
      → List OutboxRecord
      → List OutboxRecord
      → S
      → Progress store c clock
  described publish rs sent s = (
    end_of c publish (unhandled c publish rs),
    sent ++ sent_of publish (handled c publish rs),
    put_back_all store c clock (waiting_of c publish (unhandled c publish rs))
        (fail_all store c clock publish (handled c publish rs) s),
  )

  -- What is known of the records behind one.
  abbrev IsLooped : (OutboxRecord → Outcome (Unit {0})) → List OutboxRecord → Type 0
  IsLooped publish rs =
      (sent : List OutboxRecord) (s : S)
      → relay_loop store c clock publish rs sent s ≡ described publish rs sent s

  stopped-described :
      IsTotal store
      → (publish : OutboxRecord → Outcome (Unit {0})) (r : OutboxRecord)
        (rs sent : List OutboxRecord) (s : S) (e : Exc) (f : Failure)
      → publish r ≡ raised e
      → Takes f e.kind
      → IsLooped publish rs
      → on_failure store c clock (relay_loop store c clock publish rs) r rs e f sent s
        ≡ described publish (r ∷ rs) sent s
  unfolding handled unhandled fail_all put_back_all
  stopped-described total publish r rs sent s e unreachable p k ih =
      let stops : stops_at c r (publish r) ≡ true = rw (p, k) refl in
      let ends : end_at c r (publish r) ≡ returned true = rw (p, k) refl in
      let waits : waiting_of c publish (r ∷ rs) ≡ r ∷ rs = rw (ends, waiting_of) in
      rw (put_back_lem store c clock total (r ∷ rs) s)
        (rw stops (rw waits (rw ends (rw (append-nil sent) refl))))
  stopped-described total publish r rs sent s e counts p k ih = elim (Bool-cases (overflows c r)) [
    | inl over ↦
        let stops : stops_at c r (publish r) ≡ true = rw (p, k.0, k.1, over) refl in
        let ends : end_at c r (publish r) ≡ raised c.overflow = rw (p, k.0, k.1, over) refl in
        let waits : waiting_of c publish (r ∷ rs) ≡ [] = rw (ends, waiting_of) in
        rw (fail_record-overflows store c clock r e s over)
          (rw stops (rw waits (rw ends (rw (append-nil sent) refl))))
    | inr fits ↦
        let stops : stops_at c r (publish r) ≡ false = rw (p, k.0, k.1, fits) refl in
        let lost : is_returned (publish r) ≡ false = rw p in
        let step : fail_step store c clock r (publish r) s ≡ attempted store c clock r e s = rw p in
        rw (fail_record-attempted store c clock total r e s fits) (
          rw (ih sent (attempted store c clock r e s))
            (rw stops (rw lost (ap (described publish rs sent) (sym step)))))
  ]
  stopped-described total publish r rs sent s e aborts p k ih =
      let stops : stops_at c r (publish r) ≡ true = rw (p, k.0, k.1) refl in
      let ends : end_at c r (publish r) ≡ raised e = rw (p, k.0, k.1) refl in
      let waits : waiting_of c publish (r ∷ rs) ≡ [] = rw (ends, waiting_of) in
      rw stops (rw waits (rw ends (rw (append-nil sent) refl)))

  on_publish-described :
      IsTotal store
      → (publish : OutboxRecord → Outcome (Unit {0})) (r : OutboxRecord)
        (rs sent : List OutboxRecord) (s : S) (o : Outcome (Unit {0}))
      → publish r ≡ o
      → IsLooped publish rs
      → on_publish store c clock (relay_loop store c clock publish rs) r rs o sent s
        ≡ described publish (r ∷ rs) sent s
  unfolding handled unhandled fail_all
  on_publish-described total publish r rs sent s (returned _) p ih =
      let stops : stops_at c r (publish r) ≡ false = rw p in
      let kept : is_returned (publish r) ≡ true = rw p in
      let step : fail_step store c clock r (publish r) s ≡ s = rw p in
      rw (ih (sent ++ r ∷ []) s) (
        rw stops (
          rw kept (
            rw (append_assoc sent (r ∷ [])) (
              ap
                (λ x. (
                  end_of c publish (unhandled c publish rs),
                  sent ++ r ∷ sent_of publish (handled c publish rs),
                  (described publish rs [] x).2,
                ))
                (sym step)))))
  on_publish-described total publish r rs sent s (raised e) p ih =
      stopped-described total publish r rs sent s e (failure_of e.kind) p (failure_of-Takes e.kind)
        ih

  loop_lem :
      IsTotal store
      → (publish : OutboxRecord → Outcome (Unit {0})) (rs : List OutboxRecord) → IsLooped publish rs
  unfolding relay_loop handled unhandled fail_all put_back_all
  loop_lem total publish [] sent s = rw (append-nil sent) refl
  loop_lem total publish (r ∷ rs) sent s =
      on_publish-described total publish r rs sent s (publish r) refl (loop_lem total publish rs)

  ended-reported :
      (claimed count : ℕ) (o : Outcome Bool) (s : S)
      → ended store c clock claimed count o s ≡ reported claimed count o s
  ended-reported claimed count (returned outage) s = refl
  ended-reported claimed count (raised e) s = refl

  marked_lem :
      IsTotal store
      → (claimed : ℕ) (o : Outcome Bool) (sent : List OutboxRecord) (s : S)
      → finish_batch store c clock claimed (o, sent, s)
        ≡ reported claimed (length sent) o (mark_all store c clock sent s)
  unfolding mark_all
  marked_lem total claimed o [] s = ended-reported claimed 0 o s
  marked_lem total claimed o (r ∷ rs) s = go (store.mark_sent (r ∷ rs) s) (total.marks (r ∷ rs) s)
    where
      go :
          (p : Outcome (Unit {0}) × S)
          → p.0 ≡ returned tt
          → after_marked store c clock claimed (length (r ∷ rs)) o p
            ≡ reported claimed (length (r ∷ rs)) o p.1
      go (returned _, s') h = ended-reported claimed (length (r ∷ rs)) o s'
      go (raised e, s') h = cc

  -- One batch over a store whose methods do not raise, from the records that it claimed. Up to the
  -- first publish that meets an outage, is no `Exception` at all, or fails once more than a wait can
  -- count, a record whose publish returns is sent, and one whose publish raises has an attempt
  -- counted: it is parked at its limit, and else due again after its wait. After an outage the
  -- records from that one on are rescheduled as they were; another end touches none of them. Either
  -- way all that was sent is marked, in one call, and the batch reports how many records it claimed
  -- and sent and whether it met an outage, or raises what ended it: what the publish raised, or the
  -- overflow. The records sent, those whose failure is counted and the others are together the
  -- claimed ones, each as often.
  pub relay_batch_lem :
      IsTotal store
      → (publish : OutboxRecord → Outcome (Unit {0})) (records : List OutboxRecord) (s s₁ : S)
      → store.claim c.batch_size s ≡ (returned records, s₁)
      → let sent = sent_of publish (handled c publish records) in
        let rest = unhandled c publish records in
        (relay_batch store c clock publish s
          ≡ reported (length records) (length sent) (end_of c publish rest) (
              mark_all store c clock sent (
                put_back_all store c clock
                  (waiting_of c publish rest)
                  (fail_all store c clock publish (handled c publish records) s₁))))
        × Perm ((sent ++ failed_of publish (handled c publish records)) ++ rest) records
  unfolding relay_batch
  relay_batch_lem total publish records s s₁ claimed = (
    rw (claimed, loop_lem total publish records [] s₁)
        (marked_lem total (length records) (end_of c publish (unhandled c publish records))
          (sent_of publish (handled c publish records)) _),
    batch-perm c publish records,
  )
