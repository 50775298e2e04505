-- ===== src/Events/Middleware/Replies.antt =====
-- Which reply the middleware runners return.
use stratae.Prelude.{Bool, true, false, Option, none, some, List, [], ◌∷◌, ◌≡◌, refl, sym, ap}
use stratae.Python.{Exc, Outcome, returned, raised}
use stratae.Events.Middleware.{
  Seen, Middleware, Layer, open_manager, enter_layer, exit_layer, run_middleware,
  run_middleware_async,
}
use stratae.Events.Middleware.Nesting.{
  nested, leave, left_raised, left_clean, seen_call, entered_block, opened_block,
  run_middleware-nested,
}

module _ {R S : Type 0} (call : S → Outcome R × S) where
  -- What a runner came to: if a reply, then one that the call returned, still on the call object.
  abbrev pub IsReply : Outcome R × Seen R S → Type 0
  IsReply (raised e, seen) = Unit {0}
  IsReply (returned reply, seen) = ((s : S) × (call s).0 ≡ returned reply) × (seen.0 ≡ some reply)

  left_clean-IsReply :
      (reply : R) (o : Outcome Bool × Seen R S)
      → ((s : S) × (call s).0 ≡ returned reply)
      → o.1.0 ≡ some reply
      → IsReply (left_clean (λ s. true) reply o)
  left_clean-IsReply reply (raised e, seen) h kept = tt
  left_clean-IsReply reply (returned b, seen) h kept = (h, kept)

  module _ (cancelling : S → Bool) where
    left_raised-IsReply :
        (l : Layer R S) (error : Exc) (o : Outcome Bool × Seen R S)
        → IsReply (left_raised cancelling l error o)
    left_raised-IsReply l error (raised e, seen) = tt
    left_raised-IsReply l error (returned false, seen) = tt
    left_raised-IsReply l error (returned true, seen) = tt

    leave-IsReply :
        (l : Layer R S) (o : Outcome R × Seen R S) → IsReply o → IsReply (leave cancelling l o)
    unfolding exit_layer
    leave-IsReply l (raised e, seen) h = left_raised-IsReply l e (exit_layer l (some e) seen)
    leave-IsReply l (returned reply, seen) h =
        left_clean-IsReply reply (exit_layer l none seen) h.0 h.1

    seen_call-IsReply :
        (before : Option R) (s : S) (o : Outcome R × S)
        → o ≡ call s
        → IsReply (seen_call cancelling before o)
    seen_call-IsReply before s (raised e, s') h = tt
    seen_call-IsReply before s (returned reply, s') h = ((s, ap (λ p. p.0) (sym h)), refl)

    entered_block-IsReply :
        (body : Seen R S → Outcome R × Seen R S) (l : Layer R S) (o : Outcome Bool × Seen R S)
        → ((seen : Seen R S) → IsReply (body seen))
        → IsReply (entered_block cancelling body l o)
    entered_block-IsReply body l (raised e, seen) h = tt
    entered_block-IsReply body l (returned b, seen) h = leave-IsReply l (body seen) (h seen)

    opened_block-IsReply :
        (body : Seen R S → Outcome R × Seen R S) (o : Outcome (Layer R S) × Seen R S)
        → ((seen : Seen R S) → IsReply (body seen))
        → IsReply (opened_block cancelling body o)
    opened_block-IsReply body (raised e, seen) h = tt
    opened_block-IsReply body (returned l, seen) h =
        entered_block-IsReply body l (enter_layer l seen) h

    nested-IsReply :
        (asynchronous : Bool) (items : List (Middleware R S)) (seen : Seen R S)
        → IsReply (nested cancelling asynchronous call items seen)
    unfolding nested
    nested-IsReply asynchronous [] seen = seen_call-IsReply seen.0 seen.1 (call seen.1) refl
    nested-IsReply asynchronous (item ∷ items) seen =
        opened_block-IsReply (nested cancelling asynchronous call items)
          (open_manager asynchronous item seen) (nested-IsReply asynchronous items)

-- Whatever its middleware do, a runner returns only a reply that the call itself returned, which
-- the call object then holds: an error of the call, swallowed or not, never becomes a reply.
pub run_middleware-IsReply :
    {R S : Type 0}
    → (task_cancelling : S → Bool) (call : S → Outcome R × S) (items : List (Middleware R S))
      (seen : Seen R S)
    → IsReply call (run_middleware call items seen)
      × IsReply call (run_middleware_async task_cancelling call items seen)
run_middleware-IsReply task_cancelling call items seen =
    let blocks = run_middleware-nested task_cancelling call items seen in
    (
      rw (blocks.0) (nested-IsReply call (λ s. true) false items seen),
      rw (blocks.1) (nested-IsReply call task_cancelling true items seen),
    )
