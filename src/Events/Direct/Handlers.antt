-- ===== src/Events/Direct/Handlers.antt =====
-- The handlers of one event, and what storing and discarding one changes.
use stratae.Prelude.{
  ℕ, Bool, true, false, List, [], ◌∷◌, ◌==◌, ◌&&◌, if◌then◌else◌, ◌≡◌, refl, sym, ◌∙◌, ap, All,
  arith, Bool-cases, inl, inr, ==_iff,
}
use stratae.Python.Dict.{Dict, insert, lookup-insert}
use stratae.Events.Direct.{
  Handler, Registered, handled, has, add_handler, discard, handlers, store_handler,
  async_handler_rejected, unsupported_pattern, async_hooks_rejected,
}

handlers-insert :
    (event e : ℕ) (hs : List Handler) (registry : Dict (List Handler))
    → handlers event (insert e hs registry) ≡ (if event == e then hs else handlers event registry)
handlers-insert event e hs registry =
    rw (lookup-insert event e hs registry)
      (elim (Bool-cases (event == e)) [ inl same ↦ rw same refl | inr other ↦ rw other refl ])

has-add :
    (id : ℕ) (h : Handler) (hs : List Handler)
    → has id (add_handler h hs) ≡ (if id == h.id then true else has id hs)
has-add id h hs = elim (Bool-cases (has h.id hs)) [
  | inr new ↦ rw (new, add_handler) refl
  | inl known ↦
      rw (known, add_handler)
        (elim (Bool-cases (id == h.id)) [
          | inr other ↦ rw other refl
          | inl same ↦ rw same (ap (λ i. has i hs) ((==_iff id h.id).0 same) ∙ known)
        ])
]

pub has-discard :
    (id gone : ℕ) (hs : List Handler)
    → has id (discard gone hs) ≡ (if id == gone then false else has id hs)
has-discard id gone [] = ground arith
has-discard id gone (h ∷ hs) = ground (arith, has-discard id gone hs)

and_true : (b : Bool) → b ≡ (b && true)
and_true true = refl
and_true false = refl

not_stored : (a b x : Bool) → x ≡ (if a && (b && false) then true else x)
not_stored true true x = refl
not_stored true false x = refl
not_stored false b x = refl

abbrev pub is_handled : Registered → Bool
is_handled (handled h) = true
is_handled async_handler_rejected = false
is_handled unsupported_pattern = false
is_handled async_hooks_rejected = false

-- One event's handlers are replaced by others that differ in one handler at most.
pub has-insert :
    (event e id i : ℕ) (hs : List Handler) (registry : Dict (List Handler)) (b : Bool)
    → has id hs ≡ (if id == i then b else has id (handlers e registry))
    → has id (handlers event (insert e hs registry))
      ≡ (if (event == e) && (id == i) then b else has id (handlers event registry))
has-insert event e id i hs registry b h =
    rw (handlers-insert event e hs registry) (elim (Bool-cases (event == e)) [
      | inr other ↦ rw other refl
      | inl same ↦ rw same (
          h
          ∙ ap (λ f. if id == i then b else has id (handlers f registry))
              (sym ((==_iff event e).0 same)))
    ])

pub has-store :
    (event e id i : ℕ) (res : Registered) (registry : Dict (List Handler))
    → ((h : Handler) → res ≡ handled h → h.id ≡ i)
    → has id (handlers event (store_handler e res registry)) ≡ (
        if (event == e) && ((id == i) && is_handled res)
        then true
        else has id (handlers event registry))
has-store event e id i (handled h) registry k =
    has-insert event e id i (add_handler h (handlers e registry)) registry true (
      has-add id h (handlers e registry)
      ∙ ap (λ n. if id == n then true else has id (handlers e registry)) (k h refl))
    ∙ ap (λ b. if (event == e) && b then true else has id (handlers event registry))
        (and_true (id == i))
has-store event e id i async_handler_rejected registry k =
    not_stored (event == e) (id == i) (has id (handlers event registry))
has-store event e id i unsupported_pattern registry k =
    not_stored (event == e) (id == i) (has id (handlers event registry))
has-store event e id i async_hooks_rejected registry k =
    not_stored (event == e) (id == i) (has id (handlers event registry))

-- No handler of a sync bus is async.
abbrev pub AreSync : List Handler → Type 0
AreSync hs = All (λ h. h.is_async ≡ false) hs

add_handler-AreSync :
    (h : Handler) (hs : List Handler) → h.is_async ≡ false → AreSync hs → AreSync (add_handler h hs)
add_handler-AreSync h hs s ss = elim (Bool-cases (has h.id hs)) [
  | inl known ↦ rw (known, add_handler) ss
  | inr new ↦ rw (new, add_handler) (s, ss)
]

pub discard-AreSync : (id : ℕ) (hs : List Handler) → AreSync hs → AreSync (discard id hs)
discard-AreSync id [] ss = tt
discard-AreSync id (h ∷ hs) ss = elim (Bool-cases (id == h.id)) [
  | inl same ↦ rw same (discard-AreSync id hs ss.1)
  | inr other ↦ rw other (ss.0, discard-AreSync id hs ss.1)
]

-- Every event's handlers are sync.
abbrev pub IsSyncRegistry : Dict (List Handler) → Type 0
IsSyncRegistry registry = (event : ℕ) → AreSync (handlers event registry)

pub insert-IsSyncRegistry :
    (e : ℕ) (hs : List Handler) (registry : Dict (List Handler))
    → AreSync hs
    → IsSyncRegistry registry
    → IsSyncRegistry (insert e hs registry)
insert-IsSyncRegistry e hs registry s ss event =
    rw (handlers-insert event e hs registry)
      (elim (Bool-cases (event == e)) [ inl same ↦ rw same s | inr other ↦ rw other (ss event) ])

pub store-IsSyncRegistry :
    (e : ℕ) (res : Registered) (registry : Dict (List Handler))
    → ((h : Handler) → res ≡ handled h → h.is_async ≡ false)
    → IsSyncRegistry registry
    → IsSyncRegistry (store_handler e res registry)
store-IsSyncRegistry e (handled h) registry k ss =
    insert-IsSyncRegistry e (add_handler h (handlers e registry)) registry
      (add_handler-AreSync h (handlers e registry) (k h refl) (ss e)) ss
store-IsSyncRegistry e async_handler_rejected registry k ss = ss
store-IsSyncRegistry e unsupported_pattern registry k ss = ss
store-IsSyncRegistry e async_hooks_rejected registry k ss = ss
