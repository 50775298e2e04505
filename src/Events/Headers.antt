-- ===== src/Events/Headers.antt =====
-- stratae/events/middleware.py: `MessageHeaders`, the headers that publish middleware may add, and
-- the envelope's names, which it may not.
use stratae.Prelude.{
  Bool, true, false, Option, none, some, List, [], ◌∷◌, ◌==◌, ◌||◌, if◌then◌else◌, ◌≡◌, subst,
  Bool-cases, Option-cases, inl, inr, ==_iff, clash, some_inj,
}
use stratae.Python.{Text}
use stratae.Python.Dict.{
  Dict, contains, insert, erase, IsKeyed, contains-insert, insert-IsKeyed, erase-IsKeyed,
  contains-erase_le,
}
use stratae.Events.Envelope.{
  message_id_header, correlation_id_header, causation_id_header, timestamp_header,
}

-- `name in ENVELOPE_HEADERS`
unfoldable pub is_envelope_header : Text → Bool
is_envelope_header name =
    name == message_id_header
    || (name == correlation_id_header || (name == causation_id_header || name == timestamp_header))

-- `name.lower()`; the reserved names are in lower case.
pub record Lower : Type 0 where
  pub lower : Text → Text
  pub lower_reserved : (name : Text) → is_envelope_header name ≡ true → lower name ≡ name

-- A mutation of the mapping by a middleware: set a header or delete one.
pub data Edit : Type 0 where
  sets : Text → Text → Edit
  deletes : Text → Edit

module _ (l : Lower) where
  -- `__setitem__`: `none` is the `ValueError` of a reserved name.
  unfoldable pub set_header : Text → Text → Dict Text → Option (Dict Text)
  set_header name value headers =
      if is_envelope_header (l.lower name) then none else some (insert name value headers)

  -- `__delitem__`: `none` is the `KeyError` of a name that is not set.
  unfoldable pub delete_header : Text → Dict Text → Option (Dict Text)
  delete_header name headers = if contains name headers then some (erase name headers) else none

  abbrev edit : Edit → Dict Text → Option (Dict Text)
  edit (sets name value) headers = set_header name value headers
  edit (deletes name) headers = delete_header name headers

  -- Edits until one raises.
  unfoldable pub edits : List Edit → Dict Text → Option (Dict Text)
  edits [] headers = some headers
  edits (e ∷ es) headers = elim (edit e headers) [ none ↦ none | some h ↦ edits es h ]

-- No name of the envelope's is set, and no name twice.
pub record IsFree (headers : Dict Text) : Type 0 where
  pub keyed : IsKeyed headers
  pub unreserved : (name : Text) → is_envelope_header name ≡ true → contains name headers ≡ false

insert-IsFree :
    (l : Lower) (name value : Text) (h : Dict Text)
    → is_envelope_header (l.lower name) ≡ false
    → IsFree h
    → IsFree (insert name value h)
insert-IsFree l name value h ne v = record {
  keyed = insert-IsKeyed name value h v.keyed;
  unreserved = λ j r. rw (contains-insert j name value h) (elim (Bool-cases (j == name)) [
    | inl same ↦
        let e : j ≡ name = (==_iff j name).0 same in
        clash (rw (l.lower_reserved name (rw e at r)) (rw e at r)) ne
    | inr other ↦ rw other (v.unreserved j r)
  ]);
}

edit-IsFree :
    (l : Lower) (e : Edit) (h h' : Dict Text) → IsFree h → edit l e h ≡ some h' → IsFree h'
unfolding set_header delete_header
edit-IsFree l (sets name value) h h' v e = elim (Bool-cases (is_envelope_header (l.lower name))) [
  | inl reserved ↦ cc (rw reserved at e)
  | inr free ↦ subst IsFree (some_inj (rw free at e)) (insert-IsFree l name value h free v)
]
edit-IsFree l (deletes name) h h' v e = elim (Bool-cases (contains name h)) [
  | inl there ↦ subst IsFree (some_inj (rw there at e)) (record {
    keyed = erase-IsKeyed name h v.keyed;
    unreserved = λ j r. contains-erase_le j name h (v.unreserved j r);
  })
  | inr missing ↦ cc (rw missing at e)
]

-- Whatever headers a middleware sets and deletes, none of them is the envelope's: an edit that
-- would set one raises.
pub edits-IsFree :
    (l : Lower) (es : List Edit) (h h' : Dict Text) → IsFree h → edits l es h ≡ some h' → IsFree h'
unfolding edits
edits-IsFree l [] h h' v e = subst IsFree (some_inj e) v
edits-IsFree l (c ∷ cs) h h' v e = elim (Option-cases (edit l c h)) [
  | inl failed ↦ cc (rw (failed, edits) at e)
  | inr (g, done) ↦ edits-IsFree l cs g h' (edit-IsFree l c h g v done) (rw (done, edits) at e)
]
