-- ===== src/Python/Dict.antt =====
-- A Python dict, in insertion order, whose keys are numbers (identities or texts).
use stratae.Prelude.{
  ℕ, Bool, true, false, Option, none, some, List, [], ◌∷◌, ◌==◌, if◌then◌else◌, ◌≡◌, refl, arith,
  Bool-cases, inl, inr,
}

abbrev pub Dict {ℓ} : Type ℓ → Type ℓ
Dict V = List (ℕ × V)

module _ {ℓ} {V : Type ℓ} where
  -- `d.get(k)`
  abbrev pub lookup : ℕ → Dict V → Option V
  lookup k [] = none
  lookup k (e ∷ d) = if k == e.0 then some e.1 else lookup k d

  -- `k in d`
  abbrev pub contains : ℕ → Dict V → Bool
  contains k [] = false
  contains k (e ∷ d) = if k == e.0 then true else contains k d

  -- `d.pop(k, None)`
  abbrev pub erase : ℕ → Dict V → Dict V
  erase key [] = []
  erase key (entry ∷ others) = if key == entry.0 then others else entry ∷ erase key others

  -- `d.get(k, v)`
  abbrev pub get_or : Option V → V → V
  get_or none v = v
  get_or (some w) v = w

  abbrev pub values : Dict V → List V
  values [] = []
  values (e ∷ d) = e.1 ∷ values d

  -- `d[k] = v`, which keeps the place of a key that is there
  abbrev pub insert : ℕ → V → Dict V → Dict V
  insert key v [] = (key, v) ∷ []
  insert key v (entry ∷ others) =
      if key == entry.0 then (key, v) ∷ others else entry ∷ insert key v others

  pub lookup-insert :
      (j k : ℕ) (v : V) (d : Dict V)
      → lookup j (insert k v d) ≡ (if j == k then some v else lookup j d)
  lookup-insert j k v [] = refl
  lookup-insert j k v (e ∷ d) = ground (arith, lookup-insert j k v d)

  pub contains-insert :
      (j k : ℕ) (v : V) (d : Dict V)
      → contains j (insert k v d) ≡ (if j == k then true else contains j d)
  contains-insert j k v [] = refl
  contains-insert j k v (e ∷ d) = ground (arith, contains-insert j k v d)

  -- No key twice.
  abbrev pub IsKeyed : Dict V → Type 0
  IsKeyed [] = Unit
  IsKeyed (e ∷ d) = (contains e.0 d ≡ false) × IsKeyed d

  pub insert-IsKeyed : (k : ℕ) (v : V) (d : Dict V) → IsKeyed d → IsKeyed (insert k v d)
  insert-IsKeyed k v [] h = (refl, tt)
  insert-IsKeyed k v (e ∷ d) h = ground (arith, insert-IsKeyed k v d h.1, contains-insert e.0 k v d)

  pub contains-erase_ne :
      (j k : ℕ) (d : Dict V) → (j == k) ≡ false → contains j (erase k d) ≡ contains j d
  contains-erase_ne j k [] h = refl
  contains-erase_ne j k (e ∷ d) h = ground (arith, contains-erase_ne j k d h)

  pub contains-erase_le :
      (j k : ℕ) (d : Dict V) → contains j d ≡ false → contains j (erase k d) ≡ false
  contains-erase_le j k [] h = refl
  contains-erase_le j k (e ∷ d) h = ground (arith, contains-erase_le j k d)

  pub lookup-none : (k : ℕ) (d : Dict V) → contains k d ≡ false → lookup k d ≡ none
  lookup-none k [] h = refl
  lookup-none k (e ∷ d) h = ground (arith, lookup-none k d)

  pub lookup-erase :
      (j k : ℕ) (d : Dict V)
      → IsKeyed d
      → lookup j (erase k d) ≡ (if j == k then none else lookup j d)
  lookup-erase j k [] h = ground arith
  lookup-erase j k (e ∷ d) h = ground (arith, lookup-erase j k d h.1, lookup-none j d)

  pub erase-IsKeyed : (k : ℕ) (d : Dict V) → IsKeyed d → IsKeyed (erase k d)
  erase-IsKeyed k [] h = tt
  erase-IsKeyed k (e ∷ d) h = ground (arith, erase-IsKeyed k d h.1, contains-erase_le e.0 k d)

  pub contains-lookup : (k : ℕ) (d : Dict V) → contains k d ≡ true → (v : V) × (lookup k d ≡ some v)
  contains-lookup k [] h = cc
  contains-lookup k (e ∷ d) h = elim (Bool-cases (k == e.0)) [
    | inl same ↦ (e.1, rw same)
    | inr other ↦ rw other (contains-lookup k d (rw other at h))
  ]

  pub lookup-erase_ne :
      (j k : ℕ) (d : Dict V) → (j == k) ≡ false → lookup j (erase k d) ≡ lookup j d
  lookup-erase_ne j k [] h = refl
  lookup-erase_ne j k (e ∷ d) h = ground (arith, lookup-erase_ne j k d h)
