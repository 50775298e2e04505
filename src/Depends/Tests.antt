-- ===== src/Depends/Tests.antt =====
-- Overrides of two providers.
use stratae.Prelude.{ℕ, false, none, List, [], ◌∷◌, ◌≡◌, refl}
use stratae.Depends.Overriding.{Providers, enter_all, exit_all}
use stratae.Depends.Overriding.Restoring.{Change, enters, exits, updates, exit_all-enter_all}

-- The provider of number `k` gives `k`.
abbrev fresh : Providers ℕ
fresh k = record { dependency = k; overridden = false; override = λ c. none; override_count = 0 }

exit_all-enter_all_example :
    let entered = enter_all 0 ((1, 10) ∷ (2, 20) ∷ (1, 30) ∷ []) [] fresh in
    exit_all 0 entered.0 entered.1 ≡ fresh
exit_all-enter_all_example =
    exit_all-enter_all 0 ((1, 10) ∷ (2, 20) ∷ (1, 30) ∷ []) fresh (λ k. refl)

abbrev three_changes : List (Change ℕ)
three_changes = enters 0 10 ∷ updates 3 ∷ exits 4 (0, none) ∷ []
