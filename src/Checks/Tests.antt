-- ===== src/Checks/Tests.antt =====
-- The theorems on checks at concrete checks.
use stratae.Prelude.{ℕ, ◌+◌, false, none, [], ◌∷◌, ◌≡◌, refl}
use stratae.Python.{Exc, exception, returned, raised}
use stratae.Checks.{any, Check, passed, check_async}
use stratae.Checks.Verdicts.{trace, check_async-verdict}

abbrev an_error : ℕ → Exc
an_error id = record { id = id; kind = exception; cause = none }

-- A check that fails, and one that passes and counts.
abbrev failing : Check ℕ
failing = record {
  call = λ s. (raised (an_error 1), s);
  awaited = λ s. (returned tt, s);
  new_error = 10;
}

abbrev passing : Check ℕ
passing = record {
  call = λ s. (returned false, s + 1);
  awaited = λ s. (returned tt, s);
  new_error = 11;
}

check_async-verdict_example : (check_async any (failing ∷ passing ∷ []) 0).0 ≡ passed
unfolding trace
check_async-verdict_example = check_async-verdict any (failing ∷ passing ∷ []) 0 (refl, (tt, tt))
