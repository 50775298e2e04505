-- ===== src/Context/Tests.antt =====
-- A read inside two uses.
use stratae.Prelude.{ℕ, none, some, List, [], ◌∷◌, ◌≡◌}
use stratae.Python.{returned}
use stratae.Context.{no_default, default}
use stratae.Context.Uses.{read_inside, read_inside-innermost}

abbrev two_values : List ℕ
two_values = 3 ∷ 4 ∷ []

read_inside-innermost_example :
    read_inside (default 9) no_default two_values none ≡ (returned (some 4), none)
read_inside-innermost_example = read_inside-innermost (default 9) no_default two_values none
