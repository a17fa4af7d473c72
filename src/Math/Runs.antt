-- ===== src/Math/Runs.antt =====
-- The theorems on package math at concrete numbers.
use advance_golang.Base.{ℕ, ◌*◌, ◌%◌, ◌^◌, ◌≡◌, arith, List, [], ◌∷◌, length}
use advance_golang.Math.{exp}
use advance_golang.Math.Powers.{value, exp-power}

abbrev two_words : List ℕ
two_words = 5 ∷ 1 ∷ []

exp-power_example :
    ((exp 3 two_words).result ≡ 3 ^ value two_words % 2 ^ 256)
    × ((exp 3 two_words).base % 2 ^ 256 ≡ 3 ^ (2 ^ (64 * length two_words)) % 2 ^ 256)
exp-power_example = exp-power 3 two_words (omega arith, (omega arith, tt))
