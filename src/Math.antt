-- ===== src/Math.antt =====
-- common/math: SafeAdd, SafeSub and SafeMul of integer.go, and U256, S256, BigMax, BigMin and Exp of
-- big.go. A big.Int that is changed in place is returned.
pub mod Words
pub mod Powers
mod Runs
use advance_golang.Base.{ℕ, zero, suc, ◌+◌, ◌-◌, ◌*◌, ◌/◌, ◌%◌, ◌^◌, Bool, true, false, ◌||◌}
use advance_golang.Base.{ltb, ◌==◌, if◌then◌else◌, List, [], ◌∷◌}

-- x - y on uint64 wraps around.
unfoldable pub safe_sub : ℕ → ℕ → ℕ × Bool
safe_sub x y = ((x + 2 ^ 64 - y) % 2 ^ 64, ltb x y)

unfoldable pub safe_add : ℕ → ℕ → ℕ × Bool
safe_add x y = ((x + y) % 2 ^ 64, ltb (2 ^ 64 - 1 - x) y)

unfoldable pub safe_mul : ℕ → ℕ → ℕ × Bool
safe_mul x y = if x == 0 || y == 0 then (0, false) else (x * y % 2 ^ 64, ltb ((2 ^ 64 - 1) / x) y)

-- `x.And(x, tt256m1)`, on a number that is not negative.
unfoldable pub u256 : ℕ → ℕ
u256 x = x % 2 ^ 256

-- The variables of Exp: the result, the base, which it squares in place, and the word.
pub record ExpState : Type 0 where
  pub result : ℕ
  pub base : ℕ

-- The inner loop, in rounds left: a bit of the word each.
unfoldable pub exp_word : ℕ → ℕ → ExpState → ExpState
exp_word zero word s = s
exp_word (suc rounds) word s = exp_word rounds (word / 2) (record {
  result = if word % 2 == 1 then u256 (s.result * s.base) else s.result;
  base = u256 (s.base * s.base);
})

-- `exponent.Bits()`: the words of the exponent, the least significant first, with 64 bits each.
unfoldable pub exp_loop : List ℕ → ExpState → ExpState
exp_loop [] s = s
exp_loop (word ∷ words) s = exp_loop words (exp_word 64 word s)

-- The result, and what is left in the base.
unfoldable pub exp : ℕ → List ℕ → ExpState
exp base words = exp_loop words (record { result = 1; base = base })
