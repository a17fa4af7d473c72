-- ===== src/Math/Words.antt =====
-- common/math/integer.go: the overflow that SafeAdd, SafeSub and SafeMul report.
use advance_golang.Base.{ℕ, zero, suc, ◌+◌, ◌-◌, ◌*◌, ◌%◌, ◌^◌, ◌<◌, ◌≡◌, refl, true, false, arith}
use advance_golang.Base.{ltb, leb, if◌then◌else◌}
use native.Mathlib.Nat.{div-lt_iff_lt-mul}
use advance_golang.Math.{safe_sub, safe_add, safe_mul}

safe_mul-product : (x y : ℕ) → safe_mul x y ≡ (x * y % 2 ^ 64, leb (2 ^ 64) (x * y))
unfolding safe_mul
safe_mul-product zero y = let none_left : 0 * y ≡ 0 = omega arith in rw none_left refl
safe_mul-product (suc x) zero =
    let none_left : suc x * 0 ≡ 0 = omega arith in rw none_left (ground arith)
safe_mul-product (suc x) (suc y) =
    let bound = div-lt_iff_lt-mul {k = suc x} {x = 2 ^ 64 - 1} {y = suc y} (omega arith) in
    let swapped : suc y * suc x ≡ suc x * suc y = omega arith in
    ground (arith, bound.0, bound.1, swapped)

-- SafeAdd, SafeSub and SafeMul report an overflow exactly when the sum, the difference or the
-- product is no uint64, and give it modulo 2 ^ 64; given that both numbers are uint64s.
pub safe_add-safe_sub-safe_mul :
    (x y : ℕ)
    → x < 2 ^ 64
    → y < 2 ^ 64
    → (safe_add x y ≡ (if ltb (x + y) (2 ^ 64) then (x + y, false) else (x + y - 2 ^ 64, true)))
      × (safe_sub x y ≡ (if leb y x then (x - y, false) else (x + 2 ^ 64 - y, true)))
      × (safe_mul x y ≡ (x * y % 2 ^ 64, leb (2 ^ 64) (x * y)))
unfolding safe_add safe_sub
safe_add-safe_sub-safe_mul x y hx hy = (ground arith, ground arith, safe_mul-product x y)
