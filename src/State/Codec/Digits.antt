-- ===== src/State/Codec/Digits.antt =====
-- The digits of a big.Int.
use advance_golang.Base.{ℕ, zero, suc, ◌/◌, ◌%◌, ◌≤◌, ◌<◌, ◌≡◌, refl, ◌∙◌, true, false, ◌&&◌, arith}
use advance_golang.Base.{Bool-cases, inl, inr, ltb, ◌==◌, [], ◌∷◌, ◌++◌, length}
use advance_golang.Base.Maps.{Bytes}
use advance_golang.Rlp.Head.{big_endian, big_endian-append}
use advance_golang.Rlp.Raw.{first}
use advance_golang.State.Codec.{digits_loop, digits}

digits_loop-value : (rounds n : ℕ) → n ≤ rounds → big_endian (digits_loop rounds n) ≡ n
unfolding digits_loop big_endian
digits_loop-value zero n h = omega arith
digits_loop-value (suc rounds) zero h = refl
digits_loop-value (suc rounds) (suc m) h =
    big_endian-append (digits_loop rounds (suc m / 256)) (suc m % 256)
    ∙ omega (arith, digits_loop-value rounds (suc m / 256) (omega arith))

pub big_endian-digits : (n : ℕ) → big_endian (digits n) ≡ n
unfolding digits
big_endian-digits n = digits_loop-value n n (omega arith)

first-append : (b c : Bytes) → ltb 0 (length b) ≡ true → first (b ++ c) ≡ first b
first-append [] c h = ground arith
first-append (x ∷ b) c h = refl

first_nonempty : (b : Bytes) → 0 < first b → ltb 0 (length b) ≡ true
first_nonempty [] h = absurd (omega arith)
first_nonempty (x ∷ b) h = ground arith

digits_loop-zero : (rounds : ℕ) → digits_loop rounds 0 ≡ []
unfolding digits_loop
digits_loop-zero zero = refl
digits_loop-zero (suc rounds) = refl

-- There is a digit when the number is not 0, and the first is not 0.
digits_loop-first : (rounds n : ℕ) → n ≤ rounds → 0 < n → 0 < first (digits_loop rounds n)
unfolding digits_loop
digits_loop-first zero n h pos = absurd (omega arith)
digits_loop-first (suc rounds) zero h pos = absurd (omega arith)
digits_loop-first (suc rounds) (suc m) h pos = elim (Bool-cases (suc m / 256 == 0)) [
  | inl last_digit ↦
      let none_before : suc m / 256 ≡ 0 = ground arith in
      rw (none_before, digits_loop-zero rounds) (omega arith)
  | inr others ↦
      let rest = digits_loop rounds (suc m / 256) in
      let digit = digits_loop-first rounds (suc m / 256) (omega arith) (ground arith) in
      rw (first-append rest (suc m % 256 ∷ []) (first_nonempty rest digit)) digit
]

-- decodeBigInt takes the digits.
pub digits_canonical : (n : ℕ) → (ltb 0 (length (digits n)) && first (digits n) == 0) ≡ false
unfolding digits
digits_canonical zero = unfold digits_loop in refl
digits_canonical (suc m) = ground (arith, digits_loop-first (suc m) (suc m))
