-- ===== src/Math/Powers.antt =====
-- common/math/big.go: Exp against the power that it computes.
use advance_golang.Base.{ℕ, zero, suc, ◌+◌, ◌*◌, ◌/◌, ◌%◌, ◌^◌, ◌<◌, ◌≡◌, sym, ap, ◌∙◌, arith}
use advance_golang.Base.{length, ◌==◌, if◌then◌else◌, List, [], ◌∷◌, All, Bool-cases, inl, inr}
use native.Mathlib.Nat.{
  pow-suc, pow-zero, mul_assoc, mod-mod, add-mul-mod_self_left, mod-add-div, mod-eq_of_lt,
}
use advance_golang.Math.{u256, ExpState, exp_word, exp_loop, exp}

module _ (k : ℕ) where
  -- A factor may be reduced first.
  mul_reduced : (a b : ℕ) → (a % k) * b % k ≡ a * b % k
  mul_reduced a b =
      let whole : a * b ≡ (a % k) * b + k * (a / k * b) =
        ap (λ (x : ℕ). x * b) (sym (mod-add-div a k)) ∙ omega arith in
      sym (ap (λ (x : ℕ). x % k) whole ∙ add-mul-mod_self_left ((a % k) * b) k (a / k * b))

  mul_swapped : (a b : ℕ) → a * b % k ≡ b * a % k
  mul_swapped a b = ap (λ (x : ℕ). x % k) (omega arith)

  mul_cong_left : (a c b : ℕ) → a % k ≡ c % k → a * b % k ≡ c * b % k
  mul_cong_left a c b e = sym (mul_reduced a b) ∙ ap (λ (x : ℕ). x * b % k) e ∙ mul_reduced c b

  mul_cong : (a c b d : ℕ) → a % k ≡ c % k → b % k ≡ d % k → a * b % k ≡ c * d % k
  mul_cong a c b d e f =
      mul_cong_left a c b e ∙ mul_swapped c b ∙ mul_cong_left b d c f ∙ mul_swapped d c

  pow_cong : (a c n : ℕ) → a % k ≡ c % k → a ^ n % k ≡ c ^ n % k
  pow_cong a c zero e = ap (λ (x : ℕ). x % k) (pow-zero a ∙ sym (pow-zero c))
  pow_cong a c (suc n) e =
      ap (λ (x : ℕ). x % k) (pow-suc a n)
      ∙ mul_cong (a ^ n) (c ^ n) a c (pow_cong a c n e) e
      ∙ ap (λ (x : ℕ). x % k) (sym (pow-suc c n))

pow_add : (b i j : ℕ) → b ^ (i + j) ≡ b ^ i * b ^ j
pow_add b i zero =
    let last : i + 0 ≡ i = omega arith in
    ap (λ (n : ℕ). b ^ n) last ∙ sym (ap (λ (x : ℕ). b ^ i * x) (pow-zero b) ∙ omega arith)
pow_add b i (suc j) =
    let last : i + suc j ≡ suc (i + j) = omega arith in
    ap (λ (n : ℕ). b ^ n) last
    ∙ pow-suc b (i + j)
    ∙ ap (λ (x : ℕ). x * b) (pow_add b i j)
    ∙ sym (ap (λ (x : ℕ). b ^ i * x) (pow-suc b j) ∙ omega arith)

pow_pow : (b i j : ℕ) → (b ^ i) ^ j ≡ b ^ (i * j)
pow_pow b i zero =
    let none_left : i * 0 ≡ 0 = omega arith in
    pow-zero (b ^ i) ∙ sym (ap (λ (n : ℕ). b ^ n) none_left ∙ pow-zero b)
pow_pow b i (suc j) =
    let more : i * suc j ≡ i * j + i = omega arith in
    pow-suc (b ^ i) j
    ∙ ap (λ (x : ℕ). x * b ^ i) (pow_pow b i j)
    ∙ sym (ap (λ (n : ℕ). b ^ n) more ∙ pow_add b (i * j) i)

pow_square : (b j : ℕ) → (b * b) ^ j ≡ b ^ (2 * j)
pow_square b j =
    let two : b * b ≡ b ^ 2 = sym (
      pow-suc b 1
      ∙ ap (λ (x : ℕ). x * b) (pow-suc b 0 ∙ ap (λ (x : ℕ). x * b) (pow-zero b))
      ∙ omega arith) in
    ap (λ (x : ℕ). x ^ j) two ∙ pow_pow b 2 j

abbrev m : ℕ
m = 2 ^ 256

pow_one : (b : ℕ) → b ^ 1 ≡ b
pow_one b = pow-suc b 0 ∙ ap (λ (x : ℕ). x * b) (pow-zero b) ∙ omega arith

times_pow_zero : (r b : ℕ) → r * b ^ 0 ≡ r
times_pow_zero r b = ap (λ (x : ℕ). r * x) (pow-zero b) ∙ omega arith

-- One round: the lowest bit of the word is used, and the base is squared.
module _ (word : ℕ) (s : ExpState) where
  round_result :
      (if word % 2 == 1 then u256 (s.result * s.base) else s.result) % m
      ≡ s.result * s.base ^ (word % 2) % m
  unfolding u256
  round_result = elim (Bool-cases (word % 2 == 1)) [
    | inl odd ↦
        let one_left : word % 2 ≡ 1 = ground arith in
        rw odd (mod-mod (s.result * s.base) m)
        ∙ sym (
            ap (λ (n : ℕ). s.result * s.base ^ n % m) one_left
            ∙ ap (λ (x : ℕ). s.result * x % m) (pow_one s.base))
    | inr even ↦
        let none_left : word % 2 ≡ 0 = ground arith in
        rw even (
          sym (
            ap (λ (n : ℕ). s.result * s.base ^ n % m) none_left
            ∙ ap (λ (x : ℕ). x % m) (times_pow_zero s.result s.base)))
  ]

  -- The power of the word, from that of its lowest bit and of the other bits.
  split_power :
      s.result * s.base ^ (word % 2) * (s.base * s.base) ^ (word / 2) ≡ s.result * s.base ^ word
  split_power =
      let parts : word % 2 + 2 * (word / 2) ≡ word = omega arith in
      let joined : s.base ^ (word % 2) * s.base ^ (2 * (word / 2)) ≡ s.base ^ word =
        sym (pow_add s.base (word % 2) (2 * (word / 2))) ∙ ap (λ (n : ℕ). s.base ^ n) parts in
      ap (λ (x : ℕ). s.result * s.base ^ (word % 2) * x) (pow_square s.base (word / 2))
      ∙ mul_assoc s.result (s.base ^ (word % 2)) (s.base ^ (2 * (word / 2)))
      ∙ ap (λ (x : ℕ). s.result * x) joined

exp_word-power :
    (rounds word : ℕ) (s : ExpState)
    → word < 2 ^ rounds
    → ((exp_word rounds word s).result % m ≡ s.result * s.base ^ word % m)
      × ((exp_word rounds word s).base % m ≡ s.base ^ (2 ^ rounds) % m)
unfolding exp_word u256
exp_word-power zero word s h =
    let over : word ≡ 0 = omega arith in
    (
      sym (
          ap (λ (n : ℕ). s.result * s.base ^ n % m) over
          ∙ ap (λ (x : ℕ). x % m) (times_pow_zero s.result s.base)),
      sym (ap (λ (x : ℕ). x % m) (pow_one s.base)),
    )
exp_word-power (suc rounds) word s h =
    let next : ExpState = record {
      result = if word % 2 == 1 then u256 (s.result * s.base) else s.result;
      base = u256 (s.base * s.base);
    } in
    let rest : word / 2 < 2 ^ rounds = omega (arith, pow-suc 2 rounds) in
    let (result, base) = exp_word-power rounds (word / 2) next rest in
    let squared : next.base % m ≡ s.base * s.base % m = mod-mod (s.base * s.base) m in
    (
      result
          ∙ mul_cong m next.result (s.result * s.base ^ (word % 2)) (next.base ^ (word / 2))
              ((s.base * s.base) ^ (word / 2)) (round_result word s)
              (pow_cong m next.base (s.base * s.base) (word / 2) squared)
          ∙ ap (λ (x : ℕ). x % m) (split_power word s),
      base
          ∙ pow_cong m next.base (s.base * s.base) (2 ^ rounds) squared
          ∙ ap (λ (x : ℕ). x % m)
              (pow_square s.base (2 ^ rounds)
                ∙ ap (λ (n : ℕ). s.base ^ n) (omega (arith, pow-suc 2 rounds))),
    )

-- The number that the words of a big.Int spell.
unfoldable pub value : List ℕ → ℕ
value [] = 0
value (word ∷ words) = word + 2 ^ 64 * value words

abbrev pub IsWord : ℕ → Type 0
IsWord word = word < 2 ^ 64

exp_loop-power :
    (words : List ℕ) (s : ExpState)
    → All IsWord words
    → (exp_loop words s).result % m ≡ s.result * s.base ^ value words % m
unfolding exp_loop value
exp_loop-power [] s h = sym (ap (λ (x : ℕ). x % m) (times_pow_zero s.result s.base))
exp_loop-power (word ∷ words) s (small, h) =
    let next = exp_word 64 word s in
    let (result, base) = exp_word-power 64 word s small in
    let n = value words in
    exp_loop-power words next h
    ∙ mul_cong m next.result (s.result * s.base ^ word) (next.base ^ n) ((s.base ^ (2 ^ 64)) ^ n)
        result (pow_cong m next.base (s.base ^ (2 ^ 64)) n base)
    ∙ ap (λ (x : ℕ). x % m)
        (ap (λ (x : ℕ). s.result * s.base ^ word * x) (pow_pow s.base (2 ^ 64) n)
          ∙ mul_assoc s.result (s.base ^ word) (s.base ^ (2 ^ 64 * n))
          ∙ ap (λ (x : ℕ). s.result * x) (sym (pow_add s.base word (2 ^ 64 * n))))

-- A result below the modulus stays below it.
exp_word-bound :
    (rounds word : ℕ) (s : ExpState) → s.result < m → (exp_word rounds word s).result < m
unfolding exp_word u256
exp_word-bound zero word s h = h
exp_word-bound (suc rounds) word s h = exp_word-bound rounds (word / 2) _ (ground arith)

exp_loop-bound : (words : List ℕ) (s : ExpState) → s.result < m → (exp_loop words s).result < m
unfolding exp_loop
exp_loop-bound [] s h = h
exp_loop-bound (word ∷ words) s h =
    exp_loop-bound words (exp_word 64 word s) (exp_word-bound 64 word s h)

exp_loop-base :
    (words : List ℕ) (s : ExpState)
    → All IsWord words
    → (exp_loop words s).base % m ≡ s.base ^ (2 ^ (64 * length words)) % m
unfolding exp_loop
exp_loop-base [] s h = sym (ap (λ (x : ℕ). x % m) (pow_one s.base))
exp_loop-base (word ∷ words) s (small, h) =
    let next = exp_word 64 word s in
    let n = 64 * length words in
    let more : 64 + n ≡ 64 * suc (length words) = omega arith in
    exp_loop-base words next h
    ∙ pow_cong m next.base (s.base ^ (2 ^ 64)) (2 ^ n) (exp_word-power 64 word s small).1
    ∙ ap (λ (x : ℕ). x % m)
        (pow_pow s.base (2 ^ 64) (2 ^ n)
          ∙ ap (λ (e : ℕ). s.base ^ e) (sym (pow_add 2 64 n) ∙ ap (λ (e : ℕ). 2 ^ e) more))

-- The result of Exp is the power of the base to the exponent, modulo 2 ^ 256, and what Exp leaves in
-- the base is the base squared 64 times for each word of the exponent, modulo 2 ^ 256; given that
-- the words have 64 bits. The base is not negative.
pub exp-power :
    (base : ℕ) (words : List ℕ)
    → All IsWord words
    → ((exp base words).result ≡ base ^ value words % 2 ^ 256)
      × ((exp base words).base % 2 ^ 256 ≡ base ^ (2 ^ (64 * length words)) % 2 ^ 256)
unfolding exp
exp-power base words h =
    let s : ExpState = record { result = 1; base = base } in
    let unit : 1 * base ^ value words ≡ base ^ value words = omega arith in
    (
      sym (mod-eq_of_lt (exp_loop-bound words s (omega arith)))
          ∙ exp_loop-power words s h
          ∙ ap (λ (x : ℕ). x % m) unit,
      exp_loop-base words s h,
    )
