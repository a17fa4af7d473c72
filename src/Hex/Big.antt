-- ===== src/Hex/Big.antt =====
-- common/hexutil/hexutil.go: EncodeBig and DecodeBig, with words of 64 bits.
use advance_golang.Base.{
  ℕ, zero, suc, ◌+◌, ◌*◌, ◌-◌, ◌/◌, ◌%◌, ◌^◌, ◌≤◌, ◌<◌, ◌≡◌, refl, sym, ap, ◌∙◌, false, inl, inr,
  ◌⊎◌, Bool-cases, ltb, ◌==◌, if◌then◌else◌, List, [], ◌∷◌, ◌++◌, length, take, drop, length-drop,
  length-take, take-append-drop, arith,
}
use advance_golang.Base.Int.{ℤ, pos, negsuc}
use advance_golang.Base.Maps.{Bytes}
use advance_golang.Hex.{
  HexError, syntax, big256_range, Decoded, failed, decoded, with_value, bad_nibble, decode_nibble,
  append_uint, check_number,
}
use mathlib.Core.Path.{fun_ext}
use native.Mathlib.Nat.{pow-suc, pow-le-pow_right, one-le-pow}

abbrev pub big_word_nibbles : ℕ
big_word_nibbles = 16

-- The inner loop: a word, out of its digits.
unfoldable pub word_of : ℕ → Bytes → Decoded ℕ
word_of word [] = decoded word
word_of word (c ∷ cs) =
    let rest = word_of ((word * 16 % 2 ^ 64 + decode_nibble c) % 2 ^ 64) cs in
    if decode_nibble c == bad_nibble then failed syntax else rest

-- The outer loop: the words from the end of `raw` on, in words left.
unfoldable pub words_of : ℕ → Bytes → Decoded (List ℕ)
words_of zero raw = decoded []
words_of (suc n) raw =
    let start = length raw - big_word_nibbles in
    with_value (word_of 0 (drop start raw))
      λ word. with_value (words_of n (take start raw)) λ words. decoded (word ∷ words)

-- `SetBits`: the number whose words these are, the least significant first.
unfoldable pub set_bits : List ℕ → ℕ
set_bits [] = 0
set_bits (word ∷ words) = word + 2 ^ 64 * set_bits words

-- The number of digits that are not more than 64.
unfoldable pub big_of_digits : Bytes → Decoded ℕ
big_of_digits raw =
    let words = words_of (length raw / big_word_nibbles + 1) raw in
    if ltb 64 (length raw)
    then failed big256_range
    else with_value words (λ ws. decoded (set_bits ws))

unfoldable pub decode_big : Bytes → Decoded ℕ
decode_big input = with_value (check_number input) big_of_digits

-- `fmt.Sprintf("%#x", bigint)` has a sign before the prefix of a negative number. A number has no
-- more digits than its value, and one.
unfoldable pub encode_big : ℤ → Bytes
encode_big (pos n) = 48 ∷ 120 ∷ append_uint (suc n) n []
encode_big (negsuc n) = 45 ∷ 48 ∷ 120 ∷ append_uint (suc (suc n)) (suc n) []

-- The number that digits spell, most significant first, and the error where one is no digit.
unfoldable pub spelled : ℕ → Bytes → Decoded ℕ
spelled n [] = decoded n
spelled n (c ∷ cs) =
    let rest = spelled (n * 16 + decode_nibble c) cs in
    if decode_nibble c == bad_nibble then failed syntax else rest

decode_nibble-bound : (c : ℕ) → (decode_nibble c == bad_nibble) ≡ false → decode_nibble c < 16
unfolding decode_nibble
decode_nibble-bound c h = ground arith

-- A word does not overflow.
word_of-spelled :
    (word : ℕ) (raw : Bytes)
    → word < 16 ^ (16 - length raw)
    → length raw ≤ 16
    → word_of word raw ≡ spelled word raw
unfolding word_of spelled
word_of-spelled word [] fits short = refl
word_of-spelled word (c ∷ raw) fits short = elim (Bool-cases (decode_nibble c == bad_nibble)) [
  | inl bad ↦ rw bad refl
  | inr good ↦
      let below = decode_nibble-bound c good in
      let k = 15 - length raw in
      let more : 16 - length raw ≡ suc k = omega arith in
      let power : 16 ^ suc k ≡ 16 ^ k * 16 = pow-suc 16 k in
      let enough : suc k ≤ 16 = omega arith in
      let most : 16 ^ suc k ≤ 16 ^ 16 = pow-le-pow_right {n = 16} (omega arith) enough in
      let less : 16 - length (c ∷ raw) ≡ k = omega arith in
      let room : word * 16 + decode_nibble c < 16 ^ suc k = omega (arith, power, rw less at fits) in
      let same : (word * 16 % 2 ^ 64 + decode_nibble c) % 2 ^ 64 ≡ word * 16 + decode_nibble c =
        omega arith in
      rw (good, same)
        (word_of-spelled (word * 16 + decode_nibble c) raw (rw more room) (omega arith))
]

-- Digits after others.
spelled-append :
    (n : ℕ) (xs ys : Bytes) → spelled n (xs ++ ys) ≡ with_value (spelled n xs) (λ m. spelled m ys)
unfolding spelled
spelled-append n [] ys = refl
spelled-append n (c ∷ xs) ys = elim (Bool-cases (decode_nibble c == bad_nibble)) [
  | inl bad ↦ rw bad refl
  | inr good ↦ rw good (spelled-append (n * 16 + decode_nibble c) xs ys)
]

Decoded-cases : (d : Decoded ℕ) → ((e : HexError) × (d ≡ failed e)) ⊎ ((m : ℕ) × (d ≡ decoded m))
Decoded-cases (failed e) = inl (e, refl)
Decoded-cases (decoded m) = inr (m, refl)

abbrev shifted : ℕ → Decoded ℕ → Decoded ℕ
shifted k d = with_value d (λ m. decoded (k + m))

-- What stands before the digits counts by their number.
spelled-shifted :
    (k n : ℕ) (raw : Bytes) → spelled (k + n) raw ≡ shifted (k * 16 ^ length raw) (spelled n raw)
unfolding spelled
spelled-shifted k n [] = ap decoded (omega arith)
spelled-shifted k n (c ∷ raw) = elim (Bool-cases (decode_nibble c == bad_nibble)) [
  | inl bad ↦ rw bad refl
  | inr good ↦
      let next : (k + n) * 16 + decode_nibble c ≡ k * 16 + (n * 16 + decode_nibble c) =
        omega arith in
      let power : k * 16 * 16 ^ length raw ≡ k * 16 ^ suc (length raw) =
        rw (pow-suc 16 (length raw)) (omega arith) in
      rw (good, next)
        (spelled-shifted (k * 16) (n * 16 + decode_nibble c) raw
          ∙ ap (λ x. shifted x (spelled (n * 16 + decode_nibble c) raw)) power)
]

-- The only error is that of a digit.
abbrev OnlySyntax : Decoded ℕ → Type 0
OnlySyntax (failed e) = e ≡ syntax
OnlySyntax (decoded m) = Unit

spelled-OnlySyntax : (n : ℕ) (raw : Bytes) → OnlySyntax (spelled n raw)
unfolding spelled
spelled-OnlySyntax n [] = tt
spelled-OnlySyntax n (c ∷ raw) = elim (Bool-cases (decode_nibble c == bad_nibble)) [
  | inl bad ↦ rw bad refl
  | inr good ↦ rw good (spelled-OnlySyntax (n * 16 + decode_nibble c) raw)
]

abbrev number_of : Decoded (List ℕ) → Decoded ℕ
number_of d = with_value d (λ ws. decoded (set_bits ws))

joined :
    (low : Decoded ℕ) (words : Decoded (List ℕ))
    → OnlySyntax low
    → OnlySyntax (number_of words)
    → number_of (with_value low (λ w. with_value words (λ ws. decoded (w ∷ ws))))
      ≡ with_value (number_of words) (λ m. shifted (2 ^ 64 * m) low)
unfolding set_bits
joined (failed e) (failed f) he hf = ap failed (he ∙ sym hf)
joined (failed e) (decoded ws) he hf = refl
joined (decoded w) (failed f) he hf = refl
joined (decoded w) (decoded ws) he hf = ap decoded (omega arith)

nothing : (m : ℕ) → spelled 0 [] ≡ decoded m → m ≡ 0
unfolding spelled
nothing m h = ap (λ (d : Decoded ℕ). elim d [ failed e ↦ m | decoded k ↦ k ]) (sym h)

module _ (raw : Bytes) where
  abbrev high : Bytes
  high = take (length raw - 16) raw

  abbrev low : Bytes
  low = drop (length raw - 16) raw

  length-low : length low ≤ 16
  length-low = omega (arith, length-drop (length raw - 16) raw)

  length-high : length high ≡ length raw - 16
  length-high = length-take (length raw - 16) raw (omega arith)

  -- What stands before the last word counts as often as the word has values.
  shift_by_word : (m : ℕ) → spelled 0 high ≡ decoded m → m * 16 ^ length low ≡ 2 ^ 64 * m
  shift_by_word m h = elim (Bool-cases (ltb 16 (length raw))) [
    | inl long ↦
        let full : length low ≡ 16 = ground (arith, length-drop (length raw - 16) raw) in
        rw full (omega arith)
    | inr short ↦
        let whole : length raw - 16 ≡ 0 = ground arith in
        let none : m ≡ 0 = nothing m (rw whole at h) in rw none (omega arith)
  ]

  spelled-high-low :
      spelled 0 raw ≡ with_value (spelled 0 high) (λ m. shifted (2 ^ 64 * m) (spelled 0 low))
  spelled-high-low =
      ap (spelled 0) (sym (take-append-drop (length raw - 16) raw))
      ∙ spelled-append 0 high low
      ∙ elim (Decoded-cases (spelled 0 high)) [
        | inl (e, h) ↦ rw h refl
        | inr (m, h) ↦ rw h (
            ap (λ k. spelled k low) (omega arith)
            ∙ spelled-shifted m 0 low
            ∙ ap (λ k. shifted k (spelled 0 low)) (shift_by_word m h))
      ]

words_of-spelled :
    (n : ℕ) (raw : Bytes) → length raw ≤ 16 * n → number_of (words_of n raw) ≡ spelled 0 raw
unfolding words_of
words_of-spelled zero [] h = unfold set_bits spelled in refl
words_of-spelled zero (c ∷ raw) h = absurd (omega arith)
words_of-spelled (suc n) raw h =
    let before = words_of-spelled n (high raw) (omega (arith, length-high raw)) in
    let last =
      word_of-spelled 0 (low raw) (one-le-pow (16 - length (low raw)) 16 (omega arith))
        (length-low raw) in
    rw last (
      joined (spelled 0 (low raw)) (words_of n (high raw)) (spelled-OnlySyntax 0 (low raw))
        (rw before (spelled-OnlySyntax 0 (high raw)))
      ∙ ap (λ d. with_value d (λ m. shifted (2 ^ 64 * m) (spelled 0 (low raw)))) before
      ∙ sym (spelled-high-low raw))

-- DecodeBig reads the digits that a valid quantity has as the number that they spell, for which it
-- builds words of 64 bits from the end, and refuses more than 64 digits.
pub decode_big-spelled :
    (input : Bytes)
    → decode_big input
      ≡ with_value
          (check_number input)
          (λ raw. if ltb 64 (length raw) then failed big256_range else spelled 0 raw)
unfolding decode_big big_of_digits
decode_big-spelled input = ap (with_value (check_number input)) (
    fun_ext λ raw.
      ap (λ d. if ltb 64 (length raw) then failed big256_range else d)
        (words_of-spelled (length raw / 16 + 1) raw (omega arith)))
