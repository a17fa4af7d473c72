-- ===== src/Hex/RoundTrip.antt =====
-- What hexutil encodes it decodes.
use advance_golang.Base.{
  ℕ, zero, suc, ◌+◌, ◌*◌, ◌/◌, ◌%◌, ◌^◌, ◌≤◌, ◌<◌, ◌≡◌, refl, ap, ◌∙◌, true, false, arith,
}
use advance_golang.Base.{ltb, leb, ◌==◌, [], ◌∷◌, All, Bool-cases, inl, inr}
use advance_golang.Base.Maps.{Bytes}
use advance_golang.Rlp.Head.{IsByte}
use advance_golang.Hex.{
  decoded, bad_nibble, decode_nibble, hex_digit, has_0x_prefix, hex_encode, hex_decode, encode,
  decode, check_digits, check_number, parse_uint, decode_uint64, append_uint, encode_uint64,
}
use native.Mathlib.Nat.{pow-suc}

pub decode_nibble-hex_digit : (n : ℕ) → n < 16 → decode_nibble (hex_digit n) ≡ n
unfolding decode_nibble hex_digit
decode_nibble-hex_digit n h = ground arith

pub hex_decode-hex_encode : (b : Bytes) → All IsByte b → hex_decode (hex_encode b) ≡ decoded b
unfolding hex_decode hex_encode
hex_decode-hex_encode [] h = refl
hex_decode-hex_encode (x ∷ b) (hx, h) =
    let high : x / 16 < 16 = omega arith in
    let low : x % 16 < 16 = omega arith in
    let first : (x / 16 == bad_nibble) ≡ false = ground arith in
    let second : (x % 16 == bad_nibble) ≡ false = ground arith in
    let joined : x / 16 * 16 + x % 16 ≡ x = omega arith in
    rw
      (
        decode_nibble-hex_digit (x / 16) high,
        decode_nibble-hex_digit (x % 16) low,
        first,
        second,
        hex_decode-hex_encode b h,
      )
      (ap (λ (y : ℕ). decoded (y ∷ b)) joined)

-- Decode reads back what Encode writes; given that the elements are bytes.
pub decode-encode : (b : Bytes) → All IsByte b → decode (encode b) ≡ decoded b
unfolding decode encode has_0x_prefix
decode-encode b h = ground (arith, hex_decode-hex_encode b h)

-- The digits of a number parse to the number, and what follows them after it.
parse_uint-append_uint :
    (fuel i : ℕ) (digits : Bytes)
    → i < 16 ^ suc fuel
    → i < 2 ^ 64
    → parse_uint 0 (append_uint (suc fuel) i digits) ≡ parse_uint i digits
unfolding append_uint parse_uint
parse_uint-append_uint zero i digits h fits =
    let small : ltb i 16 ≡ true = ground arith in
    rw small (ground (arith, decode_nibble-hex_digit i))
parse_uint-append_uint (suc fuel) i digits h fits = elim (Bool-cases (ltb i 16)) [
  | inl small ↦ rw small (ground (arith, decode_nibble-hex_digit i))
  | inr large ↦
      let room : i < 16 ^ suc fuel * 16 = rw pow-suc at h in
      let digit = decode_nibble-hex_digit (i % 16) (omega arith) in
      let rec =
        parse_uint-append_uint fuel (i / 16) (hex_digit (i % 16) ∷ digits) (omega arith)
          (omega arith) in
      let valid : (i % 16 == bad_nibble) ≡ false = ground arith in
      let within : leb (2 ^ 60) (i / 16) ≡ false = ground arith in
      let joined : i / 16 * 16 + i % 16 ≡ i = omega arith in
      rw large (
        rec
        ∙ rw (digit, parse_uint) (rw (valid, within) (ap (λ (n : ℕ). parse_uint n digits) joined)))
]

hex_digit_not_zero : (i : ℕ) → 0 < i → i < 16 → (hex_digit i == 48) ≡ false
unfolding hex_digit
hex_digit_not_zero i lo hi = ground arith

-- The first digit of a number that is not 0 is not 0.
append_uint_first :
    (fuel i : ℕ) (digits : Bytes)
    → 0 < i
    → i < 16 ^ suc fuel
    → (c : ℕ) × (more : Bytes) × (append_uint (suc fuel) i digits ≡ c ∷ more) × ((c == 48) ≡ false)
unfolding append_uint
append_uint_first zero i digits lo hi =
    let small : ltb i 16 ≡ true = ground arith in
    (hex_digit i, digits, rw small, hex_digit_not_zero i lo hi)
append_uint_first (suc fuel) i digits lo hi = elim (Bool-cases (ltb i 16)) [
  | inl small ↦
      let lt : i < 16 = ground arith in (hex_digit i, digits, rw small, hex_digit_not_zero i lo lt)
  | inr large ↦
      let room : i < 16 ^ suc fuel * 16 = rw pow-suc at hi in
      let ge : 16 ≤ i = ground arith in
      let (c, more, shape, other) =
        append_uint_first fuel (i / 16) (hex_digit (i % 16) ∷ digits) (omega arith) (omega arith) in
      (c, more, rw large shape, other)
]

check_digits-cons :
    (c : ℕ) (more : Bytes) → (c == 48) ≡ false → check_digits (c ∷ more) ≡ decoded (c ∷ more)
unfolding check_digits
check_digits-cons c [] h = refl
check_digits-cons c (d ∷ more) h = rw h

check_number-prefix : (raw : Bytes) → check_number (48 ∷ 120 ∷ raw) ≡ check_digits raw
unfolding check_number has_0x_prefix
check_number-prefix raw = ground arith

-- DecodeUint64 reads back what EncodeUint64 writes; given that the number is a uint64.
pub decode_uint64-encode_uint64 : (i : ℕ) → i < 2 ^ 64 → decode_uint64 (encode_uint64 i) ≡ decoded i
unfolding decode_uint64 encode_uint64
decode_uint64-encode_uint64 zero h =
    unfold append_uint check_number has_0x_prefix check_digits parse_uint hex_digit decode_nibble in
    refl
decode_uint64-encode_uint64 (suc n) h =
    let i = suc n in
    let (c, more, shape, other) = append_uint_first 15 i [] (omega arith) (omega arith) in
    let parsed : parse_uint 0 (append_uint 16 i []) ≡ decoded i =
      parse_uint-append_uint 15 i [] (omega arith) h ∙ (unfold parse_uint in refl) in
    let checked : check_number (48 ∷ 120 ∷ append_uint 16 i []) ≡ decoded (append_uint 16 i []) =
      check_number-prefix (append_uint 16 i []) ∙ rw shape (check_digits-cons c more other) in
    rw checked parsed
