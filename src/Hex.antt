-- ===== src/Hex.antt =====
-- common/hexutil/hexutil.go and the paddings of common/bytes.go. A string is its bytes. Of the
-- standard library: hex.EncodeToString, hex.DecodeString, strconv.AppendUint and ParseUint, base 16.
pub mod RoundTrip
pub mod Padding
pub mod Big
pub mod Json
pub mod Text
mod Runs
use advance_golang.Base.{ℕ, zero, suc, ◌+◌, ◌*◌, ◌-◌, ◌/◌, ◌%◌, ◌^◌, Bool, true, false, ◌&&◌, ◌||◌}
use advance_golang.Base.{ltb, leb, ◌==◌, if◌then◌else◌, [], ◌∷◌, ◌++◌, length, drop, replicate}
use advance_golang.Base.Maps.{Bytes}

-- The errors of package hexutil that the functions below return.
pub data HexError : Type 0 where
  empty_string syntax missing_prefix odd_length empty_number leading_zero uint64_range : HexError
  uint_range big256_range : HexError

pub data Decoded {κ} (V : Type κ) : Type κ where
  failed : (cause : HexError) → Decoded V
  decoded : (value : V) → Decoded V

abbrev pub with_value {κ ℓ} : {V : Type κ} {W : Type ℓ} → Decoded V → (V → Decoded W) → Decoded W
with_value (failed e) f = failed e
with_value (decoded v) f = f v

abbrev pub bad_nibble : ℕ
bad_nibble = 0xFFFF_FFFF_FFFF_FFFF

unfoldable pub decode_nibble : ℕ → ℕ
decode_nibble c =
    if leb 48 c && leb c 57
    then c - 48
    else if leb 65 c && leb c 70
    then c - 65 + 10
    else if leb 97 c && leb c 102
    then c - 97 + 10
    else bad_nibble

-- "0123456789abcdef"[n]
unfoldable pub hex_digit : ℕ → ℕ
hex_digit n = if ltb n 10 then n + 48 else n + 87

unfoldable pub has_0x_prefix : Bytes → Bool
has_0x_prefix [] = false
has_0x_prefix (a ∷ []) = false
has_0x_prefix (a ∷ b ∷ rest) = a == 48 && (b == 120 || b == 88)

-- hex.Encode
unfoldable pub hex_encode : Bytes → Bytes
hex_encode [] = []
hex_encode (b ∷ bs) = hex_digit (b / 16) ∷ hex_digit (b % 16) ∷ hex_encode bs

-- hex.DecodeString, with the error that mapError makes of its error. A digit that is no digit comes
-- before an odd length.
unfoldable pub hex_decode : Bytes → Decoded Bytes
hex_decode [] = decoded []
hex_decode (a ∷ []) = if decode_nibble a == bad_nibble then failed syntax else failed odd_length
hex_decode (a ∷ b ∷ rest) =
    let more = hex_decode rest in
    if decode_nibble a == bad_nibble || decode_nibble b == bad_nibble
    then failed syntax
    else with_value more (λ bs. decoded ((decode_nibble a * 16 + decode_nibble b) ∷ bs))

unfoldable pub encode : Bytes → Bytes
encode b = 48 ∷ 120 ∷ hex_encode b

unfoldable pub decode : Bytes → Decoded Bytes
decode input =
    if length input == 0
    then failed empty_string
    else if has_0x_prefix input
    then hex_decode (drop 2 input)
    else failed missing_prefix

-- A quantity has no leading zero.
unfoldable pub check_digits : Bytes → Decoded Bytes
check_digits [] = failed empty_number
check_digits (c ∷ []) = decoded (c ∷ [])
check_digits (c ∷ d ∷ more) = if c == 48 then failed leading_zero else decoded (c ∷ d ∷ more)

unfoldable pub check_number : Bytes → Decoded Bytes
check_number input =
    if length input == 0
    then failed empty_string
    else if has_0x_prefix input
    then check_digits (drop 2 input)
    else failed missing_prefix

-- The loop of strconv.ParseUint: a number that may not be multiplied by 16 is out of range.
unfoldable pub parse_uint : ℕ → Bytes → Decoded ℕ
parse_uint n [] = decoded n
parse_uint n (c ∷ cs) =
    let rest = parse_uint (n * 16 + decode_nibble c) cs in
    if decode_nibble c == bad_nibble
    then failed syntax
    else if leb (2 ^ 60) n
    then failed uint64_range
    else rest

unfoldable pub decode_uint64 : Bytes → Decoded ℕ
decode_uint64 input = with_value (check_number input) (λ raw. parse_uint 0 raw)

-- strconv.AppendUint, in digits left; a uint64 has at most sixteen. The digits come out last first.
unfoldable pub append_uint : ℕ → ℕ → Bytes → Bytes
append_uint zero i digits = digits
append_uint (suc fuel) i digits =
    let more = append_uint fuel (i / 16) (hex_digit (i % 16) ∷ digits) in
    if ltb i 16 then hex_digit i ∷ digits else more

unfoldable pub encode_uint64 : ℕ → Bytes
encode_uint64 i = 48 ∷ 120 ∷ append_uint 16 i []

unfoldable pub left_pad_bytes : Bytes → ℕ → Bytes
left_pad_bytes slice l =
    if leb l (length slice) then slice else replicate (l - length slice) 0 ++ slice

unfoldable pub right_pad_bytes : Bytes → ℕ → Bytes
right_pad_bytes slice l =
    if leb l (length slice) then slice else slice ++ replicate (l - length slice) 0
