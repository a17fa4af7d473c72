-- ===== src/Hex/Runs.antt =====
-- Concrete runs of the hexadecimal codecs, and the theorems at concrete inputs.
use advance_golang.Base.{ltb, if◌then◌else◌, length}
use advance_golang.Hex.{big256_range, with_value}
use advance_golang.Hex.Big.{spelled, decode_big, decode_big-spelled}
use advance_golang.Hex.Json.{accepted, bytes_marshal_text, unmarshal_fixed_json}
use advance_golang.Hex.Text.{quoted, unmarshal_fixed_json-bytes_marshal_text}
use advance_golang.Base.{◌≡◌, refl, arith, [], ◌∷◌, All}
use advance_golang.Base.Maps.{Bytes}
use advance_golang.Hex.{
  failed, decoded, leading_zero, decode_uint64, encode_uint64, check_number, check_digits,
  has_0x_prefix,
}
use advance_golang.Hex.RoundTrip.{decode_uint64-encode_uint64}
use advance_golang.Rlp.Head.{IsByte}

-- "0x07" has a leading zero, and seventeen digits are too many.
decode_uint64_padded : decode_uint64 (48 ∷ 120 ∷ 48 ∷ 55 ∷ []) ≡ failed leading_zero
unfolding decode_uint64 check_number check_digits has_0x_prefix
decode_uint64_padded = refl

abbrev two_bytes : Bytes
two_bytes = 0xCA ∷ 0xFE ∷ []

two_bytes-IsByte : All IsByte two_bytes
two_bytes-IsByte = ground arith

-- The text is read into two bytes, and refused for three.
unmarshal_fixed_json-bytes_marshal_text_example :
    unmarshal_fixed_json 2 (quoted (bytes_marshal_text two_bytes)) ≡ accepted two_bytes
unmarshal_fixed_json-bytes_marshal_text_example =
    unmarshal_fixed_json-bytes_marshal_text two_bytes 2 two_bytes-IsByte

-- Seventeen digits take two words.
abbrev seventeen_digits : Bytes
seventeen_digits =
    48 ∷ 120 ∷ 49 ∷ 48 ∷ 48 ∷ 48 ∷ 48 ∷ 48 ∷ 48 ∷ 48 ∷ 48 ∷ 48 ∷ 48 ∷ 48 ∷ 48 ∷ 48 ∷ 48 ∷ 48 ∷ 50
    ∷ []

decode_big-spelled_example :
    decode_big seventeen_digits
    ≡ with_value
        (check_number seventeen_digits)
        (λ raw. if ltb 64 (length raw) then failed big256_range else spelled 0 raw)
decode_big-spelled_example = decode_big-spelled seventeen_digits

decode_uint64-encode_uint64_example : decode_uint64 (encode_uint64 1024) ≡ decoded 1024
decode_uint64-encode_uint64_example = decode_uint64-encode_uint64 1024 (omega arith)
