-- ===== src/Hex/Text.antt =====
-- common/types.go: the texts of Hash and Address; and common/bytes.go: ToHex, FromHex, Hex2Bytes and
-- Hex2BytesFixed. Address.Hex, which hashes, and the interfaces of package fmt are left out.
use advance_golang.Base.{
  ℕ, ◌<◌, ◌+◌, ◌-◌, ◌*◌, ◌/◌, ◌%◌, ◌≡◌, refl, ap, ◌∙◌, Bool, true, false, ltb, ◌==◌, if◌then◌else◌,
  [], ◌∷◌, ◌++◌, length, length-append, take, drop, replicate, All, take-append-length, arith,
}
use advance_golang.Base.Maps.{Bytes, bytes_eq}
use advance_golang.Hex.{decoded, bad_nibble, decode_nibble, has_0x_prefix, hex_encode, encode}
use advance_golang.Hex.Json.{
  Unmarshalled, refused, accepted, wrong_length, is_quote_end, is_string, unquoted, check_text,
  wrap_type_error, unmarshal_json, all_nibbles, fixed_of_raw, checked_fixed, unmarshal_fixed_text,
  unmarshal_fixed_json, bytes_marshal_text,
}
use advance_golang.Hex.RoundTrip.{decode_nibble-hex_digit, hex_decode-hex_encode}
use advance_golang.Rlp.Head.{IsByte}
use advance_golang.Types.{hash_length, address_length, zero_hash, bytes_to_hash, bytes_to_address}

-- `hex.DecodeString` with its error dropped: the bytes before the error.
unfoldable pub hex_prefix : Bytes → Bytes
hex_prefix [] = []
hex_prefix (a ∷ []) = []
hex_prefix (a ∷ b ∷ rest) =
    let more = hex_prefix rest in
    if decode_nibble a == bad_nibble
    then []
    else if decode_nibble b == bad_nibble
    then []
    else (decode_nibble a * 16 + decode_nibble b) ∷ more

unfoldable pub hex2_bytes : Bytes → Bytes
hex2_bytes str = hex_prefix str

unfoldable pub hex2_bytes_fixed : Bytes → ℕ → Bytes
hex2_bytes_fixed str flen =
    let h = hex_prefix str in
    if length h == flen
    then h
    else if ltb flen (length h)
    then drop (length h - flen) h
    else replicate (flen - length h) 0 ++ h

unfoldable pub to_hex : Bytes → Bytes
to_hex b = let digits = hex_encode b in 48 ∷ 120 ∷ (if length digits == 0 then 48 ∷ [] else digits)

unfoldable pub from_hex : Bytes → Bytes
from_hex s =
    let cut = if has_0x_prefix s then drop 2 s else s in
    hex2_bytes (if length cut % 2 == 1 then 48 ∷ cut else cut)

unfoldable pub is_hex_character : ℕ → Bool
is_hex_character c = if decode_nibble c == bad_nibble then false else true

unfoldable pub hex_to_hash : Bytes → Bytes
hex_to_hash s = bytes_to_hash (from_hex s)

unfoldable pub hex_to_address : Bytes → Bytes
hex_to_address s = bytes_to_address (from_hex s)

unfoldable pub hash_hex : Bytes → Bytes
hash_hex h = encode h

unfoldable pub empty_hash : Bytes → Bool
empty_hash h = bytes_eq h zero_hash

unfoldable pub hash_marshal_text : Bytes → Bytes
hash_marshal_text h = bytes_marshal_text h

unfoldable pub hash_unmarshal_text : Bytes → Unmarshalled Bytes
hash_unmarshal_text input = unmarshal_fixed_text hash_length input

unfoldable pub hash_unmarshal_json : Bytes → Unmarshalled Bytes
hash_unmarshal_json input = unmarshal_fixed_json hash_length input

unfoldable pub address_unmarshal_text : Bytes → Unmarshalled Bytes
address_unmarshal_text input = unmarshal_fixed_text address_length input

unfoldable pub address_unmarshal_json : Bytes → Unmarshalled Bytes
address_unmarshal_json input = unmarshal_fixed_json address_length input

-- A JSON string without escapes.
abbrev pub quoted : Bytes → Bytes
quoted text = 34 ∷ (text ++ (34 ∷ []))

is_quote_end-append : (b : Bytes) → is_quote_end (b ++ (34 ∷ [])) ≡ true
unfolding is_quote_end
is_quote_end-append [] = refl
is_quote_end-append (c ∷ []) = refl
is_quote_end-append (c ∷ d ∷ b) = is_quote_end-append (d ∷ b)

is_string-quoted : (b : Bytes) → is_string (quoted b) ≡ true
unfolding is_string
is_string-quoted b = ground (arith, length-append b (34 ∷ []), is_quote_end-append b)

unquoted-quoted : (b : Bytes) → unquoted (quoted b) ≡ b
unquoted-quoted b =
    ap (λ k. take k (b ++ (34 ∷ []))) (omega (arith, length-append b (34 ∷ [])))
    ∙ take-append-length b (34 ∷ [])

length-hex_encode : (b : Bytes) → length (hex_encode b) ≡ 2 * length b
unfolding hex_encode
length-hex_encode [] = refl
length-hex_encode (x ∷ b) = omega (arith, length-hex_encode b)

all_nibbles-hex_encode : (b : Bytes) → All IsByte b → all_nibbles (hex_encode b) ≡ true
unfolding all_nibbles hex_encode
all_nibbles-hex_encode [] h = refl
all_nibbles-hex_encode (x ∷ b) (hx, h) =
    let high : x / 16 < 16 = omega arith in
    let low : x % 16 < 16 = omega arith in
    let first : (x / 16 == bad_nibble) ≡ false = ground arith in
    let second : (x % 16 == bad_nibble) ≡ false = ground arith in
    rw (decode_nibble-hex_digit (x / 16) high, decode_nibble-hex_digit (x % 16) low, first, second)
      (all_nibbles-hex_encode b h)

check_text-encode : (b : Bytes) → check_text (encode b) true ≡ decoded (hex_encode b)
unfolding check_text encode has_0x_prefix
check_text-encode b = ground (arith, length-hex_encode b)

fixed_of_raw-hex_encode :
    (b : Bytes) (len : ℕ)
    → All IsByte b
    → fixed_of_raw len (hex_encode b)
      ≡ (if length b == len then accepted b else refused (wrong_length (2 * length b) (len * 2)))
unfolding fixed_of_raw
fixed_of_raw-hex_encode b len h =
    let half : 2 * length b / 2 ≡ length b = omega arith in
    rw (length-hex_encode b, half, all_nibbles-hex_encode b h, hex_decode-hex_encode b h) refl

-- A byte array of the length is read as it was written.
answer-wrap_type_error :
    (b : Bytes) (len : ℕ) (test : Bool)
    → wrap_type_error (if test then accepted b else refused (wrong_length (2 * length b) (len * 2)))
      ≡ (if test then accepted b else refused (wrong_length (2 * length b) (len * 2)))
unfolding wrap_type_error
answer-wrap_type_error b len true = refl
answer-wrap_type_error b len false = refl

-- The text of a byte array is read back from a JSON string by the unmarshaller of arrays of its
-- length, and refused for its length by that of any other; given that its elements are bytes.
pub unmarshal_fixed_json-bytes_marshal_text :
    (b : Bytes) (len : ℕ)
    → All IsByte b
    → unmarshal_fixed_json len (quoted (bytes_marshal_text b))
      ≡ (if length b == len then accepted b else refused (wrong_length (2 * length b) (len * 2)))
unfolding unmarshal_fixed_json unmarshal_json unmarshal_fixed_text checked_fixed bytes_marshal_text
unmarshal_fixed_json-bytes_marshal_text b len h =
    rw
      (
        is_string-quoted (encode b),
        unquoted-quoted (encode b),
        check_text-encode b,
        fixed_of_raw-hex_encode b len h,
      )
      (answer-wrap_type_error b len (length b == len))
