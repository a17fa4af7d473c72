-- ===== src/Hex/Json.antt =====
-- common/hexutil/json.go: the texts and JSON strings of Bytes, Big, Uint64 and Uint, and of byte arrays.
-- An unmarshaller returns the value that it sets. A type's name is not part of an error.
use advance_golang.Base.{
  ℕ, ◌+◌, ◌*◌, ◌-◌, ◌/◌, ◌%◌, ◌^◌, Bool, true, false, ◌&&◌, ltb, leb, ◌==◌, if◌then◌else◌, [], ◌∷◌,
  length, take, drop,
}
use advance_golang.Base.Int.{ℤ}
use advance_golang.Base.Maps.{Bytes}
use advance_golang.Hex.{
  HexError, missing_prefix, odd_length, uint64_range, uint_range, syntax, Decoded, failed, decoded,
  with_value, bad_nibble, decode_nibble, has_0x_prefix, hex_decode, encode, check_digits,
  encode_uint64,
}
use advance_golang.Hex.Big.{big_of_digits, encode_big}

-- `hex` is an error of package hexutil and `of_type` the json.UnmarshalTypeError made of one;
-- `non_string` is that of errNonString.
pub data TextError : Type 0 where
  hex : HexError → TextError
  of_type : HexError → TextError
  non_string : TextError
  wrong_length : (got want : ℕ) → TextError

pub data Unmarshalled {κ} (V : Type κ) : Type κ where
  refused : (cause : TextError) → Unmarshalled V
  accepted : (value : V) → Unmarshalled V

abbrev pub from_hex_error {κ} : {V : Type κ} → Decoded V → Unmarshalled V
from_hex_error (failed e) = refused (hex e)
from_hex_error (decoded v) = accepted v

unfoldable pub is_quote_end : Bytes → Bool
is_quote_end [] = false
is_quote_end (c ∷ []) = c == 34
is_quote_end (c ∷ d ∷ cs) = is_quote_end (d ∷ cs)

unfoldable pub is_string : Bytes → Bool
is_string [] = false
is_string (c ∷ cs) = leb 1 (length cs) && (c == 34 && is_quote_end cs)

-- `input[1 : len(input)-1]`
abbrev pub unquoted : Bytes → Bytes
unquoted input = take (length input - 2) (drop 1 input)

unfoldable pub check_text : Bytes → Bool → Decoded Bytes
check_text [] want_prefix = decoded []
check_text (c ∷ cs) want_prefix =
    let input = c ∷ cs in
    let even = λ (raw : Bytes). if length raw % 2 == 0 then decoded raw else failed odd_length in
    if has_0x_prefix input
    then even (drop 2 input)
    else if want_prefix
    then failed missing_prefix
    else even input

unfoldable pub check_number_text : Bytes → Decoded Bytes
check_number_text [] = decoded []
check_number_text (c ∷ cs) =
    if has_0x_prefix (c ∷ cs) then check_digits (drop 2 (c ∷ cs)) else failed missing_prefix

unfoldable pub wrap_type_error {κ} : {V : Type κ} → Unmarshalled V → Unmarshalled V
wrap_type_error (refused (hex e)) = refused (of_type e)
wrap_type_error r = r

-- UnmarshalJSON, out of UnmarshalText.
unfoldable pub unmarshal_json {κ} : {V : Type κ} → (Bytes → Unmarshalled V) → Bytes → Unmarshalled V
unmarshal_json unmarshal_text input =
    if is_string input
    then wrap_type_error (unmarshal_text (unquoted input))
    else refused non_string

unfoldable pub bytes_marshal_text : Bytes → Bytes
bytes_marshal_text b = encode b

unfoldable pub bytes_unmarshal_text : Bytes → Unmarshalled Bytes
bytes_unmarshal_text input = from_hex_error (with_value (check_text input true) hex_decode)

-- Whether every byte is a digit.
unfoldable pub all_nibbles : Bytes → Bool
all_nibbles [] = true
all_nibbles (c ∷ cs) =
    let rest = all_nibbles cs in if decode_nibble c == bad_nibble then false else rest

-- UnmarshalFixedText and UnmarshalFixedUnprefixedText, into an array of `len` bytes.
unfoldable pub fixed_of_raw : ℕ → Bytes → Unmarshalled Bytes
fixed_of_raw len raw =
    if length raw / 2 == len
    then (if all_nibbles raw then from_hex_error (hex_decode raw) else refused (hex syntax))
    else refused (wrong_length (length raw) (len * 2))

unfoldable pub checked_fixed : ℕ → Decoded Bytes → Unmarshalled Bytes
checked_fixed len (failed e) = refused (hex e)
checked_fixed len (decoded raw) = fixed_of_raw len raw

unfoldable pub unmarshal_fixed_text : ℕ → Bytes → Unmarshalled Bytes
unmarshal_fixed_text len input = checked_fixed len (check_text input true)

unfoldable pub unmarshal_fixed_unprefixed_text : ℕ → Bytes → Unmarshalled Bytes
unmarshal_fixed_unprefixed_text len input = checked_fixed len (check_text input false)

unfoldable pub unmarshal_fixed_json : ℕ → Bytes → Unmarshalled Bytes
unmarshal_fixed_json len input = unmarshal_json (unmarshal_fixed_text len) input

unfoldable pub big_marshal_text : ℤ → Bytes
big_marshal_text b = encode_big b

unfoldable pub big_unmarshal_text : Bytes → Unmarshalled ℕ
big_unmarshal_text input = from_hex_error (with_value (check_number_text input) big_of_digits)

unfoldable pub uint64_marshal_text : ℕ → Bytes
uint64_marshal_text b = encode_uint64 b

-- The loop of `UnmarshalText` of Uint64, on uint64.
unfoldable pub digits_of : ℕ → Bytes → Decoded ℕ
digits_of dec [] = decoded dec
digits_of dec (c ∷ cs) =
    let rest = digits_of ((dec * 16 % 2 ^ 64 + decode_nibble c) % 2 ^ 64) cs in
    if decode_nibble c == bad_nibble then failed syntax else rest

unfoldable pub uint64_text : Bytes → Decoded ℕ
uint64_text input =
    with_value (check_number_text input)
      λ raw. if ltb 16 (length raw) then failed uint64_range else digits_of 0 raw

unfoldable pub uint64_unmarshal_text : Bytes → Unmarshalled ℕ
uint64_unmarshal_text input = from_hex_error (uint64_text input)

-- A uint has 64 bits, so that every uint64 fits.
unfoldable pub to_uint_range : Decoded ℕ → Decoded ℕ
to_uint_range (failed uint64_range) = failed uint_range
to_uint_range d = d

unfoldable pub uint_unmarshal_text : Bytes → Unmarshalled ℕ
uint_unmarshal_text input = from_hex_error (to_uint_range (uint64_text input))
