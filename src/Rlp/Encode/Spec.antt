-- ===== src/Rlp/Encode/Spec.antt =====
-- The encoding of a value as package rlp's documentation gives it (rlp/doc.go), by recursion on the
-- value: a list header stands before its payload, and nothing is deferred.
use advance_golang.Base.{ℕ, ◌+◌, ◌^◌, ◌<◌, Bool, true, false, ◌&&◌, ◌||◌}
use advance_golang.Base.{ltb, leb, ◌==◌, if◌then◌else◌, [], ◌∷◌, ◌++◌, length}
use advance_golang.Base.Maps.{Bytes}
use advance_golang.Rlp.Head.{byte, putint, puthead}
use advance_golang.Rlp.Raw.{first}
use advance_golang.Rlp.Encode.{
  BigInt, negative, non_negative, Value, text, uint, boolean, big, raw, sequence, Values, nil, cons,
}

unfoldable pub string_encoding : Bytes → Bytes
string_encoding b =
    if length b == 1 && leb (first b) 0x7F then first b ∷ [] else puthead 0x80 0xB7 (length b) ++ b

unfoldable pub uint_encoding : ℕ → Bytes
uint_encoding i =
    if i == 0
    then 0x80 ∷ []
    else if ltb i 128
    then byte i ∷ []
    else byte (0x80 + length (putint i)) ∷ putint i

unfoldable pub big_encoding : BigInt → Bytes
big_encoding (negative b) = []
big_encoding (non_negative []) = 0x80 ∷ []
big_encoding (non_negative (b ∷ bs)) = string_encoding (b ∷ bs)

unfoldable pub boolean_encoding : Bool → Bytes
boolean_encoding true = 0x01 ∷ []
boolean_encoding false = 0x80 ∷ []

unfoldable mutual
  pub encoding : Value → Bytes
  encoding (text b) = string_encoding b
  encoding (uint i) = uint_encoding i
  encoding (boolean b) = boolean_encoding b
  encoding (big i) = big_encoding i
  encoding (raw b) = b
  encoding (sequence vs) = puthead 0xC0 0xF7 (length (payload vs)) ++ payload vs

  pub payload : Values → Bytes
  payload nil = []
  payload (cons v vs) = encoding v ++ payload vs

unfoldable pub is_negative : BigInt → Bool
is_negative (negative b) = true
is_negative (non_negative b) = false

unfoldable mutual
  -- Whether a negative integer stands anywhere in the value.
  pub has_negative : Value → Bool
  has_negative (text b) = false
  has_negative (uint i) = false
  has_negative (boolean b) = false
  has_negative (big i) = is_negative i
  has_negative (raw b) = false
  has_negative (sequence vs) = any_negative vs

  pub any_negative : Values → Bool
  any_negative nil = false
  any_negative (cons v vs) = has_negative v || any_negative vs

abbrev mutual
  -- The payload of each list has a length that a uint64 holds.
  pub Fits : Value → Type 0
  Fits (text b) = Unit {0}
  Fits (uint i) = Unit {0}
  Fits (boolean b) = Unit {0}
  Fits (big i) = Unit {0}
  Fits (raw b) = Unit {0}
  Fits (sequence vs) = (length (payload vs) < 2 ^ 64) × AllFit vs

  pub AllFit : Values → Type 0
  AllFit nil = Unit {0}
  AllFit (cons v vs) = Fits v × AllFit vs
