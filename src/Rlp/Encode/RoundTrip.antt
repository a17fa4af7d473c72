-- ===== src/Rlp/Encode/RoundTrip.antt =====
-- Reading back with rlp/raw.go what rlp/encode.go writes.
use advance_golang.Base.{ℕ, zero, suc, ◌+◌, ◌^◌, ◌≤◌, ◌<◌, ◌≡◌, refl, ap, ◌∙◌, arith}
use advance_golang.Base.{Bool, true, false, ◌&&◌, ltb, leb, ◌==◌, if◌then◌else◌, some}
use advance_golang.Base.{[], ◌∷◌, ◌++◌, length, length-append, append_assoc}
use advance_golang.Base.{Bool-cases, inl, inr}
use advance_golang.Base.Maps.{Bytes}
use advance_golang.Rlp.Head.{byte, putint, puthead, length-putint}
use advance_golang.Rlp.Raw.{
  Kind, byte_kind, string_kind, list_kind, first, read_kind, split, count_values_loop, count_values,
}
use advance_golang.Rlp.Raw.RoundTrip.{split_byte, split-puthead_string, split-puthead_list}
use advance_golang.Rlp.Result.{ok, >>=-eq-ok}
use advance_golang.Rlp.Encode.{
  BigInt, negative, non_negative, Value, text, uint, boolean, big, raw, sequence, Values, nil, cons,
}
use advance_golang.Rlp.Encode.Spec.{
  string_encoding, uint_encoding, big_encoding, boolean_encoding, encoding, payload,
}

unfoldable pub string_kind_of : Bytes → Kind
string_kind_of b = if length b == 1 && leb (first b) 0x7F then byte_kind else string_kind

-- The bytes of a number, with no zero in front.
unfoldable pub uint_content : ℕ → Bytes
uint_content i = if i == 0 then [] else if ltb i 128 then byte i ∷ [] else putint i

abbrev pub boolean_content : Bool → Bytes
boolean_content true = 1 ∷ []
boolean_content false = []

abbrev pub big_content : BigInt → Bytes
big_content (negative b) = []
big_content (non_negative b) = b

-- What `Split` is to find in the encoding of a value.
unfoldable pub content_of : Value → Bytes
content_of (text b) = b
content_of (uint i) = uint_content i
content_of (boolean b) = boolean_content b
content_of (big i) = big_content i
content_of (raw b) = b
content_of (sequence vs) = payload vs

unfoldable pub kind_of : Value → Kind
kind_of (sequence vs) = list_kind
kind_of (text b) = string_kind_of b
kind_of (uint i) = string_kind_of (uint_content i)
kind_of (boolean b) = string_kind_of (boolean_content b)
kind_of (big i) = string_kind_of (big_content i)
kind_of (raw b) = string_kind_of b

-- A value with no raw part at its top, no negative number, and contents whose lengths are uint64s.
abbrev pub Readable : Value → Type 0
Readable (text b) = length b < 2 ^ 64
Readable (uint i) = i < 2 ^ 64
Readable (boolean b) = Unit {0}
Readable (big (negative b)) = ⊥
Readable (big (non_negative b)) = length b < 2 ^ 64
Readable (raw b) = ⊥
Readable (sequence vs) = length (payload vs) < 2 ^ 64

abbrev pub AllReadable : Values → Type 0
AllReadable nil = Unit {0}
AllReadable (cons v vs) = Readable v × AllReadable vs

-- A string that is one byte.
single : (b : Bytes) → (length b == 1 && leb (first b) 0x7F) ≡ true → b ≡ first b ∷ []
single [] h = ground arith
single (x ∷ []) h = refl
single (x ∷ y ∷ b) h = ground arith

split-string_encoding :
    (b rest : Bytes)
    → length b < 2 ^ 64
    → split (string_encoding b ++ rest) ≡ ok (string_kind_of b, b, rest)
unfolding string_encoding string_kind_of
split-string_encoding b rest h = elim (Bool-cases (length b == 1 && leb (first b) 0x7F)) [
  | inl small ↦ rw small (rw (single b small) (split_byte (first b) rest (ground arith)))
  | inr large ↦
      rw (large, append_assoc (puthead 0x80 0xB7 (length b)) b rest)
        (split-puthead_string b rest h (λ e. ground arith))
]

putint_large : (i : ℕ) → 128 ≤ i → (length (putint i) == 1 && leb (first (putint i)) 0x7F) ≡ false
unfolding putint
putint_large i h = ground arith

uint_content-encoding : (i : ℕ) → uint_encoding i ≡ string_encoding (uint_content i)
unfolding uint_encoding string_encoding uint_content puthead
uint_content-encoding i = ground (arith, putint_large i, length-putint i)

boolean_content-encoding : (b : Bool) → boolean_encoding b ≡ string_encoding (boolean_content b)
unfolding boolean_encoding string_encoding puthead
boolean_content-encoding true = refl
boolean_content-encoding false = refl

big_content-encoding : (b : Bytes) → big_encoding (non_negative b) ≡ string_encoding b
unfolding big_encoding string_encoding puthead
big_content-encoding [] = refl
big_content-encoding (x ∷ b) = refl

length-uint_content : (i : ℕ) → length (uint_content i) < 2 ^ 64
unfolding uint_content
length-uint_content i = ground (arith, length-putint i)

length-boolean_content : (b : Bool) → length (boolean_content b) < 2 ^ 64
length-boolean_content true = omega arith
length-boolean_content false = omega arith

-- Split reads back the kind and the content of the encoding of a value, whatever follows it; given
-- that the value is no raw value or negative number and that its content's length is a uint64.
pub split-encoding :
    (v : Value) (rest : Bytes)
    → Readable v
    → split (encoding v ++ rest) ≡ ok (kind_of v, content_of v, rest)
unfolding encoding kind_of content_of
split-encoding (text b) rest h = split-string_encoding b rest h
split-encoding (uint i) rest h =
    rw uint_content-encoding (split-string_encoding (uint_content i) rest (length-uint_content i))
split-encoding (boolean b) rest h =
    rw boolean_content-encoding
      (split-string_encoding (boolean_content b) rest (length-boolean_content b))
split-encoding (big (negative b)) rest h = absurd h
split-encoding (big (non_negative b)) rest h =
    rw big_content-encoding (split-string_encoding b rest h)
split-encoding (raw b) rest h = absurd h
split-encoding (sequence vs) rest h =
    rw (append_assoc (puthead 0xC0 0xF7 (length (payload vs))) (payload vs) rest)
      (split-puthead_list (payload vs) rest h)

unfoldable pub count : Values → ℕ
count nil = 0
count (cons v vs) = suc (count vs)

-- A value that `Split` reads is one round of the loop of `CountValues`.
count_values_loop_step :
    (fuel i : ℕ) (b rest : Bytes) {k : Kind} {content : Bytes}
    → split b ≡ ok (k, content, rest)
    → count_values_loop (suc fuel) i b ≡ count_values_loop fuel (i + 1) rest
unfolding count_values_loop split
count_values_loop_step fuel i [] rest h = unfold read_kind in cc
count_values_loop_step fuel i (x ∷ b) rest h =
    let (head, read, cut) = >>=-eq-ok (read_kind (x ∷ b)) _ h in
    rw (read, count_values_loop) (ap (count_values_loop fuel (i + 1)) (ground arith))

count_values_loop-payload :
    (vs : Values) (fuel i : ℕ)
    → AllReadable vs
    → count vs ≤ fuel
    → count_values_loop fuel i (payload vs) ≡ some (ok (i + count vs))
unfolding payload count
count_values_loop-payload nil fuel i h le =
    unfold count_values_loop in ap (λ (n : ℕ). some (ok n)) (omega arith)
count_values_loop-payload (cons v vs) zero i h le = absurd (omega arith)
count_values_loop-payload (cons v vs) (suc fuel) i h le =
    count_values_loop_step fuel i _ (payload vs) (split-encoding v (payload vs) h.0)
    ∙ count_values_loop-payload vs fuel (i + 1) h.1 (omega arith)
    ∙ ap (λ (n : ℕ). some (ok n)) (omega arith)

puthead_nonempty : (n : ℕ) → 1 ≤ length (puthead 0xC0 0xF7 n)
unfolding puthead
puthead_nonempty n = ground arith

pub encoding_nonempty : (v : Value) → Readable v → 1 ≤ length (encoding v)
unfolding encoding string_encoding uint_encoding boolean_encoding big_encoding puthead
encoding_nonempty (text b) h = ground arith
encoding_nonempty (uint i) h = ground arith
encoding_nonempty (boolean true) h = ground arith
encoding_nonempty (boolean false) h = ground arith
encoding_nonempty (big (negative b)) h = absurd h
encoding_nonempty (big (non_negative [])) h = ground arith
encoding_nonempty (big (non_negative (x ∷ b))) h = ground arith
encoding_nonempty (raw b) h = absurd h
encoding_nonempty (sequence vs) h = omega (
  arith,
  length-append (puthead 0xC0 0xF7 (length (payload vs))) (payload vs),
  puthead_nonempty (length (payload vs)),
)

pub count-le-length : (vs : Values) → AllReadable vs → count vs ≤ length (payload vs)
unfolding count payload
count-le-length nil h = omega arith
count-le-length (cons v vs) h = omega (
  arith,
  length-append (encoding v) (payload vs),
  encoding_nonempty v h.0,
  count-le-length vs h.1,
)

-- CountValues on the payload of a list counts the list's elements; given that each element is no
-- raw value or negative number and that its content's length is a uint64.
pub count_values-payload :
    (vs : Values) → AllReadable vs → count_values (payload vs) ≡ some (ok (count vs))
unfolding count_values
count_values-payload vs h =
    count_values_loop-payload vs (length (payload vs)) 0 h (count-le-length vs h)
    ∙ ap (λ (n : ℕ). some (ok n)) (omega arith)
