-- ===== src/Rlp/Runs.antt =====
-- Concrete runs of the encoder and of the splitting functions, and the theorems at concrete inputs.
use advance_golang.Base.{List, map, All, true, false}
use advance_golang.Rlp.Fields.{
  empty_word, dash, tail_word, other_kind, slice, StructField, no_tags, Field, struct_fields,
  struct_fields_from, last_public_field, last_public_from, parse_struct_tag, parse_words, set_word,
  set_tail,
}
use advance_golang.Rlp.Fields.Tail.{NoneExported}
use advance_golang.Rlp.Fields.Order.{encoded_indices, struct_fields-encoded_indices}
use advance_golang.Base.{ℕ, suc, ◌-◌, drop, ◌+◌, ◌≤◌, ◌≡◌, refl, true, arith}
use advance_golang.Base.{some, take, [], ◌∷◌, ◌++◌, length, All, if◌then◌else◌}
use advance_golang.Base.Maps.{Bytes}
use advance_golang.Rlp.Encode.{text, uint, boolean, sequence, Values, nil, cons, encode_to_bytes}
use advance_golang.Rlp.Encode.Refine.{encode_to_bytes-encoding}
use advance_golang.Rlp.Encode.Pieces.{EncReader, reads, sum, encode_to_reader}
use advance_golang.Rlp.Encode.Pieces.Whole.{encode_to_reader-reads}
use advance_golang.Rlp.Encode.RoundTrip.{kind_of, content_of, AllReadable, split-encoding}
use advance_golang.Rlp.Encode.Spec.{
  string_encoding, uint_encoding, boolean_encoding, encoding, payload, has_negative, Fits,
}
use advance_golang.Rlp.Encode.Unique.{reencode, split-reencode}
use advance_golang.Rlp.Head.{IsByte, putint, puthead}
use advance_golang.Rlp.Raw.{list_kind, split, read_kind, tag_of, check_content}
use advance_golang.Rlp.Raw.Bounds.{split_parts}
use advance_golang.Rlp.Result.{ok, err, canon_size, negative_big_int}

-- The list of "cat", 1024, true and an empty list.
abbrev cat : Bytes
cat = 0x63 ∷ 0x61 ∷ 0x74 ∷ []

abbrev items : Values
items = cons (text cat) (cons (uint 1024) (cons (boolean true) (cons (sequence nil) nil)))

abbrev items_bytes : Bytes
items_bytes = 0xC9 ∷ 0x83 ∷ 0x63 ∷ 0x61 ∷ 0x74 ∷ 0x82 ∷ 0x04 ∷ 0x00 ∷ 0x01 ∷ 0xC0 ∷ []

abbrev items_content : Bytes
items_content = 0x83 ∷ 0x63 ∷ 0x61 ∷ 0x74 ∷ 0x82 ∷ 0x04 ∷ 0x00 ∷ 0x01 ∷ 0xC0 ∷ []

encoding-items : encoding (sequence items) ≡ items_bytes
unfolding encoding payload string_encoding uint_encoding boolean_encoding puthead putint
encoding-items = refl

items-Fits : Fits (sequence items)
unfolding encoding payload string_encoding uint_encoding boolean_encoding puthead putint
items-Fits = (omega arith, (tt, (tt, (tt, ((omega arith, tt), tt)))))

items-AllReadable : AllReadable items
unfolding encoding payload string_encoding uint_encoding boolean_encoding puthead putint content_of
items-AllReadable = (omega arith, (omega arith, (tt, (omega arith, tt))))

-- A byte below 128 stands for itself: with a header of its own it is refused.
split_padded : split (0x81 ∷ 0x05 ∷ []) ≡ err canon_size
unfolding split read_kind tag_of
split_padded = refl

items-split :
    split items_bytes
    ≡ ok (list_kind, 0x83 ∷ 0x63 ∷ 0x61 ∷ 0x74 ∷ 0x82 ∷ 0x04 ∷ 0x00 ∷ 0x01 ∷ 0xC0 ∷ [], [])
unfolding split read_kind tag_of check_content
items-split = refl

items-IsByte : All IsByte items_bytes
items-IsByte = ground arith

encode_to_bytes-encoding_example : encode_to_bytes (sequence items) ≡ (
    if has_negative (sequence items) then err negative_big_int else ok (encoding (sequence items)))
encode_to_bytes-encoding_example = encode_to_bytes-encoding (sequence items) items-Fits

split-encoding_example :
    split (encoding (text cat) ++ (7 ∷ [])) ≡ ok (kind_of (text cat), content_of (text cat), 7 ∷ [])
split-encoding_example = split-encoding (text cat) (7 ∷ []) (omega arith)

split-reencode_example :
    items_bytes
    ≡ reencode list_kind (0x83 ∷ 0x63 ∷ 0x61 ∷ 0x74 ∷ 0x82 ∷ 0x04 ∷ 0x00 ∷ 0x01 ∷ 0xC0 ∷ []) ++ []
split-reencode_example = split-reencode items_bytes list_kind _ [] items-IsByte items-split

split_parts_example :
    (tagsize : ℕ) × (contentsize : ℕ) × (read_kind items_bytes
      ≡ ok (list_kind, tagsize, contentsize))
    × (1 ≤ tagsize + contentsize)
    × (tagsize + contentsize ≤ length items_bytes)
    × (length items_content ≡ contentsize)
    × (length {A = ℕ} [] ≡ length items_bytes - (tagsize + contentsize))
    × (items_bytes ≡ take tagsize items_bytes ++ (items_content ++ []))
split_parts_example = split_parts items_bytes list_kind items_content [] items-split

-- An exported field, a hidden one, one that is left out by its tag, and a tail.
abbrev fields : List StructField
fields =
    record { exported = true; kind = other_kind; tag = empty_word ∷ [] }
    ∷ record { exported = false; kind = slice; tag = [] }
    ∷ record { exported = true; kind = slice; tag = dash ∷ [] }
    ∷ record { exported = true; kind = slice; tag = tail_word ∷ [] }
    ∷ []

abbrev chosen : List Field
chosen =
    record { index = 0; tags = no_tags }
    ∷ record { index = 3; tags = record no_tags { tail = true } }
    ∷ []

struct_fields-encoded_indices_example :
    (map (λ (f : Field). f.index) chosen ≡ encoded_indices 0 fields)
    × All (λ (f : Field). f.tags.tail ≡ true → NoneExported (drop (suc f.index) fields)) chosen
unfolding struct_fields struct_fields_from last_public_field last_public_from parse_struct_tag
    parse_words set_word set_tail
struct_fields-encoded_indices_example = struct_fields-encoded_indices fields chosen refl

items-non_negative : has_negative (sequence items) ≡ false
unfolding has_negative
items-non_negative = refl

encode_to_reader-reads_example :
    (r : EncReader) × (encode_to_reader (sequence items)
      ≡ ok (length (encoding (sequence items)), r))
    × (reads (3 ∷ 1 ∷ 20 ∷ []) r ≡ some (take (sum (3 ∷ 1 ∷ 20 ∷ [])) (encoding (sequence items))))
encode_to_reader-reads_example =
    encode_to_reader-reads (sequence items) (3 ∷ 1 ∷ 20 ∷ []) items-Fits items-non_negative
