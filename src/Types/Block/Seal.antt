-- ===== src/Types/Block/Seal.antt =====
-- The hash and the size of a block against its header.
use advance_golang.Base.{
  ℕ, length, sym, ◌∙◌, ap, ◌≡◌, refl, Option, none, some, Option-cases, inl, inr,
}
use advance_golang.Base.Maps.{Bytes}
use advance_golang.Rlp.Encode.{
  EncBuf, BigInt, write_value, write_big_int, encode_to_bytes, to_bytes, copy_out, list_end, update,
  write, list, size, header_at,
}
use advance_golang.Rlp.Head.{puthead}
use mathlib.Core.Path.{fun_ext}
use advance_golang.Rlp.Encode.{Value, Values, text, uint, boolean, big, raw, sequence, cons, nil}
use advance_golang.Rlp.Fields.{
  good, no_tags, struct_fields, struct_fields_from, last_public_field, last_public_from,
  parse_struct_tag, parse_words, set_word, field_values, struct_value, spliced, written,
}
use advance_golang.Types.Block.{
  Header, Block, zero_time, block_fields, interface_value, block_value, block_bytes, big_ptr,
  copy_big, copy_header, header_value, hashed_fields, header_hash, rlp_hash, written_bytes,
  new_block_with_header, with_seal, set_signature, block_hash, block_size,
}

-- A nil pointer and the zero of its copy are written as the same byte.
write_value-big_ptr :
    (i : Option BigInt) (w : EncBuf)
    → write_value (big_ptr (copy_big i)) w ≡ write_value (big_ptr i) w
unfolding write_value big_ptr copy_big write_big_int
write_value-big_ptr none w = refl
write_value-big_ptr (some i) w = refl

header_hash-copy_header :
    (keccak : Bytes → Bytes) (h : Header)
    → header_hash keccak (copy_header h) ≡ header_hash keccak h
unfolding header_hash rlp_hash header_value hashed_fields copy_header encode_to_bytes write_value
header_hash-copy_header keccak h = rw (
  fun_ext (write_value-big_ptr h.difficulty),
  fun_ext (write_value-big_ptr h.number),
  fun_ext (write_value-big_ptr h.time),
)

-- A block is made with the hash of the header that it is made of, and WithSeal with that of the new
-- header; setting the signature of a block whose hash was taken leaves the hash that Hash returns,
-- and that of a block whose hash was not taken is the hash of the signed header.
pub block_hash-set_signature :
    (keccak : Bytes → Bytes) (h : Header) (b : Block) (sig : Bytes)
    → ((block_hash keccak (new_block_with_header h)).0 ≡ header_hash keccak h)
      × ((block_hash keccak (with_seal b h)).0 ≡ header_hash keccak h)
      × ((block_hash keccak (set_signature sig (block_hash keccak b).1)).0
          ≡ (block_hash keccak b).0)
      × ((block_hash keccak (set_signature sig (with_seal b h))).0
          ≡ header_hash keccak (record h { signature = sig }))
unfolding block_hash set_signature with_seal new_block_with_header
block_hash-set_signature keccak h b sig = (
  header_hash-copy_header keccak h,
  refl,
  elim (Option-cases b.hash) [ inl fresh ↦ rw fresh | inr (v, stored) ↦ rw stored ],
  refl,
)

-- A field without tags goes on the list as it is.
spliced-cons : (v : Value) (rest : Values) → spliced no_tags v rest ≡ cons v rest
unfolding spliced
spliced-cons (text b) rest = refl
spliced-cons (uint i) rest = refl
spliced-cons (boolean b) rest = refl
spliced-cons (big i) rest = refl
spliced-cons (raw b) rest = refl
spliced-cons (sequence vs) rest = refl

-- Out of its fields the writer of structs takes ReceivedAt and ReceivedFrom alone.
block_value-received :
    (b : Block)
    → block_value b
      ≡ good (sequence (cons b.received_at (cons (interface_value b.received_from) nil)))
unfolding block_value block_fields struct_value struct_fields struct_fields_from last_public_field
    last_public_from parse_struct_tag parse_words set_word field_values written
block_value-received b =
    ap (λ vs. good (sequence vs))
      (spliced-cons b.received_at _
        ∙ ap (cons b.received_at) (spliced-cons (interface_value b.received_from) nil))

-- The encoding of the two fields.
abbrev received_size : Value → Option Value → ℕ
received_size at from =
    length (block_bytes (good (sequence (cons at (cons (interface_value from) nil)))))

block_size-fresh :
    (b : Block) → b.size ≡ none → (block_size b).0 ≡ received_size b.received_at b.received_from
unfolding block_size
block_size-fresh b fresh =
    rw (fresh, block_size) (ap (λ v. length (block_bytes v)) (block_value-received b))

received_size_of_new : received_size zero_time none ≡ 3
unfolding block_bytes written_bytes encode_to_bytes write_value to_bytes copy_out list_end update
    write list puthead size header_at
received_size_of_new = refl

-- Two blocks that agree in ReceivedAt and ReceivedFrom have the same Size, whatever their headers and
-- uncles, and Size returns 3 for every block that NewBlockWithHeader or WithSeal makes; given that
-- the sizes of the two are not cached yet.
pub block_size-received :
    (b c : Block) (h : Header)
    → b.size ≡ none
    → c.size ≡ none
    → b.received_at ≡ c.received_at
    → b.received_from ≡ c.received_from
    → ((block_size b).0 ≡ (block_size c).0)
      × ((block_size (new_block_with_header h)).0 ≡ 3)
      × ((block_size (with_seal b h)).0 ≡ 3)
unfolding new_block_with_header with_seal
block_size-received b c h fresh fresh' time from = (
  block_size-fresh b fresh ∙ rw (time, from) refl ∙ sym (block_size-fresh c fresh'),
  block_size-fresh (new_block_with_header h) refl ∙ received_size_of_new,
  block_size-fresh (with_seal b h) refl ∙ received_size_of_new,
)
