-- ===== src/Types/Block.antt =====
-- core/types/block.go: Header, Block, their hashes and sizes. The headers behind a pointer are there;
-- a `*big.Int` may be nil, which is `none`. Slices are values: none is written to in place.
pub mod Seal
use advance_golang.Base.{ℕ, ◌%◌, ◌^◌, Option, none, some, List, [], ◌∷◌, length}
use advance_golang.Base.Maps.{Bytes}
use advance_golang.Rlp.Encode.{
  BigInt, non_negative, Value, text, uint, big, raw, sequence, Values, nil, cons, encode_to_bytes,
}
use advance_golang.Base.{Bool, true, false}
use advance_golang.Rlp.Fields.{
  FieldKind, pointer, slice, other_kind, other_elem, StructField, empty_word, Parsed, good, bad,
  struct_value,
}
use mathlib.Core.Option
use advance_golang.Rlp.Head.{big_endian}
use advance_golang.Rlp.Result.{Result, ok, err}

pub record Header : Type 0 where
  pub parent_hash : Bytes
  pub uncle_hash : Bytes
  pub coinbase : Bytes
  pub reward_address : Bytes
  pub root : Bytes
  pub tx_hash : Bytes
  pub receipt_hash : Bytes
  pub difficulty : Option BigInt
  pub number : Option BigInt
  pub gas_limit : ℕ
  pub gas_used : ℕ
  pub time : Option BigInt
  pub extra : Bytes
  pub mix_digest : Bytes
  pub nonce : Bytes
  pub signature : Bytes
  pub multi_sign_normal : Bytes
  pub multi_sign_commit : Bytes

-- `hash` and `size` are the caches, `none` before they are stored; `received_at` is what the writer
-- makes of the time, `received_from` of the value that the interface holds.
pub record Block : Type 0 where
  pub header : Header
  pub uncles : List Header
  pub hash : Option Bytes
  pub size : Option ℕ
  pub td : Option BigInt
  pub received_at : Value
  pub received_from : Option Value

-- writeBigIntPtr
unfoldable pub big_ptr : Option BigInt → Value
big_ptr none = raw (0x80 ∷ [])
big_ptr (some i) = big i

-- The fields that all three hashes take, and more fields after them.
unfoldable pub hashed_fields : Header → Values → Values
hashed_fields h more = cons (text h.parent_hash) (
    cons (text h.uncle_hash) (
      cons (text h.coinbase) (
        cons (text h.reward_address) (
          cons (text h.root) (
            cons (text h.tx_hash) (
              cons (text h.receipt_hash) (
                cons (big_ptr h.difficulty) (
                  cons (big_ptr h.number) (
                    cons (uint h.gas_limit) (
                      cons (uint h.gas_used)
                        (cons (big_ptr h.time) (cons (text h.extra) more))))))))))))

-- The exported fields of a Header, all of them.
unfoldable pub header_value : Header → Value
header_value h = sequence (
    hashed_fields h (
      cons (text h.mix_digest) (
        cons (text h.nonce) (
          cons (text h.signature)
            (cons (text h.multi_sign_normal) (cons (text h.multi_sign_commit) nil))))))

unfoldable pub header_values : List Header → Values
header_values [] = nil
header_values (h ∷ hs) = cons (header_value h) (header_values hs)

-- What rlp.Encode writes: nothing where it returns an error, which its callers drop.
unfoldable pub written_bytes : Result Bytes → Bytes
written_bytes (ok b) = b
written_bytes (err e) = []

unfoldable pub copy_big : Option BigInt → Option BigInt
copy_big none = some (non_negative [])
copy_big (some i) = some i

unfoldable pub copy_header : Header → Header
copy_header h = record h {
  time = copy_big h.time;
  difficulty = copy_big h.difficulty;
  number = copy_big h.number;
}

-- time.Time has no exported field.
abbrev pub zero_time : Value
zero_time = sequence nil

unfoldable pub new_block_with_header : Header → Block
new_block_with_header h = record {
  header = copy_header h;
  uncles = [];
  hash = none;
  size = none;
  td = none;
  received_at = zero_time;
  received_from = none;
}

unfoldable pub with_seal : Block → Header → Block
with_seal b h = record {
  header = h;
  uncles = b.uncles;
  hash = none;
  size = none;
  td = none;
  received_at = zero_time;
  received_from = none;
}

unfoldable pub block_header : Block → Header
block_header b = copy_header b.header

unfoldable pub set_signature : Bytes → Block → Block
set_signature sig b = record b { header = record (b.header) { signature = sig } }

unfoldable pub set_multi_sign : Bytes → Bytes → Block → Block
set_multi_sign normal commit b = record b {
  header = record (b.header) { multi_sign_commit = commit; multi_sign_normal = normal };
}

unfoldable pub nonce_uint64 : Bytes → ℕ
nonce_uint64 n = big_endian n

-- A field of a struct, and the value that its writer takes.
abbrev pub struct_field : Bool → FieldKind → Value → StructField × Option Value
struct_field exported kind v =
    (record { exported = exported; kind = kind; tag = empty_word ∷ [] }, some v)

-- ReceivedFrom, whose nil is written as an empty list (writeInterface).
abbrev pub interface_value : Option Value → Value
interface_value none = raw (0xC0 ∷ [])
interface_value (some v) = v

-- The caches, as their writers would take them.
abbrev pub cache_value : Option Value → Value
cache_value none = sequence nil
cache_value (some v) = v

-- The fields of a Block in their order, for makeStructWriter, which leaves out the names in lower case.
unfoldable pub block_fields : Block → List (StructField × Option Value)
block_fields b =
    struct_field false (pointer other_elem) (header_value b.header)
    ∷ struct_field false slice (sequence (header_values b.uncles))
    ∷ struct_field false other_kind (cache_value (Option.map text b.hash))
    ∷ struct_field false other_kind (cache_value (Option.map uint b.size))
    ∷ struct_field false (pointer other_elem) (big_ptr b.td)
    ∷ struct_field true other_kind b.received_at
    ∷ struct_field true other_kind (interface_value b.received_from)
    ∷ []

unfoldable pub block_value : Block → Parsed Value
block_value b = struct_value (block_fields b)

unfoldable pub block_bytes : Parsed Value → Bytes
block_bytes (good v) = written_bytes (encode_to_bytes v)
block_bytes (bad e) = []

-- Size, and the block with its cache.
unfoldable pub block_size : Block → ℕ × Block
block_size b =
    let n = length (block_bytes (block_value b)) in
    elim b.size [ some m ↦ (m, b) | none ↦ (n, record b { size = some n }) ]

-- `keccak` is the hash of golang.org/x/crypto/sha3.
module _ (keccak : Bytes → Bytes) where
  unfoldable pub rlp_hash : Value → Bytes
  rlp_hash x = keccak (written_bytes (encode_to_bytes x))

  unfoldable pub header_hash : Header → Bytes
  header_hash h = rlp_hash (header_value h)

  unfoldable pub hash_no_nonce : Header → Bytes
  hash_no_nonce h = rlp_hash (sequence (hashed_fields h nil))

  unfoldable pub hash_no_signature : Header → Bytes
  hash_no_signature h = rlp_hash (sequence (hashed_fields h (cons (text h.nonce) nil)))

  unfoldable pub calc_uncle_hash : List Header → Bytes
  calc_uncle_hash uncles = rlp_hash (sequence (header_values uncles))

  -- Hash of a Block, and the block with its cache.
  unfoldable pub block_hash : Block → Bytes × Block
  block_hash b =
      let v = header_hash b.header in
      elim b.hash [ some w ↦ (w, b) | none ↦ (v, record b { hash = some v }) ]
