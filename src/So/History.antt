-- ===== src/So/History.antt =====
-- What GetHistoryForKey returns.
use advance_golang.Base.{
  ℕ, ◌-◌, ◌<◌, ◌≤◌, ◌^◌, ◌≡◌, refl, false, none, some, List, [], ◌∷◌, length, ltb, append-nil,
  arith,
}
use advance_golang.Base.Maps.{Bytes}
use advance_golang.Endian.{uint64_to_byte, byte_to_uint64, byte_to_uint64-uint64_to_byte}
use advance_golang.Rlp.Encode.{
  list, size, header_at, update, list_end, copy_out, to_bytes, write_value, encode_to_bytes,
}
use advance_golang.Rlp.Fields.{struct_fields_from, struct_fields, field_values, struct_value}
use advance_golang.Rlp.Head.{puthead}
use advance_golang.So.Handler.{
  history_limit_reached, get_history_type, CallSoResMessage, Chain, RecordElement,
  encode_record_list, history_loop, history, handle_get_history, dispatch,
}
use advance_golang.So.Ledger.{call-valid}
use advance_golang.So.Stub.{SoCallStub, so_call, get_history_for_key}
use advance_golang.State.Backend.{Backend}
use advance_golang.Types.{bytes_to_hash}

-- The encoding of a list.List has no elements, whatever the list holds.
encode_record_list-empty :
    (records : List RecordElement) → encode_record_list records ≡ some (0xC0 ∷ [])
unfolding encode_record_list struct_value struct_fields struct_fields_from encode_to_bytes
    write_value field_values to_bytes copy_out list_end update list puthead size header_at
encode_record_list-empty records = refl

-- A number as the stub writes it.
byte_to_uint64-written : (n : ℕ) → n < 2 ^ 64 → byte_to_uint64 (uint64_to_byte n) ≡ some n
byte_to_uint64-written n h =
    rw (append-nil (uint64_to_byte n)) at (byte_to_uint64-uint64_to_byte n [] h)

-- The message of a search that has ended.
abbrev limit_message : CallSoResMessage
limit_message = record { res = 0xC0 ∷ []; error = some history_limit_reached }

module _ (B : Backend) (chain : Chain B.Trie) where
  open B use {Trie}

  history-searched :
      (address key : Bytes) (start finish : ℕ) (records : List RecordElement)
      → start ≤ finish
      → history_loop B chain address key (finish - start) start 0 [] ≡ some records
      → history B chain address key start finish ≡ some limit_message
  unfolding history
  history-searched address key start finish records h found =
      let ordered : ltb finish start ≡ false = ground arith in
      let first : ltb start 0 ≡ false = ground arith in
      let second : ltb finish 0 ≡ false = ground arith in
      rw (first, second, ordered, found, encode_record_list-empty records) refl

  -- GetHistoryForKey returns no element and the error that the limit is reached, whatever records the
  -- search has found; given a key that is not empty and a range that is in order, and that no block of
  -- the range is missing.
  pub get_history_for_key-history_loop :
      (s : SoCallStub Trie) (key : Bytes) (start finish : ℕ) (records : List RecordElement)
      → 0 < length key
      → start ≤ finish
      → finish < 2 ^ 64
      → history_loop B chain s.address (bytes_to_hash key) (finish - start) start 0 []
        ≡ some records
      → get_history_for_key B chain s key start finish
        ≡ some (s, none, some (so_call history_limit_reached))
  unfolding get_history_for_key dispatch handle_get_history
  get_history_for_key-history_loop s key start finish records hk order bound found =
      let first = byte_to_uint64-written start (omega arith) in
      let second = byte_to_uint64-written finish bound in
      let inputs = uint64_to_byte start ∷ uint64_to_byte finish ∷ [] in
      rw (call-valid B chain s get_history_type key inputs hk) (
        rw
          (
            first,
            second,
            history-searched s.address (bytes_to_hash key) start finish records order found,
          )
          refl)
