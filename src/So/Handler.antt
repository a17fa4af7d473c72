-- ===== src/So/Handler.antt =====
-- so/handler.go and so/message.go: a message of the stub, and what the handler does with it. `none` is
-- a panic. The state is that of the handler's MStateDB; its methods run once requestAndLock has
-- returned. Nothing reads the channel `res`, which is left out, as is what println writes.
use advance_golang.Base.{
  ℕ, zero, suc, ◌+◌, ◌-◌, ◌*◌, ◌%◌, ◌^◌, false, Option, none, some, ltb, leb, ◌==◌, if◌then◌else◌,
  List, [], ◌∷◌, length, get_elem?,
}
use advance_golang.Base.Int.{ℤ}
use advance_golang.Base.Maps.{Bytes}
use advance_golang.Endian.{byte_to_uint64}
use advance_golang.Rlp.Encode.{Value, text, uint, encode_to_bytes}
use advance_golang.Rlp.Fields.{StructField, other_kind, slice, Parsed, bad, good, struct_value}
use advance_golang.Rlp.Result.{ok, err}
use advance_golang.State.Backend.{Backend}
use advance_golang.State.Db.{StateDb, get_pdx_state}
use advance_golang.State.Multi.{MStateDb}
use advance_golang.State.Multi.Methods.{multi_get_pdx_state, multi_set_pdx_state}
use advance_golang.State.Revert.{◌>>=◌}
use advance_golang.Types.{bytes_to_hash}

pub data SoCallError : Type 0 where
  input_error no_result key_value_not_match start_finish_num_illegal : SoCallError
  history_encode_error history_limit_reached : SoCallError

-- `messageType`: the five constants, or any other int.
pub data MessageType : Type 0 where
  get_state_type put_state_type put_states_type del_state_type get_history_type : MessageType
  other_type : ℤ → MessageType

pub record CallSoSendMessage : Type 0 where
  pub inputs : List Bytes
  pub call_type : MessageType
  pub address : Bytes

-- A nil slice is as an empty one to those who read `res`.
pub record CallSoResMessage : Type 0 where
  pub res : Bytes
  pub error : Option SoCallError

-- `types.Block`, as far as it is read.
pub record Block : Type 0 where
  pub root : Bytes
  pub number : ℕ

-- `public.BC`, which another package sets: GetBlockByNumber, with `none` for nil, and StateAt, with
-- `none` for an error.
pub record Chain (Trie : Type 0) : Type 0 where
  pub get_block_by_number : ℕ → Option Block
  pub state_at : Bytes → Option (StateDb Trie)

pub record RecordElement : Type 0 where
  pub value : Bytes
  pub num : ℕ

abbrev pub max_size : ℕ
max_size = 5 * 1024 * 1024 * 1024

abbrev pub failure : SoCallError → CallSoResMessage
failure e = record { res = []; error = some e }

abbrev pub success : CallSoResMessage
success = record { res = []; error = none }

unfoldable pub validity_input : Bytes → Option CallSoResMessage
validity_input input = if length input == 0 then some (failure input_error) else none

-- The fields of a RecordElement and of a list.List, which start with a small letter. What an
-- unexported field holds is not looked at.
abbrev hidden_slice : StructField
hidden_slice = record { exported = false; kind = slice; tag = [] }

abbrev hidden_field : StructField
hidden_field = record { exported = false; kind = other_kind; tag = [] }

abbrev encoded_struct : Parsed Value → Option Bytes
encoded_struct (bad e) = none
encoded_struct (good v) = elim (encode_to_bytes v) [ ok b ↦ some b | err e ↦ none ]

unfoldable pub record_element_size : RecordElement → ℕ
record_element_size r =
    let fields = (hidden_slice, some (text r.value)) ∷ (hidden_field, some (uint r.num)) ∷ [] in
    elim (encoded_struct (struct_value fields)) [ none ↦ 0 | some b ↦ length b ]

-- `rlp.EncodeToBytes(recordList)`: the fields `root` and `len` of the list.
unfoldable pub encode_record_list : List RecordElement → Option Bytes
encode_record_list records =
    encoded_struct
      (struct_value ((hidden_field, none) ∷ (hidden_field, some (uint (length records))) ∷ []))

module _ (B : Backend) where
  open B use {Trie}

  -- What the handler leaves in the database, and the message that it returns: `none` is nil.
  abbrev pub Handled : Type 0
  Handled = MStateDb Trie × Option CallSoResMessage

  unfoldable pub handle_get_state : MStateDb Trie → Bytes → Bytes → Handled
  handle_get_state db address key =
      let (db1, v) = multi_get_pdx_state B db address key in
      (db1, if length v == 0 then some (failure no_result) else none)

  unfoldable pub handle_put_state : MStateDb Trie → Bytes → Bytes → List Bytes → Handled
  handle_put_state db address key (k ∷ value ∷ []) =
      (multi_set_pdx_state B db address key value, some success)
  handle_put_state db address key inputs = (db, some (failure key_value_not_match))

  -- The loop over the pairs, in rounds left.
  unfoldable pub put_loop : ℕ → ℕ → List Bytes → Bytes → MStateDb Trie → Option (MStateDb Trie)
  put_loop zero i inputs address db = some db
  put_loop (suc rounds) i inputs address db = do
    k ← get_elem? inputs (i * 2)
    v ← get_elem? inputs (i * 2 + 1)
    put_loop rounds (suc i) inputs address (multi_set_pdx_state B db address (bytes_to_hash k) v)

  unfoldable pub handle_put_states : MStateDb Trie → Bytes → List Bytes → Option Handled
  handle_put_states db address inputs =
      let stored = do
        db1 ← put_loop (length inputs % 2) 0 inputs address db
        some (db1, some success)
      in if length inputs % 2 == 0 then stored else some (db, some (failure key_value_not_match))

  unfoldable pub handle_del_state : MStateDb Trie → Bytes → Bytes → Handled
  handle_del_state db address key = (multi_set_pdx_state B db address key [], some success)

  -- The loop over the blocks from `i`, in rounds left. The records are in the order of the list.
  unfoldable pub history_loop :
      Chain Trie → Bytes → Bytes → ℕ → ℕ → ℕ → List RecordElement → Option (List RecordElement)
  history_loop chain address key zero i total_size records = some records
  history_loop chain address key (suc rounds) i total_size records =
      elim (chain.get_block_by_number i) [
        | none ↦ none
        | some block ↦ elim (chain.state_at block.root) [
          | none ↦ some records
          | some state_db ↦
              let v = (get_pdx_state B state_db address key).1 in
              let r : RecordElement = record { value = v; num = block.number } in
              let total = (total_size + record_element_size r) % 2 ^ 64 in
              let passed_over = history_loop chain address key rounds (suc i) total_size records in
              let noted = history_loop chain address key rounds (suc i) total (r ∷ records) in
              if length v == 0
              then passed_over
              else if leb max_size total
              then some (r ∷ records)
              else noted
        ]
      ]

  -- The tests that a uint64 is negative are kept.
  unfoldable pub history : Chain Trie → Bytes → Bytes → ℕ → ℕ → Option CallSoResMessage
  history chain address key start_num finish_num =
      let searched = do
        records ← history_loop chain address key (finish_num - start_num) start_num 0 []
        some (elim (encode_record_list records) [
          | none ↦ failure history_encode_error
          | some b ↦ record { res = b; error = some history_limit_reached }
        ])
      in if ltb start_num 0
        then some (failure start_finish_num_illegal)
        else if ltb finish_num 0
        then some (failure start_finish_num_illegal)
        else if ltb finish_num start_num
        then some (failure start_finish_num_illegal)
        else searched

  unfoldable pub handle_get_history :
      Chain Trie → Bytes → Bytes → List Bytes → Option CallSoResMessage
  handle_get_history chain address key inputs =
      let asked = do
        start ← get_elem? inputs 1
        finish ← get_elem? inputs 2
        start_num ← byte_to_uint64 start
        finish_num ← byte_to_uint64 finish
        history chain address key start_num finish_num
      in if length inputs % 3 == 0 then asked else some (failure key_value_not_match)

  -- The switch on the type. Without a case, the message is the nil that `validityInput` returned.
  unfoldable pub dispatch :
      Chain Trie → MStateDb Trie → MessageType → Bytes → Bytes → List Bytes → Option Handled
  dispatch chain db get_state_type address key inputs = some (handle_get_state db address key)
  dispatch chain db put_state_type address key inputs =
      some (handle_put_state db address key inputs)
  dispatch chain db put_states_type address key inputs = handle_put_states db address inputs
  dispatch chain db del_state_type address key inputs = some (handle_del_state db address key)
  dispatch chain db get_history_type address key inputs = do
    res ← handle_get_history chain address key inputs
    some (db, some res)
  dispatch chain db (other_type n) address key inputs = some (db, none)

  unfoldable pub handle : Chain Trie → MStateDb Trie → CallSoSendMessage → Option Handled
  handle chain db message = do
    input ← get_elem? message.inputs 0
    let key = bytes_to_hash input
    elim (validity_input input) [
      | some res ↦ some (db, some res)
      | none ↦ dispatch chain db message.call_type message.address key message.inputs
    ]
