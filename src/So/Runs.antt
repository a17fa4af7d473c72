-- ===== src/So/Runs.antt =====
-- The theorems on the contract's calls at a concrete state.
use advance_golang.Base.{◌≡◌, refl, none, some, List, [], ◌∷◌, arith}
use advance_golang.Base.Maps.{Bytes, bytes_eq, lookup, insert}
use advance_golang.So.Handler.{
  no_result, history_limit_reached, put_states_type, success, Chain, handle, history_loop,
  record_element_size,
}
use advance_golang.So.History.{get_history_for_key-history_loop}
use advance_golang.So.Ledger.{
  stub_put_state-valid, stub_get_state-stub_put_state, stub_get_state-stub_del_state,
  handle-put_states,
}
use advance_golang.So.Stub.{
  SoCallStub, so_call, with_handler, stub_get_state, stub_del_state, get_history_for_key,
}
use advance_golang.State.Multi.Methods.{multi_get_pdx_state, multi_set_pdx_state}
use advance_golang.State.Samples.{in_memory, genesis}
use advance_golang.State.Object.{set_pdx_state, new_object, object_get_pdx_state}
use advance_golang.State.Db.{StateDb, empty_account, get_state_object, with_getter, get_pdx_state}
use advance_golang.Rlp.Encode.{
  list, size, header_at, update, list_end, copy_out, to_bytes, write_value, encode_to_bytes,
}
use advance_golang.Rlp.Fields.{struct_fields_from, struct_fields, field_values, struct_value}
use advance_golang.Rlp.Head.{puthead}
use advance_golang.Types.{set_bytes, bytes_to_hash}

-- A state with a value under the key.
abbrev past : StateDb (List (Bytes × Bytes))
past = record genesis {
  state_objects =
      (
        7 ∷ [],
        set_pdx_state (new_object in_memory (7 ∷ []) empty_account) (bytes_to_hash (1 ∷ []))
            (9 ∷ []),
      )
      ∷ [];
}

-- Every block has that state.
abbrev chain : Chain (List (Bytes × Bytes))
chain = record {
  get_block_by_number = λ n. some (record { root = []; number = n });
  state_at = λ root. some past;
}

abbrev stub : SoCallStub (List (Bytes × Bytes))
stub = record { handler = record { stdb = genesis; objects = [] }; args = []; address = 7 ∷ [] }

abbrev stored : SoCallStub (List (Bytes × Bytes))
stored =
    with_handler in_memory chain stub
      (multi_set_pdx_state in_memory stub.handler stub.address (bytes_to_hash (1 ∷ [])) (5 ∷ []))

stub_get_state-stub_put_state_example :
    ((multi_get_pdx_state in_memory stored.handler stored.address (bytes_to_hash (1 ∷ []))).1
      ≡ 5 ∷ [])
    × (stub_get_state in_memory chain stored (1 ∷ []) ≡ none)
stub_get_state-stub_put_state_example =
    stub_get_state-stub_put_state in_memory chain stub stored (1 ∷ []) (5 ∷ []) (omega arith)
      (omega arith) (stub_put_state-valid in_memory chain stub (1 ∷ []) (5 ∷ []) (omega arith))

stub_get_state-stub_del_state_example :
    (s1 : SoCallStub (List (Bytes × Bytes))) × (stub_del_state in_memory chain stored (1 ∷ [])
      ≡ some (s1, none))
    × ((s2 : SoCallStub (List (Bytes × Bytes))) × (stub_get_state in_memory chain s1 (1 ∷ [])
          ≡ some (s2, [], some (so_call no_result))))
stub_get_state-stub_del_state_example =
    stub_get_state-stub_del_state in_memory chain stored (1 ∷ []) (omega arith)

handle-put_states_example :
    handle in_memory chain stub.handler
      (record { inputs = (1 ∷ []) ∷ (5 ∷ []) ∷ []; call_type = put_states_type; address = 7 ∷ [] })
    ≡ some (stub.handler, some success)
handle-put_states_example =
    handle-put_states in_memory chain stub.handler (7 ∷ []) (1 ∷ []) ((5 ∷ []) ∷ []) (omega arith)
      refl

get_history_for_key-history_loop_example :
    get_history_for_key in_memory chain stub (1 ∷ []) 3 4
    ≡ some (stub, none, some (so_call history_limit_reached))
unfolding history_loop get_pdx_state with_getter get_state_object object_get_pdx_state set_pdx_state
    new_object lookup insert bytes_eq bytes_to_hash set_bytes record_element_size struct_value
    struct_fields struct_fields_from encode_to_bytes write_value field_values to_bytes copy_out
    list_end update list puthead size header_at
get_history_for_key-history_loop_example =
    get_history_for_key-history_loop in_memory chain stub (1 ∷ []) 3 4
      (record { value = 9 ∷ []; num = 3 } ∷ []) (omega arith) (omega arith) (omega arith) refl
