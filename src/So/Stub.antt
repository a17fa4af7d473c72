-- ===== src/So/Stub.antt =====
-- so/stub.go: the calls of a contract, as messages to the handler. `none` is a panic: a nil message is
-- read. GetArgs and GetStringArgs return the arguments, which are byte strings here.
use advance_golang.Base.{ℕ, Option, none, some, ltb, if◌then◌else◌, List, [], ◌∷◌, length}
use advance_golang.Base.Maps.{Bytes}
use advance_golang.Endian.{uint64_to_byte}
use advance_golang.Rlp.Encode.{Value}
use advance_golang.Rlp.Stream.{StreamError, Outcome, fail, done, stuck}
use advance_golang.Rlp.Stream.Shapes.{Shape, struct_shape, no_fields, decode_bytes}
use advance_golang.So.Handler.{
  SoCallError, MessageType, get_state_type, put_state_type, del_state_type, get_history_type,
  CallSoResMessage, Chain, RecordElement, handle,
}
use advance_golang.State.Backend.{Backend}
use advance_golang.State.Multi.{MStateDb}
use advance_golang.State.Revert.{◌>>=◌}

-- The handler is its database.
pub record SoCallStub (Trie : Type 0) : Type 0 where
  pub handler : MStateDb Trie
  pub args : List Bytes
  pub address : Bytes

-- An error that the stub returns: of the handler, or of the decoder.
pub data StubError : Type 0 where
  so_call : SoCallError → StubError
  rlp_error : StreamError → StubError
  rlp_stuck : StubError

abbrev pub stub_error : Option SoCallError → Option StubError
stub_error none = none
stub_error (some e) = some (so_call e)

unfoldable pub get_function_and_parameters : List Bytes → Bytes × List Bytes
get_function_and_parameters [] = ([], [])
get_function_and_parameters (f ∷ params) = (f, params)

-- A list.List has no exported fields, so the decoder sets none of them.
abbrev pub list_shape : Shape
list_shape = struct_shape no_fields

-- `list.Front()` of the list after the decoder: its length is 0.
abbrev pub front_of_decoded : Option RecordElement
front_of_decoded = none

module _ (B : Backend) (chain : Chain B.Trie) where
  open B use {Trie}

  abbrev pub with_handler : SoCallStub Trie → MStateDb Trie → SoCallStub Trie
  with_handler s db = record s { handler = db }

  -- `s.handler.handle(mess)`, and what is read from the message that it returns.
  unfoldable pub call :
      SoCallStub Trie → MessageType → List Bytes → Option (SoCallStub Trie × CallSoResMessage)
  call s call_type inputs = do
    (db, res) ←
        handle B chain s.handler
          (record { inputs = inputs; call_type = call_type; address = s.address })
    elim res [ none ↦ none | some r ↦ some (with_handler s db, r) ]

  unfoldable pub stub_get_state :
      SoCallStub Trie → Bytes → Option (SoCallStub Trie × Bytes × Option StubError)
  stub_get_state s key = do
    (s1, r) ← call s get_state_type (key ∷ [])
    some (s1, r.res, stub_error r.error)

  unfoldable pub stub_put_state :
      SoCallStub Trie → Bytes → Bytes → Option (SoCallStub Trie × Option StubError)
  stub_put_state s key value = do
    (s1, r) ← call s put_state_type (key ∷ value ∷ [])
    some (s1, stub_error r.error)

  unfoldable pub stub_del_state :
      SoCallStub Trie → Bytes → Option (SoCallStub Trie × Option StubError)
  stub_del_state s key = do
    (s1, r) ← call s del_state_type (key ∷ [])
    some (s1, stub_error r.error)

  abbrev decoded_history : Outcome Value → Option RecordElement × Option StubError
  decoded_history (fail e) = (none, some (rlp_error e))
  decoded_history stuck = (none, some rlp_stuck)
  decoded_history (done v) = (front_of_decoded, none)

  unfoldable pub get_history_for_key :
      SoCallStub Trie
      → Bytes
      → ℕ
      → ℕ
      → Option (SoCallStub Trie × Option RecordElement × Option StubError)
  get_history_for_key s key start finish = do
    (s1, r) ← call s get_history_type (key ∷ uint64_to_byte start ∷ uint64_to_byte finish ∷ [])
    let (element, e) =
        if ltb 0 (length r.res)
        then (none, stub_error r.error)
        else decoded_history (decode_bytes list_shape r.res)
    some (s1, element, e)
