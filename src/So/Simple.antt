-- ===== src/So/Simple.antt =====
-- simpleDemo.go: the contract `simple`, with a stub of package so. `none` is a panic.
use advance_golang.Base.{Option, none, some, if◌then◌else◌, List, [], ◌∷◌}
use advance_golang.Base.Maps.{Bytes, bytes_eq}
use advance_golang.So.Handler.{Chain}
use advance_golang.So.Stub.{
  SoCallStub, StubError, get_function_and_parameters, stub_get_state, stub_put_state,
}
use advance_golang.State.Backend.{Backend}
use advance_golang.State.Revert.{◌>>=◌}

-- `wrong_input` is an error that the contract makes.
pub data RunError : Type 0 where
  wrong_input : RunError
  of_stub : StubError → RunError

-- "queryPersonInfo" and "savePersonInfo"
abbrev pub query_person_info_name : Bytes
query_person_info_name =
    113 ∷ 117 ∷ 101 ∷ 114 ∷ 121 ∷ 80 ∷ 101 ∷ 114 ∷ 115 ∷ 111 ∷ 110 ∷ 73 ∷ 110 ∷ 102 ∷ 111 ∷ []

abbrev pub save_person_info_name : Bytes
save_person_info_name =
    115 ∷ 97 ∷ 118 ∷ 101 ∷ 80 ∷ 101 ∷ 114 ∷ 115 ∷ 111 ∷ 110 ∷ 73 ∷ 110 ∷ 102 ∷ 111 ∷ []

module _ (B : Backend) (chain : Chain B.Trie) where
  open B use {Trie}

  abbrev pub Ran : Type 0
  Ran = SoCallStub Trie × Bytes × Option RunError

  unfoldable pub query_person_info : SoCallStub Trie → List Bytes → Option Ran
  query_person_info s (key ∷ []) = do
    (s1, v, e) ← stub_get_state B chain s key
    some (elim e [ none ↦ (s1, v, none) | some x ↦ (s1, [], some (of_stub x)) ])
  query_person_info s args = some (s, [], some wrong_input)

  unfoldable pub save_person_info : SoCallStub Trie → List Bytes → Option Ran
  save_person_info s (key ∷ v ∷ []) = do
    (s1, e) ← stub_put_state B chain s key v
    some (elim e [ none ↦ (s1, v, none) | some x ↦ (s1, [], some (of_stub x)) ])
  save_person_info s args = some (s, [], some wrong_input)

  -- `Run`, of a value that implements the stub's interface.
  unfoldable pub run : SoCallStub Trie → Option Ran
  run s =
      let (function, inputs) = get_function_and_parameters s.args in
      if bytes_eq function query_person_info_name
      then query_person_info s inputs
      else if bytes_eq function save_person_info_name
      then save_person_info s inputs
      else some (s, [], none)
