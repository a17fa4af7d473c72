-- ===== src/So/Demo.antt =====
-- The two functions of the contract, one after the other.
use advance_golang.Base.{◌<◌, ◌≡◌, refl, none, some, List, [], ◌∷◌, length}
use advance_golang.Base.Maps.{Bytes, bytes_eq}
use advance_golang.So.Handler.{Chain}
use advance_golang.So.Ledger.{stub_put_state-valid, stub_get_state-stored}
use advance_golang.So.Simple.{
  query_person_info_name, save_person_info_name, query_person_info, save_person_info, run,
}
use advance_golang.So.Stub.{SoCallStub, with_handler, get_function_and_parameters}
use advance_golang.State.Backend.{Backend}
use advance_golang.State.Multi.Methods.{multi_set_pdx_state}
use advance_golang.State.Multi.Stored.{multi_get_pdx_state-multi_set_pdx_state}
use advance_golang.Types.{bytes_to_hash}

module _ (B : Backend) (chain : Chain B.Trie) where
  open B use {Trie}

  -- The stub of another call of the contract.
  abbrev pub with_args : SoCallStub Trie → List Bytes → SoCallStub Trie
  with_args s args = record s { args = args }

  -- The contract saves a value under a key and returns it, and a query for the key after that
  -- panics; given that neither is empty.
  pub run-run :
      (s : SoCallStub Trie) (key v : Bytes)
      → 0 < length key
      → 0 < length v
      → (s1 : SoCallStub Trie) × (run B chain (with_args s (save_person_info_name ∷ key ∷ v ∷ []))
          ≡ some (s1, v, none))
        × (run B chain (with_args s1 (query_person_info_name ∷ key ∷ [])) ≡ none)
  unfolding run get_function_and_parameters save_person_info query_person_info bytes_eq
  run-run s key v hk hv =
      let start = with_args s (save_person_info_name ∷ key ∷ v ∷ []) in
      let k = bytes_to_hash key in
      let db = multi_set_pdx_state B s.handler s.address k v in
      let s1 = with_handler B chain start db in
      let stored = multi_get_pdx_state-multi_set_pdx_state B s.handler s.address k v in
      let read =
        stub_get_state-stored B chain (with_args s1 (query_person_info_name ∷ key ∷ [])) key hk
          (rw stored hv) in
      (s1, rw (stub_put_state-valid B chain start key v hk) refl, rw read refl)
