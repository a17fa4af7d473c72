-- ===== src/So/Ledger.antt =====
-- What the calls of the stub store in the state, and what they read back.
use advance_golang.Base.{
  ◌%◌, ◌<◌, ◌≡◌, refl, sym, ap, ◌∙◌, false, Option, none, some, List, [], ◌∷◌, length, ◌==◌, arith,
}
use advance_golang.Base.Maps.{Bytes}
use advance_golang.So.Handler.{
  no_result, MessageType, get_state_type, put_state_type, put_states_type, del_state_type,
  CallSoResMessage, success, Chain, validity_input, handle_get_state, handle_put_state, put_loop,
  handle_put_states, handle_del_state, Handled, dispatch, handle,
}
use advance_golang.So.Stub.{
  SoCallStub, StubError, so_call, with_handler, call, stub_get_state, stub_put_state,
  stub_del_state,
}
use advance_golang.State.Backend.{Backend}
use advance_golang.State.Multi.{MStateDb}
use advance_golang.State.Multi.Methods.{multi_get_pdx_state, multi_set_pdx_state}
use advance_golang.State.Multi.Stored.{multi_get_pdx_state-multi_set_pdx_state}
use mathlib.Core.Path.{subst}
use advance_golang.State.Revert.{◌>>=◌}
use advance_golang.Types.{bytes_to_hash}

module _ (B : Backend) (chain : Chain B.Trie) where
  open B use {Trie}

  -- What a returned message comes to for the stub.
  abbrev pub answered :
      SoCallStub Trie → Option (Handled B) → Option (SoCallStub Trie × CallSoResMessage)
  answered s handled = do
    (db, res) ← handled
    elim res [ none ↦ none | some r ↦ some (with_handler B chain s db, r) ]

  validity_input-valid : (key : Bytes) → 0 < length key → validity_input key ≡ none
  unfolding validity_input
  validity_input-valid key h = ground arith

  -- A message whose first input is not empty goes to the switch.
  handle-valid :
      (db : MStateDb Trie) (t : MessageType) (address key : Bytes) (more : List Bytes)
      → 0 < length key
      → handle B chain db (record { inputs = key ∷ more; call_type = t; address = address })
        ≡ dispatch B chain db t address (bytes_to_hash key) (key ∷ more)
  unfolding handle
  handle-valid db t address key more h =
      let valid = dispatch B chain db t address (bytes_to_hash key) (key ∷ more) in
      ap
        (λ (r : Option CallSoResMessage). elim r as (λ _. Option (Handled B)) [
          | some res ↦ some (db, some res)
          | none ↦ valid
        ])
        (validity_input-valid key h)

  pub call-valid :
      (s : SoCallStub Trie) (t : MessageType) (key : Bytes) (more : List Bytes)
      → 0 < length key
      → call B chain s t (key ∷ more)
        ≡ answered s (dispatch B chain s.handler t s.address (bytes_to_hash key) (key ∷ more))
  unfolding call
  call-valid s t key more h = ap (answered s) (handle-valid s.handler t s.address key more h)

  pub stub_put_state-valid :
      (s : SoCallStub Trie) (key value : Bytes)
      → 0 < length key
      → stub_put_state B chain s key value
        ≡ some (
          with_handler B chain s
              (multi_set_pdx_state B s.handler s.address (bytes_to_hash key) value),
          none,
        )
  unfolding stub_put_state dispatch handle_put_state
  stub_put_state-valid s key value h = rw (call-valid s put_state_type key (value ∷ []) h) refl

  -- GetState on a key that is not empty, out of what is stored under it.
  pub stub_get_state-stored :
      (s : SoCallStub Trie) (key : Bytes)
      → 0 < length key
      → 0 < length (multi_get_pdx_state B s.handler s.address (bytes_to_hash key)).1
      → stub_get_state B chain s key ≡ none
  unfolding stub_get_state dispatch handle_get_state
  stub_get_state-stored s key h stored =
      let seen : (length (multi_get_pdx_state B s.handler s.address (bytes_to_hash key)).1 == 0)
          ≡ false =
        ground arith in
      rw (call-valid s get_state_type key [] h) (rw (seen, handle_get_state) refl)

  stub_get_state-unset :
      (s : SoCallStub Trie) (key : Bytes)
      → 0 < length key
      → length (multi_get_pdx_state B s.handler s.address (bytes_to_hash key)).1 ≡ 0
      → (s1 : SoCallStub Trie) × (stub_get_state B chain s key
          ≡ some (s1, [], some (so_call no_result)))
  unfolding stub_get_state dispatch handle_get_state
  stub_get_state-unset s key h unset =
      rw (call-valid s get_state_type key [] h) (rw (unset, handle_get_state) (_, refl))

  -- What a put of a value comes to is known, as is what it leaves.
  stub_put_state-result :
      (s s1 : SoCallStub Trie) (key value : Bytes)
      → 0 < length key
      → stub_put_state B chain s key value ≡ some (s1, none)
      → with_handler B chain s (multi_set_pdx_state B s.handler s.address (bytes_to_hash key) value)
        ≡ s1
  stub_put_state-result s s1 key value h put =
      ap (λ (r : Option (SoCallStub Trie × Option StubError)). elim r [ none ↦ s1 | some p ↦ p.0 ])
        (sym (stub_put_state-valid s key value h) ∙ put)

  -- After PutState has stored a value that is not empty under a key, the value is in the state, and
  -- GetState with the key panics; given that the key is not empty.
  pub stub_get_state-stub_put_state :
      (s s1 : SoCallStub Trie) (key value : Bytes)
      → 0 < length key
      → 0 < length value
      → stub_put_state B chain s key value ≡ some (s1, none)
      → ((multi_get_pdx_state B s1.handler s1.address (bytes_to_hash key)).1 ≡ value)
        × (stub_get_state B chain s1 key ≡ none)
  stub_get_state-stub_put_state s s1 key value hk hv put =
      let k = bytes_to_hash key in
      let stored : (multi_get_pdx_state B s1.handler s1.address k).1 ≡ value =
        subst (λ (u : SoCallStub Trie). (multi_get_pdx_state B u.handler u.address k).1 ≡ value)
          (stub_put_state-result s s1 key value hk put)
          (multi_get_pdx_state-multi_set_pdx_state B s.handler s.address k value) in
      (stored, stub_get_state-stored s1 key hk (rw stored hv))

  -- DelState with a key that is not empty succeeds, and GetState then reports that there is no result.
  pub stub_get_state-stub_del_state :
      (s : SoCallStub Trie) (key : Bytes)
      → 0 < length key
      → (s1 : SoCallStub Trie) × (stub_del_state B chain s key ≡ some (s1, none))
        × ((s2 : SoCallStub Trie) × (stub_get_state B chain s1 key
              ≡ some (s2, [], some (so_call no_result))))
  unfolding stub_del_state dispatch handle_del_state
  stub_get_state-stub_del_state s key h =
      let k = bytes_to_hash key in
      let s1 = with_handler B chain s (multi_set_pdx_state B s.handler s.address k []) in
      let unset = ap length (multi_get_pdx_state-multi_set_pdx_state B s.handler s.address k []) in
      (s1, rw (call-valid s del_state_type key [] h) refl, stub_get_state-unset s1 key h unset)

  -- A message with pairs to store is answered with success, and the database stays as it is; given an
  -- even number of inputs, the first of them not empty.
  pub handle-put_states :
      (db : MStateDb Trie) (address key : Bytes) (more : List Bytes)
      → 0 < length key
      → length (key ∷ more) % 2 ≡ 0
      → handle B chain db
          (record { inputs = key ∷ more; call_type = put_states_type; address = address })
        ≡ some (db, some success)
  unfolding dispatch handle_put_states put_loop
  handle-put_states db address key more h even =
      handle-valid db put_states_type address key more h ∙ rw (even, handle_put_states) refl
