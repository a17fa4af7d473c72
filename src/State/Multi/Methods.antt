-- ===== src/State/Multi/Methods.antt =====
-- core/state/multi_statedb.go: NewMStateDB, the getters and the setters of MStateDB, and the methods
-- that it hands to its StateDB. Each method on an account runs once requestAndLock has returned.
use advance_golang.Base.{ℕ, zero, suc, Bool, true, false, Option, none, some, List, [], ◌∷◌, length}
use advance_golang.Base.Int.{ℤ, pos}
use advance_golang.Base.Maps.{Bytes}
use advance_golang.State.Accessors.{get_refund, all_preimages}
use advance_golang.State.Backend.{Backend}
use advance_golang.State.Commit.{update_trie, deep_copy}
use advance_golang.State.Db.{
  StateDb, set_error, write_back, add_preimage, add_refund, prepare, code_bytes,
}
use advance_golang.State.Multi.{
  MStateDb, new_member, multi_get_state_object, multi_create_object, multi_get_or_new_state_object,
}
use advance_golang.State.Object.{
  StateObject, JournalEntry, suicide_change, Journal, append, set_balance, mark_suicided, is_empty,
  object_get_state, object_get_pdx_state, object_code, object_set_balance, object_add_balance,
  object_sub_balance, object_set_nonce, object_set_state, object_set_pdx_state,
}
use advance_golang.State.Revert.{snapshot}
use advance_golang.Types.{bytes_to_hash, zero_hash}

module _ {Trie : Type 0} where
  unfoldable pub members : ℕ → Trie → List (MStateDb Trie)
  members zero t = []
  members (suc n) t = new_member t ∷ members n t

  -- `none` is the error on a number below 1; Go's int may be negative.
  unfoldable pub new_multi_state_db : StateDb Trie → ℤ → Option (List (MStateDb Trie))
  new_multi_state_db st (pos zero) = none
  new_multi_state_db st (pos (suc n)) = some (members (suc n) st.trie)
  new_multi_state_db st num = none

  abbrev in_stdb : MStateDb Trie → StateDb Trie → MStateDb Trie
  in_stdb s d = record s { stdb = d }

  unfoldable pub multi_add_preimage : MStateDb Trie → Bytes → Bytes → MStateDb Trie
  multi_add_preimage s hash preimage = in_stdb s (add_preimage s.stdb hash preimage)

  unfoldable pub multi_preimages : MStateDb Trie → List (Bytes × Bytes)
  multi_preimages s = all_preimages s.stdb

  unfoldable pub multi_add_refund : MStateDb Trie → ℕ → MStateDb Trie
  multi_add_refund s gas = in_stdb s (add_refund s.stdb gas)

  unfoldable pub multi_get_refund : MStateDb Trie → ℕ
  multi_get_refund s = get_refund s.stdb

  unfoldable pub multi_prepare : MStateDb Trie → Bytes → Bytes → ℕ → MStateDb Trie
  multi_prepare s thash bhash ti = in_stdb s (prepare s.stdb thash bhash ti)

  -- A change through the pointer that the StateDB has at the address. An `own` pointer of the context
  -- follows it.
  abbrev pub change_object : MStateDb Trie → Bytes → StateObject Trie → MStateDb Trie
  change_object s addr o = in_stdb s (write_back s.stdb addr o)

module _ (B : Backend) where
  open B use {Trie, contract_code}

  unfoldable pub multi_snapshot : MStateDb Trie → MStateDb Trie × ℕ
  multi_snapshot s = let (d, id) = snapshot B s.stdb in (in_stdb s d, id)

  -- A getter that reads a field of the object.
  unfoldable pub multi_read {ℓ} :
      {A : Type ℓ} → MStateDb Trie → Bytes → A → (StateObject Trie → A) → MStateDb Trie × A
  multi_read s addr default field =
      let (s1, found) = multi_get_state_object B s addr in
      (s1, elim found [ none ↦ default | some o ↦ field o ])

  unfoldable pub multi_exist : MStateDb Trie → Bytes → MStateDb Trie × Bool
  multi_exist s addr = multi_read s addr false (λ o. true)

  unfoldable pub multi_empty : MStateDb Trie → Bytes → MStateDb Trie × Bool
  multi_empty s addr = multi_read s addr true (is_empty B)

  unfoldable pub multi_get_balance : MStateDb Trie → Bytes → MStateDb Trie × ℤ
  multi_get_balance s addr = multi_read s addr (pos 0) (λ o. o.account.balance)

  unfoldable pub multi_get_nonce : MStateDb Trie → Bytes → MStateDb Trie × ℕ
  multi_get_nonce s addr = multi_read s addr 0 (λ o. o.account.nonce)

  unfoldable pub multi_get_code_hash : MStateDb Trie → Bytes → MStateDb Trie × Bytes
  multi_get_code_hash s addr = multi_read s addr zero_hash (λ o. bytes_to_hash o.account.code_hash)

  unfoldable pub multi_has_suicided : MStateDb Trie → Bytes → MStateDb Trie × Bool
  multi_has_suicided s addr = multi_read s addr false (λ o. o.suicided)

  -- `none` is the nil trie. The copy is written to the trie and dropped.
  unfoldable pub multi_storage_trie : MStateDb Trie → Bytes → MStateDb Trie × Option Trie
  multi_storage_trie s addr = multi_read s addr none (λ o. some (update_trie B (deep_copy B o)).1)

  -- A getter that goes through a method of the object, which may fill the object's caches.
  unfoldable pub multi_with_getter {ℓ} :
      {A : Type ℓ}
      → MStateDb Trie
      → Bytes
      → A
      → (StateObject Trie → StateObject Trie × A)
      → MStateDb Trie × A
  multi_with_getter s addr default method =
      let (s1, found) = multi_get_state_object B s addr in
      elim found [
        | none ↦ (s1, default)
        | some o ↦ let (o', a) = method o in (change_object s1 addr o', a)
      ]

  unfoldable pub multi_get_code : MStateDb Trie → Bytes → MStateDb Trie × Option Bytes
  multi_get_code s addr = multi_with_getter s addr none (object_code B)

  unfoldable pub multi_get_state : MStateDb Trie → Bytes → Bytes → MStateDb Trie × Bytes
  multi_get_state s addr key = multi_with_getter s addr zero_hash (λ o. object_get_state B o key)

  unfoldable pub multi_get_pdx_state : MStateDb Trie → Bytes → Bytes → MStateDb Trie × Bytes
  multi_get_pdx_state s addr key = multi_with_getter s addr [] (λ o. object_get_pdx_state B o key)

  -- Unlike StateDB, it looks at the code of the object first.
  unfoldable pub multi_get_code_size : MStateDb Trie → Bytes → MStateDb Trie × ℕ
  multi_get_code_size s addr =
      let (s1, found) = multi_get_state_object B s addr in
      elim found [
        | none ↦ (s1, 0)
        | some o ↦
            let (size, e) = contract_code o.addr_hash (bytes_to_hash o.account.code_hash) in
            let asked : MStateDb Trie = elim e [
              | none ↦ s1
              | some x ↦ in_stdb s1 (set_error s1.stdb (some x))
            ] in
            elim o.code [ some c ↦ (s1, length c) | none ↦ (asked, length (code_bytes B size)) ]
      ]

  -- A setter: the method of the object at an address, which is created where there is none.
  unfoldable pub multi_with_object :
      MStateDb Trie
      → Bytes
      → (StateObject Trie → Journal Trie → StateObject Trie × Journal Trie)
      → MStateDb Trie
  multi_with_object s addr method =
      let (s1, o) = multi_get_or_new_state_object B s addr in
      let (o', j') = method o s1.stdb.journal in
      let d = write_back s1.stdb addr o' in in_stdb s1 (record d { journal = j' })

  unfoldable pub multi_add_balance : MStateDb Trie → Bytes → ℤ → MStateDb Trie
  multi_add_balance s addr amount =
      multi_with_object s addr (λ o j. object_add_balance B o j amount)

  unfoldable pub multi_sub_balance : MStateDb Trie → Bytes → ℤ → MStateDb Trie
  multi_sub_balance s addr amount =
      multi_with_object s addr (λ o j. object_sub_balance B o j amount)

  unfoldable pub multi_set_balance : MStateDb Trie → Bytes → ℤ → MStateDb Trie
  multi_set_balance s addr amount =
      multi_with_object s addr (λ o j. object_set_balance B o j amount)

  unfoldable pub multi_set_nonce : MStateDb Trie → Bytes → ℕ → MStateDb Trie
  multi_set_nonce s addr nonce = multi_with_object s addr (λ o j. object_set_nonce B o j nonce)

  unfoldable pub multi_set_state : MStateDb Trie → Bytes → Bytes → Bytes → MStateDb Trie
  multi_set_state s addr key value =
      multi_with_object s addr (λ o j. object_set_state B o j key value)

  unfoldable pub multi_set_pdx_state : MStateDb Trie → Bytes → Bytes → Bytes → MStateDb Trie
  multi_set_pdx_state s addr key value =
      multi_with_object s addr (λ o j. object_set_pdx_state B o j key value)

  unfoldable pub multi_suicide : MStateDb Trie → Bytes → MStateDb Trie × Bool
  multi_suicide s addr =
      let (s1, found) = multi_get_state_object B s addr in
      elim found [
        | none ↦ (s1, false)
        | some o ↦
            let entry : JournalEntry Trie = suicide_change addr o.suicided o.account.balance in
            let d = s1.stdb in
            let s2 = in_stdb s1 (record d { journal = append d.journal entry }) in
            (change_object s2 addr (set_balance (mark_suicided o) (pos 0)), true)
      ]

  unfoldable pub multi_create_account : MStateDb Trie → Bytes → MStateDb Trie
  multi_create_account s addr =
      let (s1, newobj, prev) = multi_create_object B s addr in
      elim prev [
        | none ↦ s1
        | some o ↦ change_object s1 addr (set_balance newobj o.account.balance)
      ]
