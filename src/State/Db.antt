-- ===== src/State/Db.antt =====
-- core/state/statedb.go: the StateDB, its getters and its setters. An object that the Go code
-- changes through a pointer is written back under the address that it was found at.
use advance_golang.Base.{ℕ, ◌+◌, ◌%◌, ◌^◌, Bool, true, false, Option, none, some}
use advance_golang.Base.{◌==◌, if◌then◌else◌, List, [], length}
use advance_golang.Base.Int.{ℤ, pos}
use advance_golang.Base.Maps.{Bytes, lookup, insert}
use advance_golang.State.Backend.{DbError, RawAccount, Backend}
use advance_golang.State.Object.{
  StateObject, JournalEntry, create_object_change, reset_object_change, suicide_change,
  refund_change, add_preimage_change, Journal, new_journal, append, set_balance, set_nonce,
  mark_suicided, is_empty, new_object, object_get_state, object_get_pdx_state, object_code,
  object_set_balance, object_add_balance, object_sub_balance, object_set_nonce, object_set_code,
  object_set_state, object_set_pdx_state,
}
use advance_golang.Types.{bytes_to_hash, zero_hash}

pub record Revision : Type 0 where
  pub id : ℕ
  pub journal_index : ℕ

-- `lock` guards Copy and SetDirties only and is left out.
pub record StateDb (Trie : Type 0) : Type 0 where
  pub trie : Trie
  pub state_objects : List (Bytes × StateObject Trie)
  pub state_objects_dirty : List (Bytes × Unit {0})
  pub db_err : Option DbError
  pub refund : ℕ
  pub thash : Bytes
  pub bhash : Bytes
  pub tx_index : ℕ
  pub log_size : ℕ
  pub preimages : List (Bytes × Bytes)
  pub journal : Journal Trie
  pub valid_revisions : List Revision
  pub next_revision_id : ℕ

-- `New` on an opened trie, and `NewCopy`.
abbrev pub new_state : {Trie : Type 0} → Trie → StateDb Trie
new_state t = record {
  trie = t;
  state_objects = [];
  state_objects_dirty = [];
  db_err = none;
  refund = 0;
  thash = zero_hash;
  bhash = zero_hash;
  tx_index = 0;
  log_size = 0;
  preimages = [];
  journal = new_journal;
  valid_revisions = [];
  next_revision_id = 0;
}

module _ {Trie : Type 0} where
  unfoldable pub set_error : StateDb Trie → Option DbError → StateDb Trie
  set_error s e = elim s.db_err [ none ↦ record s { db_err = e } | some _ ↦ s ]

  unfoldable pub set_state_object : StateDb Trie → StateObject Trie → StateDb Trie
  set_state_object s o = record s { state_objects = insert o.address o s.state_objects }

  -- A change through the pointer that the map holds at `addr`.
  abbrev pub write_back : StateDb Trie → Bytes → StateObject Trie → StateDb Trie
  write_back s addr o = record s { state_objects = insert addr o s.state_objects }

  unfoldable pub add_preimage : StateDb Trie → Bytes → Bytes → StateDb Trie
  add_preimage s hash preimage = elim (lookup hash s.preimages) [
    | none ↦ record s {
      journal = append s.journal (add_preimage_change hash);
      preimages = insert hash preimage s.preimages;
    }
    | some _ ↦ s
  ]

  -- The refund is a uint64.
  unfoldable pub add_refund : StateDb Trie → ℕ → StateDb Trie
  add_refund s gas = record s {
    journal = append s.journal (refund_change s.refund);
    refund = (s.refund + gas) % 2 ^ 64;
  }

  unfoldable pub prepare : StateDb Trie → Bytes → Bytes → ℕ → StateDb Trie
  prepare s thash bhash ti = record s { thash = thash; bhash = bhash; tx_index = ti }

-- `Account{}`
abbrev pub empty_account : RawAccount
empty_account = record { nonce = 0; balance = none; root = zero_hash; code_hash = none }

module _ (B : Backend) where
  open B use {Trie, try_get, keccak256, contract_code, decode_account}

  -- An account that is not live, out of its encoding in the trie.
  unfoldable pub load_object :
      StateDb Trie → Bytes → Bytes → StateDb Trie × Option (StateObject Trie)
  load_object s addr enc = elim (decode_account enc) [
    | none ↦ (s, none)
    | some raw ↦ let o = new_object B addr raw in (set_state_object s o, some o)
  ]

  unfoldable pub get_state_object : StateDb Trie → Bytes → StateDb Trie × Option (StateObject Trie)
  get_state_object s addr = elim (lookup addr s.state_objects) [
    | some o ↦ (s, if o.deleted then none else some o)
    | none ↦
        let (enc, e) = try_get s.trie addr in
        if length enc == 0 then (set_error s e, none) else load_object s addr enc
  ]

  unfoldable pub create_object :
      StateDb Trie → Bytes → StateDb Trie × StateObject Trie × Option (StateObject Trie)
  create_object s addr =
      let (s1, prev) = get_state_object s addr in
      let newobj = set_nonce (new_object B addr empty_account) 0 in
      let entry : JournalEntry Trie = elim prev [
        | none ↦ create_object_change addr
        | some o ↦ reset_object_change o
      ] in
      let s2 = record s1 { journal = append s1.journal entry } in
      (set_state_object s2 newobj, newobj, prev)

  unfoldable pub get_or_new_state_object : StateDb Trie → Bytes → StateDb Trie × StateObject Trie
  get_or_new_state_object s addr =
      let (s1, found) = get_state_object s addr in
      let (s2, newobj, _) = create_object s1 addr in
      elim found [ none ↦ (s2, newobj) | some o ↦ if o.deleted then (s2, newobj) else (s1, o) ]

  unfoldable pub create_account : StateDb Trie → Bytes → StateDb Trie
  create_account s addr =
      let (s1, newobj, prev) = create_object s addr in
      elim prev [ none ↦ s1 | some o ↦ write_back s1 addr (set_balance newobj o.account.balance) ]

  -- A setter: the method of the object at an address, which is created where there is none.
  unfoldable pub with_object :
      StateDb Trie
      → Bytes
      → (StateObject Trie → Journal Trie → StateObject Trie × Journal Trie)
      → StateDb Trie
  with_object s addr method =
      let (s1, o) = get_or_new_state_object s addr in
      let (o', j') = method o s1.journal in record (write_back s1 addr o') { journal = j' }

  unfoldable pub add_balance : StateDb Trie → Bytes → ℤ → StateDb Trie
  add_balance s addr amount = with_object s addr (λ o j. object_add_balance B o j amount)

  unfoldable pub sub_balance : StateDb Trie → Bytes → ℤ → StateDb Trie
  sub_balance s addr amount = with_object s addr (λ o j. object_sub_balance B o j amount)

  unfoldable pub db_set_balance : StateDb Trie → Bytes → ℤ → StateDb Trie
  db_set_balance s addr amount = with_object s addr (λ o j. object_set_balance B o j amount)

  unfoldable pub db_set_nonce : StateDb Trie → Bytes → ℕ → StateDb Trie
  db_set_nonce s addr nonce = with_object s addr (λ o j. object_set_nonce B o j nonce)

  -- A nil slice hashes like an empty one.
  abbrev pub code_bytes : Option Bytes → Bytes
  code_bytes none = []
  code_bytes (some c) = c

  unfoldable pub db_set_code : StateDb Trie → Bytes → Option Bytes → StateDb Trie
  db_set_code s addr code =
      with_object s addr (λ o j. object_set_code B o j (keccak256 (code_bytes code)) code)

  unfoldable pub db_set_state : StateDb Trie → Bytes → Bytes → Bytes → StateDb Trie
  db_set_state s addr key value = with_object s addr (λ o j. object_set_state B o j key value)

  unfoldable pub db_set_pdx_state : StateDb Trie → Bytes → Bytes → Bytes → StateDb Trie
  db_set_pdx_state s addr key value =
      with_object s addr (λ o j. object_set_pdx_state B o j key value)

  unfoldable pub suicide : StateDb Trie → Bytes → StateDb Trie × Bool
  suicide s addr =
      let (s1, found) = get_state_object s addr in
      elim found [
        | none ↦ (s1, false)
        | some o ↦
            let entry : JournalEntry Trie = suicide_change addr o.suicided o.account.balance in
            let s2 = record s1 { journal = append s1.journal entry } in
            (write_back s2 addr (set_balance (mark_suicided o) (pos 0)), true)
      ]

  -- The getters load the account into the live set.
  unfoldable pub exist : StateDb Trie → Bytes → StateDb Trie × Bool
  exist s addr =
      let (s1, found) = get_state_object s addr in (s1, elim found [ none ↦ false | some o ↦ true ])

  unfoldable pub empty : StateDb Trie → Bytes → StateDb Trie × Bool
  empty s addr =
      let (s1, found) = get_state_object s addr in
      (s1, elim found [ none ↦ true | some o ↦ is_empty B o ])

  unfoldable pub get_balance : StateDb Trie → Bytes → StateDb Trie × ℤ
  get_balance s addr =
      let (s1, found) = get_state_object s addr in
      (s1, elim found [ none ↦ pos 0 | some o ↦ o.account.balance ])

  unfoldable pub get_nonce : StateDb Trie → Bytes → StateDb Trie × ℕ
  get_nonce s addr =
      let (s1, found) = get_state_object s addr in
      (s1, elim found [ none ↦ 0 | some o ↦ o.account.nonce ])

  unfoldable pub get_code_hash : StateDb Trie → Bytes → StateDb Trie × Bytes
  get_code_hash s addr =
      let (s1, found) = get_state_object s addr in
      (s1, elim found [ none ↦ zero_hash | some o ↦ bytes_to_hash o.account.code_hash ])

  unfoldable pub has_suicided : StateDb Trie → Bytes → StateDb Trie × Bool
  has_suicided s addr =
      let (s1, found) = get_state_object s addr in
      (s1, elim found [ none ↦ false | some o ↦ o.suicided ])

  -- A getter that goes through a method of the object, which may fill the object's caches.
  unfoldable pub with_getter {ℓ} :
      {A : Type ℓ}
      → StateDb Trie
      → Bytes
      → A
      → (StateObject Trie → StateObject Trie × A)
      → StateDb Trie × A
  with_getter s addr default method =
      let (s1, found) = get_state_object s addr in
      elim found [
        | none ↦ (s1, default)
        | some o ↦ let (o', a) = method o in (write_back s1 addr o', a)
      ]

  unfoldable pub get_code : StateDb Trie → Bytes → StateDb Trie × Option Bytes
  get_code s addr = with_getter s addr none (object_code B)

  unfoldable pub get_state : StateDb Trie → Bytes → Bytes → StateDb Trie × Bytes
  get_state s addr key = with_getter s addr zero_hash (λ o. object_get_state B o key)

  unfoldable pub get_pdx_state : StateDb Trie → Bytes → Bytes → StateDb Trie × Bytes
  get_pdx_state s addr key = with_getter s addr [] (λ o. object_get_pdx_state B o key)

  unfoldable pub get_code_size : StateDb Trie → Bytes → StateDb Trie × ℕ
  get_code_size s addr =
      let (s1, found) = get_state_object s addr in
      elim found [
        | none ↦ (s1, 0)
        | some o ↦
            let (code, e) = contract_code o.addr_hash (bytes_to_hash o.account.code_hash) in
            (elim e [ none ↦ s1 | some x ↦ set_error s1 (some x) ], length (code_bytes code))
      ]
