-- ===== src/State/Object.antt =====
-- core/state/state_object.go and core/state/journal.go: accounts under modification, the journal of
-- their changes, and the methods of stateObject. A method takes the object and the journal of its
-- StateDB and returns them anew.
use advance_golang.Base.{ℕ, Bool, true, false, ◌&&◌, Option, none, some}
use advance_golang.Base.{ltb, ◌==◌, if◌then◌else◌, List, [], ◌∷◌, ◌++◌, length}
use advance_golang.Base.Int.{ℤ, pos, ◌+ℤ◌, ◌-ℤ◌, is_zero}
use advance_golang.Base.Maps.{Bytes, bytes_eq, lookup, insert}
use advance_golang.Rlp.Raw.{split}
use advance_golang.Rlp.Result.{ok, err}
use advance_golang.State.Backend.{
  DbError, bad_slot, no_storage_trie, no_code, Account, RawAccount, Backend,
}
use advance_golang.Types.{set_bytes, bytes_to_hash, zero_hash, zero_address}
use mathlib.Core.Option

-- `code` is nil until it is loaded, and `trie` until its first use.
pub record StateObject (Trie : Type 0) : Type 0 where
  pub address : Bytes
  pub addr_hash : Bytes
  pub account : Account
  pub db_err : Option DbError
  pub trie : Option Trie
  pub code : Option Bytes
  pub cached_storage : List (Bytes × Bytes)
  pub dirty_storage : List (Bytes × Bytes)
  pub pdx_cached_storage : List (Bytes × Bytes)
  pub pdx_dirty_storage : List (Bytes × Bytes)
  pub dirty_code : Bool
  pub suicided : Bool
  pub deleted : Bool

-- The types that implement journalEntry. (addLogChange has no revert method.)
pub data JournalEntry (Trie : Type 0) : Type 0 where
  create_object_change : (account : Bytes) → JournalEntry Trie
  reset_object_change : (prev : StateObject Trie) → JournalEntry Trie
  suicide_change : (account : Bytes) (prev : Bool) (prevbalance : ℤ) → JournalEntry Trie
  balance_change : (account : Bytes) (prev : ℤ) → JournalEntry Trie
  nonce_change : (account : Bytes) (prev : ℕ) → JournalEntry Trie
  storage_change : (account key prevalue : Bytes) → JournalEntry Trie
  pdx_storage_change : (account key prevalue : Bytes) → JournalEntry Trie
  code_change : (account : Bytes) (prevcode : Option Bytes) (prevhash : Bytes) → JournalEntry Trie
  refund_change : (prev : ℕ) → JournalEntry Trie
  add_preimage_change : (hash : Bytes) → JournalEntry Trie
  touch_change : (account : Bytes) → JournalEntry Trie

-- `dirtied`: the account that an entry marks as dirty, if any.
unfoldable pub dirtied : {Trie : Type 0} → JournalEntry Trie → Option Bytes
dirtied (create_object_change account) = some account
dirtied (reset_object_change prev) = none
dirtied (suicide_change account prev prevbalance) = some account
dirtied (balance_change account prev) = some account
dirtied (nonce_change account prev) = some account
dirtied (storage_change account key prevalue) = some account
dirtied (pdx_storage_change account key prevalue) = some account
dirtied (code_change account prevcode prevhash) = some account
dirtied (refund_change prev) = none
dirtied (add_preimage_change hash) = none
dirtied (touch_change account) = some account

pub record Journal (Trie : Type 0) : Type 0 where
  pub entries : List (JournalEntry Trie)
  pub dirties : List (Bytes × ℤ)

abbrev pub new_journal : {Trie : Type 0} → Journal Trie
new_journal = record { entries = []; dirties = [] }

-- `m[k]` on a map of counters: 0 where the key is missing.
abbrev pub count_of : List (Bytes × ℤ) → Bytes → ℤ
count_of m a = Option.get_or (lookup a m) (pos 0)

-- `dirties[addr]++`
unfoldable pub dirty : {Trie : Type 0} → Journal Trie → Bytes → Journal Trie
dirty j addr = record j { dirties = insert addr (count_of j.dirties addr +ℤ pos 1) j.dirties }

unfoldable pub append : {Trie : Type 0} → Journal Trie → JournalEntry Trie → Journal Trie
append j entry =
    let j' = record j { entries = j.entries ++ (entry ∷ []) } in
    elim (dirtied entry) [ none ↦ j' | some addr ↦ dirty j' addr ]

-- common.HexToAddress("0000000000000000000000000000000000000003")
abbrev pub ripemd : Bytes
ripemd = set_bytes zero_address (3 ∷ [])

-- The setters that no journal entry records.
module _ {Trie : Type 0} where
  unfoldable pub set_balance : StateObject Trie → ℤ → StateObject Trie
  set_balance o amount = let a = o.account in record o { account = record a { balance = amount } }

  unfoldable pub set_nonce : StateObject Trie → ℕ → StateObject Trie
  set_nonce o nonce = let a = o.account in record o { account = record a { nonce = nonce } }

  unfoldable pub set_code : StateObject Trie → Bytes → Option Bytes → StateObject Trie
  set_code o code_hash code =
      let a = o.account in
      record o { code = code; account = record a { code_hash = code_hash }; dirty_code = true }

  unfoldable pub set_state : StateObject Trie → Bytes → Bytes → StateObject Trie
  set_state o key value = record o {
    cached_storage = insert key value o.cached_storage;
    dirty_storage = insert key value o.dirty_storage;
  }

  unfoldable pub set_pdx_state : StateObject Trie → Bytes → Bytes → StateObject Trie
  set_pdx_state o key value = record o {
    pdx_cached_storage = insert key value o.pdx_cached_storage;
    pdx_dirty_storage = insert key value o.pdx_dirty_storage;
  }

  unfoldable pub mark_suicided : StateObject Trie → StateObject Trie
  mark_suicided o = record o { suicided = true }

  -- Only the first error is kept.
  unfoldable pub object_set_error : StateObject Trie → Option DbError → StateObject Trie
  object_set_error o e = elim o.db_err [ none ↦ record o { db_err = e } | some _ ↦ o ]

module _ (B : Backend) where
  open B use {Trie, try_get, try_update, try_delete, open_storage_trie, contract_code, keccak256}

  unfoldable pub empty_code_hash : Bytes
  empty_code_hash = keccak256 []

  unfoldable pub is_empty : StateObject Trie → Bool
  is_empty o =
      o.account.nonce == 0
      && is_zero o.account.balance
      && bytes_eq o.account.code_hash empty_code_hash

  unfoldable pub new_object : Bytes → RawAccount → StateObject Trie
  new_object address data_of = record {
    address = address;
    addr_hash = keccak256 address;
    account = record {
      nonce = data_of.nonce;
      balance = Option.get_or data_of.balance (pos 0);
      root = data_of.root;
      code_hash = Option.get_or data_of.code_hash empty_code_hash;
    };
    db_err = none;
    trie = none;
    code = none;
    cached_storage = [];
    dirty_storage = [];
    pdx_cached_storage = [];
    pdx_dirty_storage = [];
    dirty_code = false;
    suicided = false;
    deleted = false;
  }

  -- Without a storage trie at the root, the object goes on with an empty one.
  unfoldable pub get_trie : StateObject Trie → StateObject Trie × Trie
  get_trie o = elim o.trie [
    | some t ↦ (o, t)
    | none ↦
        let (t, e) = open_storage_trie o.addr_hash o.account.root in
        elim e [
          | none ↦ (record o { trie = some t }, t)
          | some x ↦
              let (t', _) = open_storage_trie o.addr_hash zero_hash in
              let o' = record o { trie = some t' } in
              (object_set_error o' (some (no_storage_trie x)), t')
        ]
  ]

  -- The bytes of a slot, out of its encoding in the trie.
  unfoldable pub decode_slot : StateObject Trie → Bytes → StateObject Trie × Bytes
  decode_slot o enc =
      if ltb 0 (length enc)
      then (elim (split enc) [
        | ok (k, content, rest) ↦ (o, set_bytes zero_hash content)
        | err e ↦ (object_set_error o (some (bad_slot e)), set_bytes zero_hash [])
      ])
      else (o, zero_hash)

  unfoldable pub object_get_state : StateObject Trie → Bytes → StateObject Trie × Bytes
  object_get_state o key = elim (lookup key o.cached_storage) [
    | some value ↦ (o, value)
    | none ↦
        let (o1, t) = get_trie o in
        let (enc, e) = try_get t key in
        elim e [
          | some x ↦ (object_set_error o1 (some x), zero_hash)
          | none ↦
              let (o2, value) = decode_slot o1 enc in
              (record o2 { cached_storage = insert key value o2.cached_storage }, value)
        ]
  ]

  unfoldable pub object_get_pdx_state : StateObject Trie → Bytes → StateObject Trie × Bytes
  object_get_pdx_state o key = elim (lookup key o.pdx_cached_storage) [
    | some value ↦ (o, value)
    | none ↦
        let (o1, t) = get_trie o in
        let (enc, e) = try_get t key in
        elim e [ some x ↦ (object_set_error o1 (some x), []) | none ↦ (o1, enc) ]
  ]

  unfoldable pub object_code : StateObject Trie → StateObject Trie × Option Bytes
  object_code o = elim o.code [
    | some c ↦ (o, some c)
    | none ↦
        if bytes_eq o.account.code_hash empty_code_hash
        then (o, none)
        else (let (code, e) = contract_code o.addr_hash (bytes_to_hash o.account.code_hash) in
            let o1 : StateObject Trie = elim e [
              | none ↦ o
              | some x ↦ object_set_error o (some (no_code o.account.code_hash x))
            ] in
            (record o1 { code = code }, code))
  ]

  -- The setters below record what they overwrite.
  unfoldable pub touch : StateObject Trie → Journal Trie → StateObject Trie × Journal Trie
  touch o j =
      let j' = append j (touch_change o.address) in
      (o, if bytes_eq o.address ripemd then dirty j' o.address else j')

  unfoldable pub object_set_balance :
      StateObject Trie → Journal Trie → ℤ → StateObject Trie × Journal Trie
  object_set_balance o j amount =
      (set_balance o amount, append j (balance_change o.address o.account.balance))

  unfoldable pub object_add_balance :
      StateObject Trie → Journal Trie → ℤ → StateObject Trie × Journal Trie
  object_add_balance o j amount =
      if is_zero amount
      then (if is_empty o then touch o j else (o, j))
      else object_set_balance o j (o.account.balance +ℤ amount)

  unfoldable pub object_sub_balance :
      StateObject Trie → Journal Trie → ℤ → StateObject Trie × Journal Trie
  object_sub_balance o j amount =
      if is_zero amount then (o, j) else object_set_balance o j (o.account.balance -ℤ amount)

  unfoldable pub object_set_nonce :
      StateObject Trie → Journal Trie → ℕ → StateObject Trie × Journal Trie
  object_set_nonce o j nonce =
      (set_nonce o nonce, append j (nonce_change o.address o.account.nonce))

  unfoldable pub object_set_code :
      StateObject Trie → Journal Trie → Bytes → Option Bytes → StateObject Trie × Journal Trie
  object_set_code o j code_hash code =
      let (o1, prevcode) = object_code o in
      (set_code o1 code_hash code, append j (code_change o1.address prevcode o1.account.code_hash))

  unfoldable pub object_set_state :
      StateObject Trie → Journal Trie → Bytes → Bytes → StateObject Trie × Journal Trie
  object_set_state o j key value =
      let (o1, prevalue) = object_get_state o key in
      (set_state o1 key value, append j (storage_change o1.address key prevalue))

  unfoldable pub object_set_pdx_state :
      StateObject Trie → Journal Trie → Bytes → Bytes → StateObject Trie × Journal Trie
  object_set_pdx_state o j key value =
      let (o1, prevalue) = object_get_pdx_state o key in
      (set_pdx_state o1 key value, append j (pdx_storage_change o1.address key prevalue))
