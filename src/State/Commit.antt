-- ===== src/State/Commit.antt =====
-- core/state/state_object.go: updateTrie, updateRoot, CommitTrie and deepCopy; and
-- core/state/statedb.go: updateStateObject, deleteStateObject, Finalise, IntermediateRoot, Copy and
-- SetDirties. Go ranges over a map in no fixed order: here it is the order of the entries. Tries are
-- values, so CopyTrie is left out.
pub mod Data
pub mod Slots
pub mod Storage
pub mod Cleared
pub mod Missing
mod Runs
use advance_golang.Base.{ℕ, ◌==◌, Bool, true, false, ◌&&◌, ◌||◌, Option, none, some}
use advance_golang.Base.{if◌then◌else◌, List, [], ◌∷◌, length, map}
use advance_golang.Base.Int.{ℤ}
use advance_golang.Base.Maps.{Bytes, bytes_eq, lookup, insert}
use advance_golang.Rlp.Encode.{text, encode_to_bytes}
use advance_golang.Rlp.Result.{ok, err}
use advance_golang.State.Backend.{DbError, RawAccount, Backend}
use advance_golang.State.Db.{
  StateDb, new_state, set_error, set_state_object, write_back, get_state_object,
}
use advance_golang.State.Object.{
  StateObject, Journal, new_journal, object_set_error, is_empty, new_object, get_trie,
}
use advance_golang.State.Revert.{◌>>=◌}
use advance_golang.Types.{zero_hash}

-- `bytes.TrimLeft(b, "\x00")`
unfoldable pub trim_left : Bytes → Bytes
trim_left [] = []
trim_left (b ∷ bs) = let rest = trim_left bs in if b == 0 then rest else b ∷ bs

-- `v, _ := rlp.EncodeToBytes(bytes.TrimLeft(value[:], "\x00"))`
unfoldable pub encode_slot : Bytes → Bytes
encode_slot value = elim (encode_to_bytes (text (trim_left value))) [ ok b ↦ b | err e ↦ [] ]

unfoldable pub clear_journal_and_refund : {Trie : Type 0} → StateDb Trie → StateDb Trie
clear_journal_and_refund s = record s { journal = new_journal; valid_revisions = []; refund = 0 }

unfoldable pub set_dirties : {Trie : Type 0} → StateDb Trie → List (Bytes × ℤ) → StateDb Trie
set_dirties s dirties = let j = s.journal in record s { journal = record j { dirties = dirties } }

module _ (B : Backend) where
  open B use {Trie, try_update, try_delete, hash_of, encode_account}

  -- A write to the storage trie, with its error.
  unfoldable pub update_slot : StateObject Trie → Trie → Bytes → Bytes → StateObject Trie × Trie
  update_slot o t key value =
      let (deleted, e) = try_delete t key in
      let (updated, e') = try_update t key (encode_slot value) in
      if bytes_eq value zero_hash
      then (object_set_error o e, deleted)
      else (object_set_error o e', updated)

  unfoldable pub update_pdx_slot : StateObject Trie → Trie → Bytes → Bytes → StateObject Trie × Trie
  update_pdx_slot o t key value =
      let (deleted, e) = try_delete t key in
      let (updated, e') = try_update t key value in
      if length value == 0
      then (object_set_error o e, deleted)
      else (object_set_error o e', updated)

  -- The two loops of `updateTrie`, over the entries that are left.
  unfoldable pub update_slots :
      (StateObject Trie → Trie → Bytes → Bytes → StateObject Trie × Trie)
      → List (Bytes × Bytes)
      → StateObject Trie
      → Trie
      → StateObject Trie × Trie
  update_slots write [] o t = (o, t)
  update_slots write ((key, value) ∷ slots) o t =
      let (o', t') = write o t key value in update_slots write slots o' t'

  -- The trie is changed in place, so the object holds the changed one.
  unfoldable pub update_trie : StateObject Trie → StateObject Trie × Trie
  update_trie o =
      let (o1, t1) = get_trie B o in
      let (o2, t2) =
        update_slots update_slot o1.dirty_storage (record o1 { dirty_storage = [] }) t1 in
      let (o3, t3) =
        update_slots update_pdx_slot o2.pdx_dirty_storage (record o2 { pdx_dirty_storage = [] })
          t2 in
      (record o3 { trie = some t3 }, t3)

  unfoldable pub update_root : StateObject Trie → StateObject Trie
  update_root o =
      let (o', t) = update_trie o in
      let a = o'.account in record o' { account = record a { root = hash_of t } }

  unfoldable pub commit_trie : StateObject Trie → StateObject Trie × Option DbError
  commit_trie o = let (o', t) = update_trie o in (o', o'.db_err)

  -- An account that cannot be encoded is a panic.
  unfoldable pub update_state_object : StateDb Trie → StateObject Trie → Option (StateDb Trie)
  update_state_object s o = elim (encode_account o.account) [
    | none ↦ none
    | some enc ↦
        let (t, e) = try_update s.trie o.address enc in some (set_error (record s { trie = t }) e)
  ]

  unfoldable pub delete_state_object : StateDb Trie → Bytes → StateObject Trie → StateDb Trie
  delete_state_object s addr o =
      let s1 = write_back s addr (record o { deleted = true }) in
      let (t, e) = try_delete s1.trie o.address in set_error (record s1 { trie = t }) e

  -- The object of a dirty address: live, deleted or not, or else loaded.
  unfoldable pub dirty_object : StateDb Trie → Bytes → StateDb Trie × Option (StateObject Trie)
  dirty_object s addr = elim (lookup addr s.state_objects) [
    | some o ↦ (s, some o)
    | none ↦ get_state_object B s addr
  ]

  unfoldable pub finalise_object :
      Bool → StateDb Trie → Bytes → StateObject Trie → Option (StateDb Trie)
  finalise_object delete_empty s addr o =
      let o' = update_root o in
      if o.suicided || (delete_empty && is_empty B o)
      then some (delete_state_object s addr o)
      else update_state_object (write_back s addr o') o'

  -- The loop of `Finalise`. A nil object is a nil pointer dereference.
  unfoldable pub finalise_loop : Bool → List Bytes → StateDb Trie → Option (StateDb Trie)
  finalise_loop delete_empty [] s = some s
  finalise_loop delete_empty (addr ∷ addrs) s =
      let (s1, found) = dirty_object s addr in
      elim found [
        | none ↦ none
        | some o ↦ do
          s2 ← finalise_object delete_empty s1 addr o
          finalise_loop delete_empty addrs
              (record s2 { state_objects_dirty = insert addr tt s2.state_objects_dirty })
      ]

  unfoldable pub finalise : Bool → StateDb Trie → Option (StateDb Trie)
  finalise delete_empty s = do
    s1 ← finalise_loop delete_empty (map (λ (e : Bytes × ℤ). e.0) s.journal.dirties) s
    some (clear_journal_and_refund s1)

  unfoldable pub intermediate_root : Bool → StateDb Trie → Option (StateDb Trie × Bytes)
  intermediate_root delete_empty s = do s1 ← finalise delete_empty s; some (s1, hash_of s1.trie)

  -- The cached slots of the copy are the dirty ones.
  unfoldable pub deep_copy : StateObject Trie → StateObject Trie
  deep_copy o =
      let raw : RawAccount = record {
        nonce = o.account.nonce;
        balance = some o.account.balance;
        root = o.account.root;
        code_hash = some o.account.code_hash;
      } in
      let fresh = new_object B o.address raw in
      record fresh {
        trie = o.trie;
        code = o.code;
        dirty_storage = o.dirty_storage;
        cached_storage = o.dirty_storage;
        pdx_dirty_storage = o.pdx_dirty_storage;
        pdx_cached_storage = o.pdx_dirty_storage;
        suicided = o.suicided;
        dirty_code = o.dirty_code;
        deleted = o.deleted;
      }

  copied : StateDb Trie → Bytes → StateObject Trie → StateDb Trie
  copied c addr o = record c {
    state_objects = insert addr (deep_copy o) c.state_objects;
    state_objects_dirty = insert addr tt c.state_objects_dirty;
  }

  -- The first loop of `Copy`, over the addresses that the journal marks.
  unfoldable pub copy_journal : StateDb Trie → List Bytes → StateDb Trie → StateDb Trie
  unfolding copied
  copy_journal s [] c = c
  copy_journal s (addr ∷ addrs) c =
      copy_journal s addrs
        (elim (lookup addr s.state_objects) [ none ↦ c | some o ↦ copied c addr o ])

  -- The second loop, over the addresses that Finalise marked: a missing object is a panic.
  unfoldable pub copy_dirty : StateDb Trie → List Bytes → StateDb Trie → Option (StateDb Trie)
  unfolding copied
  copy_dirty s [] c = some c
  copy_dirty s (addr ∷ addrs) c =
      let rest = copy_dirty s addrs c in
      elim (lookup addr c.state_objects) [
        | some _ ↦ rest
        | none ↦ elim (lookup addr s.state_objects) [
          | none ↦ none
          | some o ↦ copy_dirty s addrs (copied c addr o)
        ]
      ]

  unfoldable pub copy : StateDb Trie → Option (StateDb Trie)
  copy s =
      let start : StateDb Trie = record (new_state s.trie) {
        refund = s.refund;
        log_size = s.log_size;
      } in
      do
        c ←
            copy_dirty s (map (λ (e : Bytes × Unit {0}). e.0) s.state_objects_dirty)
              (copy_journal s (map (λ (e : Bytes × ℤ). e.0) s.journal.dirties) start)
        some (record c { preimages = s.preimages })
