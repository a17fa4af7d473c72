-- ===== src/State/Multi.antt =====
-- core/state/multi_statedb.go: the maps of objects of MStateDB, getStateObject, createObject and
-- GetOrNewStateObject. A MStateDB keeps its objects in the StateDB of the goroutine and in a map
-- that all goroutines share. The locks of accounts are in State/Locks: a method here runs once
-- requestAndLock has returned. The methods are in the child modules.
pub mod Methods
pub mod Pulled
pub mod Publish
pub mod Refine
pub mod Rollback
pub mod Settle
pub mod Total
pub mod Stored
mod Runs
use advance_golang.Base.{Option, none, some, if◌then◌else◌, List, [], length, ◌==◌}
use advance_golang.Base.Maps.{Bytes, lookup, insert}
use advance_golang.State.Backend.{Backend}
use advance_golang.State.Db.{StateDb, new_state, set_error, set_state_object, empty_account}
use advance_golang.State.Object.{
  StateObject, JournalEntry, create_object_change, reset_object_change, append, set_nonce,
  new_object,
}

-- A pointer in the map of the context: `own` is the pointer that the StateDB of this goroutine has
-- at the same address, so that a change through the one is seen through the other; `other` is any
-- other object.
pub data Pointer (Trie : Type 0) : Type 0 where
  own : Pointer Trie
  other : (object : StateObject Trie) → Pointer Trie

-- `objects` is `ctx.stateObjects`.
pub record MStateDb (Trie : Type 0) : Type 0 where
  pub stdb : StateDb Trie
  pub objects : List (Bytes × Pointer Trie)

module _ {Trie : Type 0} where
  -- One of the values that NewMStateDB makes, which share the trie and the map.
  abbrev pub new_member : Trie → MStateDb Trie
  new_member t = record { stdb = new_state t; objects = [] }

  -- `deleted` objects are not returned.
  abbrev pub live : StateObject Trie → Option (StateObject Trie)
  live o = if o.deleted then none else some o

  -- The object behind a pointer of the context's map.
  abbrev pub follow : MStateDb Trie → Bytes → Option (Pointer Trie) → Option (StateObject Trie)
  follow s addr none = none
  follow s addr (some own) = lookup addr s.stdb.state_objects
  follow s addr (some (other o)) = some o

  -- `self.ctx.stateObjects[addr]`
  unfoldable pub context_object : MStateDb Trie → Bytes → Option (StateObject Trie)
  context_object s addr = follow s addr (lookup addr s.objects)

  -- `self.stdb.stateObjects[addr] = obj`, of an object of the context.
  abbrev pub adopt : MStateDb Trie → Bytes → StateObject Trie → MStateDb Trie
  adopt s addr o =
      let d = s.stdb in
      record {
        stdb = record d { state_objects = insert addr o d.state_objects };
        objects = insert addr own s.objects;
      }

  -- `self.setStateObject(o)` and `self.stdb.setStateObject(o)`
  abbrev pub share : MStateDb Trie → StateObject Trie → MStateDb Trie
  share s o = record { stdb = set_state_object s.stdb o; objects = insert o.address own s.objects }

module _ (B : Backend) where
  open B use {Trie, try_get, decode_account}

  -- An object that is in neither map, out of its encoding in the trie.
  unfoldable pub decode_shared :
      MStateDb Trie → Bytes → Bytes → MStateDb Trie × Option (StateObject Trie)
  decode_shared s addr enc = elim (decode_account enc) [
    | none ↦ (s, none)
    | some raw ↦ let o = new_object B addr raw in (share s o, some o)
  ]

  unfoldable pub load_shared : MStateDb Trie → Bytes → MStateDb Trie × Option (StateObject Trie)
  load_shared s addr =
      let (enc, e) = try_get s.stdb.trie addr in
      if length enc == 0
      then (record s { stdb = set_error s.stdb e }, none)
      else decode_shared s addr enc

  unfoldable pub shared_object : MStateDb Trie → Bytes → MStateDb Trie × Option (StateObject Trie)
  shared_object s addr = elim (context_object s addr) [
    | none ↦ load_shared s addr
    | some o ↦ (adopt s addr o, live o)
  ]

  unfoldable pub multi_get_state_object :
      MStateDb Trie → Bytes → MStateDb Trie × Option (StateObject Trie)
  multi_get_state_object s addr = elim (lookup addr s.stdb.state_objects) [
    | none ↦ shared_object s addr
    | some o ↦ (s, live o)
  ]

  unfoldable pub multi_create_object :
      MStateDb Trie → Bytes → MStateDb Trie × StateObject Trie × Option (StateObject Trie)
  multi_create_object s addr =
      let (s1, prev) = multi_get_state_object s addr in
      let newobj = set_nonce (new_object B addr empty_account) 0 in
      let entry : JournalEntry Trie = elim prev [
        | none ↦ create_object_change addr
        | some o ↦ reset_object_change o
      ] in
      let d = s1.stdb in
      let s2 : MStateDb Trie = record s1 { stdb = record d { journal = append d.journal entry } } in
      (share s2 newobj, newobj, prev)

  unfoldable pub multi_get_or_new_state_object :
      MStateDb Trie → Bytes → MStateDb Trie × StateObject Trie
  multi_get_or_new_state_object s addr =
      let (s1, found) = multi_get_state_object s addr in
      let (s2, newobj, _) = multi_create_object s1 addr in
      elim found [ none ↦ (s2, newobj) | some o ↦ if o.deleted then (s2, newobj) else (s1, o) ]
