-- ===== src/State/Multi/Stored.antt =====
-- What GetPDXState of MStateDB reads after SetPDXState.
use advance_golang.Base.{
  ◌≡◌, refl, ap, ◌∙◌, false, none, some, inl, inr, Option-cases, if◌then◌else◌, arith,
}
use advance_golang.Base.Maps.{Bytes, lookup, lookup-insert_self}
use advance_golang.State.Backend.{Backend}
use advance_golang.State.Multi.{
  MStateDb, multi_get_state_object, multi_create_object, multi_get_or_new_state_object,
}
use advance_golang.State.Multi.Methods.{
  multi_with_getter, multi_get_pdx_state, multi_with_object, multi_set_pdx_state,
}
use advance_golang.State.Object.{
  StateObject, set_nonce, new_object, set_pdx_state, object_get_pdx_state, object_set_pdx_state,
}
use advance_golang.State.Reads.{object_get_pdx_state-SameView}

module _ (B : Backend) where
  open B use {Trie}

  create_object-alive :
      (s : MStateDb Trie) (addr : Bytes) → (multi_create_object B s addr).1.deleted ≡ false
  unfolding multi_create_object set_nonce new_object
  create_object-alive s addr = refl

  chosen-alive :
      (made s1 : MStateDb Trie) (p o : StateObject Trie)
      → p.deleted ≡ false
      → (if◌then◌else◌ {A = MStateDb Trie × StateObject Trie} o.deleted (made, p) (s1, o)).1.deleted
        ≡ false
  chosen-alive made s1 p o h = ground arith

  -- GetOrNewStateObject returns no deleted object.
  get_or_new-alive :
      (s : MStateDb Trie) (addr : Bytes)
      → (multi_get_or_new_state_object B s addr).1.deleted ≡ false
  unfolding multi_get_or_new_state_object
  get_or_new-alive s addr =
      let (s1, found) = multi_get_state_object B s addr in
      let fresh = create_object-alive s1 addr in
      elim (Option-cases found) [
        | inl h ↦ rw (h, multi_get_or_new_state_object) fresh
        | inr (o, h) ↦ rw (h, multi_get_or_new_state_object) (chosen-alive _ s1 _ o fresh)
      ]

  -- The object that is left at the address by SetPDXState.
  stored_object : MStateDb Trie → Bytes → Bytes → Bytes → StateObject Trie
  stored_object s addr key value =
      let o = (multi_get_or_new_state_object B s addr).1 in
      set_pdx_state (object_get_pdx_state B o key).0 key value

  stored_object-alive :
      (s : MStateDb Trie) (addr key value : Bytes)
      → (stored_object s addr key value).deleted ≡ false
  unfolding stored_object set_pdx_state
  stored_object-alive s addr key value =
      (object_get_pdx_state-SameView B (multi_get_or_new_state_object B s addr).1 key).1
      ∙ get_or_new-alive s addr

  lookup-multi_set_pdx_state :
      (s : MStateDb Trie) (addr key value : Bytes)
      → lookup addr (multi_set_pdx_state B s addr key value).stdb.state_objects
        ≡ some (stored_object s addr key value)
  unfolding multi_set_pdx_state multi_with_object object_set_pdx_state stored_object
  lookup-multi_set_pdx_state s addr key value =
      lookup-insert_self addr _ (multi_get_or_new_state_object B s addr).0.stdb.state_objects

  cached_value :
      (s : MStateDb Trie) (addr key value : Bytes)
      → (object_get_pdx_state B (stored_object s addr key value) key).1 ≡ value
  unfolding object_get_pdx_state stored_object set_pdx_state
  cached_value s addr key value =
      let o = (multi_get_or_new_state_object B s addr).1 in
      rw
        (
          lookup-insert_self key value (object_get_pdx_state B o key).0.pdx_cached_storage,
          object_get_pdx_state,
        )
        refl

  found-multi_set_pdx_state :
      (s : MStateDb Trie) (addr key value : Bytes)
      → multi_get_state_object B (multi_set_pdx_state B s addr key value) addr
        ≡ (multi_set_pdx_state B s addr key value, some (stored_object s addr key value))
  unfolding multi_get_state_object
  found-multi_set_pdx_state s addr key value =
      let t = multi_set_pdx_state B s addr key value in
      let o = stored_object s addr key value in
      rw (lookup-multi_set_pdx_state s addr key value, multi_get_state_object)
        (ap (λ b. (t, if b then none else some o)) (stored_object-alive s addr key value))

  -- GetPDXState reads the value that SetPDXState has stored under the key, on any account.
  pub multi_get_pdx_state-multi_set_pdx_state :
      (s : MStateDb Trie) (addr key value : Bytes)
      → (multi_get_pdx_state B (multi_set_pdx_state B s addr key value) addr key).1 ≡ value
  unfolding multi_get_pdx_state multi_with_getter
  multi_get_pdx_state-multi_set_pdx_state s addr key value =
      rw (found-multi_set_pdx_state s addr key value, multi_get_pdx_state, multi_with_getter)
        (cached_value s addr key value)
