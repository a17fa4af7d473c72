-- ===== src/State/Multi/Publish.antt =====
-- How goroutines see each other's changes: through the map of the context.
use mathlib.Core.Path.{subst}
use advance_golang.Base.{◌≡◌, refl, ap, ◌∙◌, false, inl, inr, Option, none, some}
use advance_golang.Base.{Bool-cases, Option-cases, length, ◌==◌, if◌then◌else◌, arith}
use advance_golang.Base.Int.{ℤ}
use advance_golang.Base.Maps.{Bytes, lookup, lookup-insert_self}
use advance_golang.State.Backend.{Backend}
use advance_golang.State.Multi.{
  MStateDb, own, live, context_object, decode_shared, load_shared, shared_object,
  multi_get_state_object, multi_create_object, multi_get_or_new_state_object,
}
use advance_golang.State.Multi.Methods.{
  multi_get_balance, multi_set_balance, multi_with_object, multi_read,
}
use advance_golang.State.Object.{
  StateObject, set_nonce, set_balance, new_object, object_set_balance,
}

module _ (B : Backend) where
  open B use {Trie, try_get, decode_account}

  -- The object that was found is live, and the context has the pointer of the StateDB.
  record IsShared (addr : Bytes) (s : MStateDb Trie) (o : StateObject Trie) : Type 0 where
    linked : lookup addr s.objects ≡ some own
    alive : o.deleted ≡ false

  create_object-IsShared :
      (s : MStateDb Trie) (addr : Bytes)
      → IsShared addr (multi_create_object B s addr).0 (multi_create_object B s addr).1
  unfolding multi_create_object set_nonce new_object
  create_object-IsShared s addr = record {
    linked = lookup-insert_self addr own (multi_get_state_object B s addr).0.objects;
    alive = refl;
  }

  live-alive : (o p : StateObject Trie) → live o ≡ some p → (o ≡ p) × (o.deleted ≡ false)
  live-alive o p e = elim (Bool-cases o.deleted) [
    | inl dead ↦ ground arith
    | inr alive ↦ ground arith
  ]

  -- Whatever object was found is shared.
  record Found (addr : Bytes) (r : MStateDb Trie × Option (StateObject Trie)) : Type 0 where
    shared : (o : StateObject Trie) → r.1 ≡ some o → IsShared addr r.0 o

  none-Found : (s : MStateDb Trie) (addr : Bytes) → Found addr (s, none)
  none-Found s addr = record { shared = λ o e. ground arith }

  live-Found :
      (s : MStateDb Trie) (addr : Bytes) (o : StateObject Trie)
      → lookup addr s.objects ≡ some own
      → Found addr (s, live o)
  live-Found s addr o h = record {
    shared = λ p e.
        let (same, alive) = live-alive o p e in
        subst (IsShared addr s) same (record { linked = h; alive = alive });
  }

  decode_shared-Found :
      (s : MStateDb Trie) (addr enc : Bytes) → Found addr (decode_shared B s addr enc)
  unfolding decode_shared new_object
  decode_shared-Found s addr enc = elim (Option-cases (decode_account enc)) [
    | inl h ↦ rw (h, decode_shared) (none-Found s addr)
    | inr (raw, h) ↦
        rw (h, decode_shared)
          (live-Found _ addr (new_object B addr raw) (lookup-insert_self addr own s.objects))
  ]

  load_shared-Found : (s : MStateDb Trie) (addr : Bytes) → Found addr (load_shared B s addr)
  unfolding load_shared
  load_shared-Found s addr = elim (Bool-cases (length (try_get s.stdb.trie addr).0 == 0)) [
    | inl h ↦ rw (h, load_shared) (none-Found _ addr)
    | inr h ↦ rw (h, load_shared) (decode_shared-Found s addr (try_get s.stdb.trie addr).0)
  ]

  get_state_object-Found :
      (s : MStateDb Trie) (addr : Bytes)
      → lookup addr s.stdb.state_objects ≡ none
      → Found addr (multi_get_state_object B s addr)
  unfolding multi_get_state_object shared_object
  get_state_object-Found s addr h =
      rw (h, multi_get_state_object)
        (elim (Option-cases (context_object s addr)) [
          | inl h' ↦ rw (h', shared_object) (load_shared-Found s addr)
          | inr (o, h') ↦
              rw (h', shared_object) (live-Found _ addr o (lookup-insert_self addr own s.objects))
        ])

  get_or_new-found :
      (s : MStateDb Trie) (addr : Bytes) (o : StateObject Trie)
      → (multi_get_state_object B s addr).1 ≡ some o
      → o.deleted ≡ false
      → multi_get_or_new_state_object B s addr ≡ ((multi_get_state_object B s addr).0, o)
  unfolding multi_get_or_new_state_object
  get_or_new-found s addr o there alive =
      let s1 = (multi_get_state_object B s addr).0 in
      let made = multi_create_object B s1 addr in
      rw (there, multi_get_or_new_state_object)
        (ap (λ b. if b then (made.0, made.1) else (s1, o)) alive)

  get_or_new-IsShared :
      (s : MStateDb Trie) (addr : Bytes)
      → lookup addr s.stdb.state_objects ≡ none
      → IsShared addr
          (multi_get_or_new_state_object B s addr).0
          (multi_get_or_new_state_object B s addr).1
  unfolding multi_get_or_new_state_object
  get_or_new-IsShared s addr h =
      let s1 = (multi_get_state_object B s addr).0 in
      elim (Option-cases (multi_get_state_object B s addr).1) [
        | inl none_there ↦
            rw (none_there, multi_get_or_new_state_object) (create_object-IsShared s1 addr)
        | inr (o, there) ↦
            let found = (get_state_object-Found s addr h).shared o there in
            rw (get_or_new-found s addr o there found.alive) found
      ]

  -- The object of an address in the map of the context, after a setter.
  context_object-multi_set_balance :
      (s : MStateDb Trie) (addr : Bytes) (v : ℤ)
      → lookup addr s.stdb.state_objects ≡ none
      → context_object (multi_set_balance B s addr v) addr
        ≡ some (set_balance (multi_get_or_new_state_object B s addr).1 v)
  unfolding context_object multi_set_balance multi_with_object object_set_balance
  context_object-multi_set_balance s addr v h =
      rw ((get_or_new-IsShared s addr h).linked)
        (lookup-insert_self addr _ (multi_get_or_new_state_object B s addr).0.stdb.state_objects)

  -- The balance that one goroutine sets on an account is the balance that another one reads, given
  -- that neither has the account in its own StateDB before and that the other reads the pointer of the
  -- context that the first has left.
  pub multi_get_balance-multi_set_balance :
      (s t : MStateDb Trie) (addr : Bytes) (v : ℤ)
      → lookup addr s.stdb.state_objects ≡ none
      → lookup addr t.stdb.state_objects ≡ none
      → context_object t addr ≡ context_object (multi_set_balance B s addr v) addr
      → (multi_get_balance B t addr).1 ≡ v
  unfolding multi_get_balance multi_read multi_get_state_object shared_object set_balance
  multi_get_balance-multi_set_balance s t addr v hs ht reads =
      let seen = reads ∙ context_object-multi_set_balance s addr v hs in
      rw (ht, multi_get_balance, multi_read, multi_get_state_object)
        (rw (seen, shared_object) (rw ((get_or_new-IsShared s addr hs).alive) refl))
