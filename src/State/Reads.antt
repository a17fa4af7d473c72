-- ===== src/State/Reads.antt =====
-- The methods of stateObject that read, against the view of the object: what they return, and that
-- filling a cache changes no view.
use advance_golang.Base.{◌≡◌, refl, sym, ap, ◌∙◌, Option, none, some, arith}
use advance_golang.Base.{List, Option-cases, inl, inr}
use advance_golang.Base.Maps.{Bytes, bytes_eq_iff, lookup, insert, lookup-insert}
use advance_golang.State.Backend.{Backend, DbError}
use advance_golang.State.Object.{
  StateObject, object_set_error, get_trie, decode_slot, object_get_state, object_get_pdx_state,
  object_code,
}
use advance_golang.State.View.{
  View, code_value, trie_value, slot_value, storage_value, pdx_value, view_of,
}
use mathlib.Core.Path.{fun_ext}

module _ (B : Backend) where
  open B use {Trie, try_get, open_storage_trie, contract_code}

  -- Views agree on two objects that differ in their caches only.
  abbrev pub SameView : StateObject Trie → StateObject Trie → Type 0
  SameView o p = (view_of B o ≡ view_of B p) × (o.deleted ≡ p.deleted)

  object_set_error-SameView :
      (o : StateObject Trie) (e : Option DbError) → SameView (object_set_error o e) o
  unfolding object_set_error
  object_set_error-SameView o e = elim (Option-cases o.db_err) [
    | inl h ↦ (rw (h, object_set_error), rw (h, object_set_error))
    | inr (x, h) ↦ (rw (h, object_set_error), rw (h, object_set_error))
  ]

  pub get_trie-value :
      (o : StateObject Trie) → (get_trie B o).1 ≡ trie_value B o.addr_hash o.account.root o.trie
  unfolding get_trie trie_value
  get_trie-value o = ground arith

  pub get_trie-SameView : (o : StateObject Trie) → SameView (get_trie B o).0 o
  unfolding get_trie trie_value object_set_error
  get_trie-SameView o = ground arith

  pub object_code-value :
      (o : StateObject Trie)
      → (object_code B o).1 ≡ code_value B o.addr_hash o.account.code_hash o.code
  unfolding object_code code_value
  object_code-value o = ground arith

  pub object_code-SameView : (o : StateObject Trie) → SameView (object_code B o).0 o
  unfolding object_code code_value object_set_error
  object_code-SameView o = ground arith

  pub object_get_state-value :
      (o : StateObject Trie) (key : Bytes)
      → (object_get_state B o key).1
        ≡ storage_value B o.cached_storage (trie_value B o.addr_hash o.account.root o.trie) key
  unfolding object_get_state storage_value slot_value decode_slot
  object_get_state-value o key = ground (arith, get_trie-value o)

  pub object_get_pdx_state-value :
      (o : StateObject Trie) (key : Bytes)
      → (object_get_pdx_state B o key).1
        ≡ pdx_value B o.pdx_cached_storage (trie_value B o.addr_hash o.account.root o.trie) key
  unfolding object_get_pdx_state pdx_value
  object_get_pdx_state-value o key = ground (arith, get_trie-value o)

  -- Caching the value that a slot has anyway.
  storage_value-cached :
      (cached : List (Bytes × Bytes)) (t : Trie) (key value : Bytes)
      → value ≡ storage_value B cached t key
      → storage_value B (insert key value cached) t ≡ storage_value B cached t
  unfolding storage_value
  storage_value-cached cached t key value h =
      fun_ext (λ j. ground (arith, lookup-insert key j value cached, bytes_eq_iff key j))

  -- The view of an object with its cache filled.
  cache-SameView :
      (o : StateObject Trie) (key value : Bytes)
      → value
        ≡ storage_value B o.cached_storage (trie_value B o.addr_hash o.account.root o.trie) key
      → SameView (record o { cached_storage = insert key value o.cached_storage }) o
  cache-SameView o key value h = (
    ap (λ (f : Bytes → Bytes). record (view_of B o) { storage = f })
        (storage_value-cached o.cached_storage _ key value h),
    refl,
  )

  decode_slot-SameView :
      (o : StateObject Trie) (enc : Bytes)
      → SameView (decode_slot B o enc).0 o
        × ((decode_slot B o enc).0.cached_storage ≡ o.cached_storage)
  unfolding decode_slot object_set_error
  decode_slot-SameView o enc = ground arith

  SameView-trans : (o p q : StateObject Trie) → SameView o p → SameView p q → SameView o q
  SameView-trans o p q h k = (h.0 ∙ k.0, h.1 ∙ k.1)

  -- A slot read from the trie, and cached.
  fetched-SameView :
      (o : StateObject Trie) (key : Bytes)
      → lookup key o.cached_storage ≡ none
      → (try_get (get_trie B o).1 key).1 ≡ none
      → (let (o2, value) = decode_slot B (get_trie B o).0 (try_get (get_trie B o).1 key).0 in
          SameView (record o2 { cached_storage = insert key value o2.cached_storage }) o)
  unfolding object_get_state
  fetched-SameView o key miss found =
      let slot = decode_slot B (get_trie B o).0 (try_get (get_trie B o).1 key).0 in
      let same : SameView slot.0 o =
        SameView-trans slot.0 (get_trie B o).0 o
          (decode_slot-SameView (get_trie B o).0 (try_get (get_trie B o).1 key).0).0
          (get_trie-SameView o) in
      let value : slot.1 ≡ (view_of B o).storage key =
        rw found at (rw (miss, object_get_state) at (object_get_state-value o key)) in
      let cached = record (slot.0) { cached_storage = insert key slot.1 slot.0.cached_storage } in
      SameView-trans cached slot.0 o
        (cache-SameView slot.0 key slot.1 (value ∙ sym (ap (λ (v : View). v.storage key) same.0)))
        same

  pub object_get_state-SameView :
      (o : StateObject Trie) (key : Bytes) → SameView (object_get_state B o key).0 o
  unfolding object_get_state
  object_get_state-SameView o key = elim (Option-cases (lookup key o.cached_storage)) [
    | inr (v, hit) ↦ rw (hit, object_get_state) (refl, refl)
    | inl miss ↦ elim (Option-cases (try_get (get_trie B o).1 key).1) [
      | inr (x, failed) ↦
          rw (miss, object_get_state)
            (rw failed (
              SameView-trans (object_set_error (get_trie B o).0 (some x)) (get_trie B o).0 o
                (object_set_error-SameView (get_trie B o).0 (some x)) (get_trie-SameView o)))
      | inl found ↦ rw (miss, object_get_state) (rw found (fetched-SameView o key miss found))
    ]
  ]

  pub object_get_pdx_state-SameView :
      (o : StateObject Trie) (key : Bytes) → SameView (object_get_pdx_state B o key).0 o
  unfolding object_get_pdx_state object_set_error
  object_get_pdx_state-SameView o key = ground (arith, get_trie-SameView o)
