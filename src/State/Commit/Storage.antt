-- ===== src/State/Commit/Storage.antt =====
-- core/state/state_object.go: the slots that updateTrie writes into the storage trie, and GetState on it.
use advance_golang.Base.{
  ◌≡◌, refl, sym, ap, ◌∙◌, false, Bool-cases, inl, inr, Option, none, some, if◌then◌else◌, List, [],
  ◌∷◌, ◌++◌, All, length,
}
use advance_golang.Base.Maps.{Bytes, bytes_eq, bytes_eq_iff, lookup}
use advance_golang.State.Backend.{DbError, Backend}
use advance_golang.State.Commit.{
  encode_slot, update_slot, update_pdx_slot, update_slots, update_trie,
}
use advance_golang.State.Commit.Data.{
  get_trie-SameData, update_slot-SameData, update_slots-SameData,
}
use advance_golang.State.Commit.Slots.{decode_slot-encode_slot}
use advance_golang.State.Object.{StateObject, get_trie, decode_slot, object_get_state}
use advance_golang.Types.{hash_length, zero_hash}

-- A trie is a map: a key reads as what was put under it, as nothing after it was deleted, and as
-- before after a change of another key.
pub record IsMap (B : Backend) : Type 0 where
  pub put :
      (t : B.Trie) (key value : Bytes) → B.try_get (B.try_update t key value).0 key ≡ (value, none)
  pub gone : (t : B.Trie) (key : Bytes) → B.try_get (B.try_delete t key).0 key ≡ ([], none)
  pub put_other :
      (t : B.Trie) (j key value : Bytes)
      → bytes_eq j key ≡ false
      → B.try_get (B.try_update t j value).0 key ≡ B.try_get t key
  pub gone_other :
      (t : B.Trie) (j key : Bytes)
      → bytes_eq j key ≡ false
      → B.try_get (B.try_delete t j).0 key ≡ B.try_get t key

-- Nothing is put for the zero hash.
abbrev slot_bytes : Bytes → Bytes
slot_bytes value = if bytes_eq value zero_hash then [] else encode_slot value

-- The slots of other keys.
abbrev pub Others : Bytes → List (Bytes × Bytes) → Type 0
Others key slots = All (λ (e : Bytes × Bytes). bytes_eq e.0 key ≡ false) slots

module _ (B : Backend) (law : IsMap B) where
  open B use {Trie, try_get}

  get-update_slot :
      (o : StateObject Trie) (t : Trie) (key value : Bytes)
      → try_get (update_slot B o t key value).1 key ≡ (slot_bytes value, none)
  unfolding update_slot
  get-update_slot o t key value = elim (Bool-cases (bytes_eq value zero_hash)) [
    | inl zeros ↦ rw (zeros, update_slot) (law.gone t key)
    | inr other ↦ rw (other, update_slot) (law.put t key (encode_slot value))
  ]

  get-update_slot_other :
      (o : StateObject Trie) (t : Trie) (j key value : Bytes)
      → bytes_eq j key ≡ false
      → try_get (update_slot B o t j value).1 key ≡ try_get t key
  unfolding update_slot
  get-update_slot_other o t j key value apart = elim (Bool-cases (bytes_eq value zero_hash)) [
    | inl zeros ↦ rw (zeros, update_slot) (law.gone_other t j key apart)
    | inr other ↦ rw (other, update_slot) (law.put_other t j key (encode_slot value) apart)
  ]

  get-update_slots_other :
      (slots : List (Bytes × Bytes)) (o : StateObject Trie) (t : Trie) (key : Bytes)
      → Others key slots
      → try_get (update_slots B (update_slot B) slots o t).1 key ≡ try_get t key
  unfolding update_slots
  get-update_slots_other [] o t key h = refl
  get-update_slots_other ((j, v) ∷ slots) o t key h =
      let (p, u) = update_slot B o t j v in
      get-update_slots_other slots p u key h.1 ∙ get-update_slot_other o t j key v h.0

  get-update_slots :
      (before after : List (Bytes × Bytes)) (o : StateObject Trie) (t : Trie) (key value : Bytes)
      → Others key after
      → try_get (update_slots B (update_slot B) (before ++ ((key, value) ∷ after)) o t).1 key
        ≡ (slot_bytes value, none)
  unfolding update_slots
  get-update_slots [] after o t key value h =
      let (p, u) = update_slot B o t key value in
      get-update_slots_other after p u key h ∙ get-update_slot o t key value
  get-update_slots ((j, v) ∷ before) after o t key value h =
      let (p, u) = update_slot B o t j v in get-update_slots before after p u key value h

  -- The trie of updateTrie, where no PDX slot is to be written.
  get-update_trie :
      (o : StateObject Trie) (before after : List (Bytes × Bytes)) (key value : Bytes)
      → o.dirty_storage ≡ before ++ ((key, value) ∷ after)
      → o.pdx_dirty_storage ≡ []
      → Others key after
      → try_get (update_trie B o).1 key ≡ (slot_bytes value, none)
  unfolding update_trie update_slots
  get-update_trie o before after key value dirty clean h =
      let (o1, t1) = get_trie B o in
      let cleared : StateObject Trie = record o1 { dirty_storage = [] } in
      let kept = get_trie-SameData B o in
      let (o2, t2) = update_slots B (update_slot B) o1.dirty_storage cleared t1 in
      let same =
        update_slots-SameData B (update_slot B) (update_slot-SameData B) o1.dirty_storage cleared
          t1 in
      let no_pdx : o2.pdx_dirty_storage ≡ [] = same.pdx_slots ∙ kept.pdx_slots ∙ clean in
      let read = λ (pdx : List (Bytes × Bytes)).
        try_get (update_slots B (update_pdx_slot B) pdx (record o2 { pdx_dirty_storage = [] }) t2).1
          key in
      ap read no_pdx
      ∙ ap
          (λ (slots : List (Bytes × Bytes)).
            try_get (update_slots B (update_slot B) slots cleared t1).1 key)
          (kept.slots ∙ dirty)
      ∙ get-update_slots before after cleared t1 key value h

  decode_slot-slot_bytes :
      (o : StateObject Trie) (value : Bytes)
      → length value ≡ hash_length
      → (decode_slot B o (slot_bytes value)).1 ≡ value
  unfolding decode_slot
  decode_slot-slot_bytes o value full = elim (Bool-cases (bytes_eq value zero_hash)) [
    | inl zeros ↦ rw zeros (sym ((bytes_eq_iff value zero_hash).0 zeros))
    | inr other ↦
        rw other
          (ap (λ (r : StateObject Trie × Bytes). r.1) (decode_slot-encode_slot B o value full))
  ]

  get_trie-opened : (p : StateObject Trie) (t : Trie) → p.trie ≡ some t → (get_trie B p).1 ≡ t
  unfolding get_trie
  get_trie-opened p t trie = rw (trie, get_trie) refl

  -- GetState, on an object whose storage trie is the one that updateTrie has written and whose cache
  -- does not have the key, returns the value that was last set for the key in the object that was
  -- written, the zero hash included. Given that the trie is a map, that the value is a hash, of 32
  -- bytes, and that the object has no PDX slots to write, which go into the same trie.
  pub object_get_state-update_trie :
      (o p : StateObject Trie) (before after : List (Bytes × Bytes)) (key value : Bytes)
      → o.dirty_storage ≡ before ++ ((key, value) ∷ after)
      → Others key after
      → o.pdx_dirty_storage ≡ []
      → length value ≡ hash_length
      → p.trie ≡ some (update_trie B o).1
      → lookup key p.cached_storage ≡ none
      → (object_get_state B p key).1 ≡ value
  unfolding object_get_state
  object_get_state-update_trie o p before after key value dirty h clean full trie fresh =
      let here = get-update_trie o before after key value dirty clean h in
      let opened : try_get (get_trie B p).1 key ≡ (slot_bytes value, none) =
        ap (λ (t : Trie). try_get t key) (get_trie-opened p (update_trie B o).1 trie) ∙ here in
      let o1 = (get_trie B p).0 in
      rw (fresh, object_get_state)
        (rw (ap (λ (r : Bytes × Option DbError). r.1) opened) (
          ap (λ (r : Bytes × Option DbError). (decode_slot B o1 r.0).1) opened
          ∙ decode_slot-slot_bytes o1 value full))
