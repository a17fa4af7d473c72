-- ===== src/State/Commit/Data.antt =====
-- core/state/state_object.go: what getTrie and updateTrie leave of an object as it is.
use advance_golang.Base.{
  ◌≡◌, refl, ◌∙◌, ap, Bool-cases, Option-cases, inl, inr, Option, length, ◌==◌, List, [], ◌∷◌,
  arith,
}
use advance_golang.Base.Maps.{Bytes, bytes_eq}
use advance_golang.State.Backend.{DbError, Account, Backend}
use advance_golang.State.Commit.{
  update_slot, update_pdx_slot, update_slots, update_trie, update_root,
}
use advance_golang.State.Object.{StateObject, object_set_error, get_trie}
use advance_golang.Types.{zero_hash}

-- The same account and slots that are to be written.
pub record SameData {Trie : Type 0} (o p : StateObject Trie) : Type 0 where
  pub account : p.account ≡ o.account
  pub slots : p.dirty_storage ≡ o.dirty_storage
  pub pdx_slots : p.pdx_dirty_storage ≡ o.pdx_dirty_storage

abbrev SameData-refl : {Trie : Type 0} (o : StateObject Trie) → SameData o o
SameData-refl o = record { account = refl; slots = refl; pdx_slots = refl }

SameData-trans :
    {Trie : Type 0} (o p q : StateObject Trie) → SameData o p → SameData p q → SameData o q
SameData-trans o p q h k = record {
  account = k.account ∙ h.account;
  slots = k.slots ∙ h.slots;
  pdx_slots = k.pdx_slots ∙ h.pdx_slots;
}

object_set_error-SameData :
    {Trie : Type 0} (o : StateObject Trie) (e : Option DbError) → SameData o (object_set_error o e)
unfolding object_set_error
object_set_error-SameData o e = elim (Option-cases o.db_err) [
  | inl free ↦
      rw (free, object_set_error) (record { account = refl; slots = refl; pdx_slots = refl })
  | inr (x, taken) ↦
      rw (taken, object_set_error) (record { account = refl; slots = refl; pdx_slots = refl })
]

module _ (B : Backend) where
  open B use {Trie, try_update, try_delete, open_storage_trie}

  pub get_trie-SameData : (o : StateObject Trie) → SameData o (get_trie B o).0
  unfolding get_trie object_set_error
  get_trie-SameData o = record {
    account = ground arith;
    slots = ground arith;
    pdx_slots = ground arith;
  }

  pub update_slot-SameData :
      (o : StateObject Trie) (t : Trie) (key value : Bytes)
      → SameData o (update_slot B o t key value).0
  unfolding update_slot
  update_slot-SameData o t key value = elim (Bool-cases (bytes_eq value zero_hash)) [
    | inl zeros ↦ rw (zeros, update_slot) (object_set_error-SameData o _)
    | inr other ↦ rw (other, update_slot) (object_set_error-SameData o _)
  ]

  update_pdx_slot-SameData :
      (o : StateObject Trie) (t : Trie) (key value : Bytes)
      → SameData o (update_pdx_slot B o t key value).0
  unfolding update_pdx_slot
  update_pdx_slot-SameData o t key value = elim (Bool-cases (length value == 0)) [
    | inl empty ↦ rw (empty, update_pdx_slot) (object_set_error-SameData o _)
    | inr full ↦ rw (full, update_pdx_slot) (object_set_error-SameData o _)
  ]

  pub update_slots-SameData :
      (write : StateObject Trie → Trie → Bytes → Bytes → StateObject Trie × Trie)
      → ((o : StateObject Trie) (t : Trie) (key value : Bytes) → SameData o (write o t key value).0)
      → (slots : List (Bytes × Bytes)) (o : StateObject Trie) (t : Trie)
      → SameData o (update_slots B write slots o t).0
  unfolding update_slots
  update_slots-SameData write same [] o t = SameData-refl o
  update_slots-SameData write same ((key, value) ∷ slots) o t =
      let (p, u) = write o t key value in
      SameData-trans o p _ (same o t key value) (update_slots-SameData write same slots p u)

  -- updateRoot sets the storage root of the account alone.
  pub balance-update_root :
      (o : StateObject Trie) → (update_root B o).account.balance ≡ o.account.balance
  unfolding update_root update_trie
  balance-update_root o =
      let (o1, t1) = get_trie B o in
      let (o2, t2) =
        update_slots B (update_slot B) o1.dirty_storage (record o1 { dirty_storage = [] }) t1 in
      let first =
        update_slots-SameData (update_slot B) update_slot-SameData o1.dirty_storage
          (record o1 { dirty_storage = [] }) t1 in
      let second =
        update_slots-SameData (update_pdx_slot B) update_pdx_slot-SameData o2.pdx_dirty_storage
          (record o2 { pdx_dirty_storage = [] }) t2 in
      ap (λ (a : Account). a.balance)
        (second.account ∙ first.account ∙ (get_trie-SameData o).account)
