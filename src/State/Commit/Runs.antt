-- ===== src/State/Commit/Runs.antt =====
-- Concrete runs of Finalise, and the theorems at concrete inputs.
use advance_golang.Base.{ℕ, ◌≡◌, refl, true, none, some, List, [], ◌∷◌}
use advance_golang.Base.Int.{pos, ◌+ℤ◌, ◌-ℤ◌}
use advance_golang.Base.Maps.{
  Bytes, bytes_eq, lookup, insert, delete, lookup-insert, lookup-insert_self, lookup-delete,
  bytes_eq_refl,
}
use advance_golang.State.Commit.{
  update_trie, clear_journal_and_refund, finalise_loop, finalise, intermediate_root,
}
use advance_golang.State.Commit.Cleared.{revert_to_snapshot-finalise}
use advance_golang.State.Commit.Missing.{finalise-missing}
use advance_golang.State.Commit.Storage.{IsMap, object_get_state-update_trie}
use advance_golang.State.Db.{
  StateDb, load_object, get_state_object, create_object, get_or_new_state_object, with_object,
  set_state_object, set_error, add_balance, empty_account,
}
use advance_golang.State.Object.{
  StateObject, new_journal, dirtied, dirty, append, ripemd, set_nonce, is_empty, empty_code_hash,
  new_object, touch, object_get_state, object_add_balance, object_set_balance,
}
use advance_golang.State.Revert.{
  undirty, clean, search_loop, sort_search, revert_entry, revert_loop, journal_revert, snapshot,
  revert_to_snapshot,
}
use advance_golang.State.Samples.{in_memory, genesis}
use advance_golang.State.View.{peek, stored_object, observe}
use advance_golang.Types.{set_bytes, bytes_to_hash, length-bytes_to_hash, zero_hash}

-- A snapshot, a payment of nothing to the address 3, and the revert.
abbrev touched : StateDb (List (Bytes × Bytes))
touched = add_balance in_memory (snapshot in_memory genesis).0 ripemd (pos 0)

abbrev reverted : StateDb (List (Bytes × Bytes))
reverted = record genesis {
  journal = record { entries = []; dirties = (ripemd, pos 1) ∷ [] };
  next_revision_id = 1;
}

revert_touched : revert_to_snapshot in_memory touched 0 ≡ some reverted
unfolding revert_to_snapshot journal_revert revert_loop revert_entry clean undirty dirtied
    sort_search search_loop snapshot add_balance with_object get_or_new_state_object create_object
    get_state_object load_object set_state_object set_error object_add_balance object_set_balance
    touch is_empty empty_code_hash new_object set_nonce append dirty set_bytes bytes_to_hash
    bytes_eq lookup insert delete ◌+ℤ◌ ◌-ℤ◌
revert_touched = refl

reverted_unseen : (observe in_memory reverted).accounts ripemd ≡ none
unfolding peek stored_object lookup
reverted_unseen = refl

finalise-missing_example :
    (finalise in_memory true reverted ≡ none) × (intermediate_root in_memory true reverted ≡ none)
unfolding lookup
finalise-missing_example =
    finalise-missing in_memory true reverted ripemd (pos 1) [] refl refl reverted_unseen

genesis_finalised : finalise in_memory true genesis ≡ some genesis
unfolding finalise finalise_loop clear_journal_and_refund
genesis_finalised = refl

revert_to_snapshot-finalise_example :
    (genesis.journal ≡ new_journal)
    × (genesis.refund ≡ 0)
    × ((revid : ℕ) → revert_to_snapshot in_memory genesis revid ≡ none)
revert_to_snapshot-finalise_example =
    revert_to_snapshot-finalise in_memory true genesis genesis genesis_finalised

-- A slot with a leading zero.
abbrev word : Bytes
word = bytes_to_hash (1 ∷ 2 ∷ [])

abbrev holder : StateObject (List (Bytes × Bytes))
holder = new_object in_memory (7 ∷ []) empty_account

-- An object with a slot to write.
abbrev written_to : StateObject (List (Bytes × Bytes))
written_to = record holder { dirty_storage = (zero_hash, zero_hash) ∷ (word, word) ∷ [] }

in_memory-IsMap : IsMap in_memory
in_memory-IsMap = record {
  put = λ t key value. rw (lookup-insert_self key value t) refl;
  gone = λ t key. rw (lookup-delete key key t) (rw (bytes_eq_refl key) refl);
  put_other = λ t j key value apart. rw (lookup-insert j key value t, apart) refl;
  gone_other = λ t j key apart. rw (lookup-delete j key t, apart) refl;
}

object_get_state-update_trie_example :
    (object_get_state in_memory
      (record holder { trie = some (update_trie in_memory written_to).1 })
      word).1
    ≡ word
unfolding new_object lookup
object_get_state-update_trie_example =
    object_get_state-update_trie in_memory in_memory-IsMap written_to
      (record holder { trie = some (update_trie in_memory written_to).1 })
      ((zero_hash, zero_hash) ∷ []) [] word word refl tt refl (length-bytes_to_hash (1 ∷ 2 ∷ []))
      refl refl
