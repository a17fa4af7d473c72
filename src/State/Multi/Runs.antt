-- ===== src/State/Multi/Runs.antt =====
-- The theorems on MStateDB at concrete states.
use advance_golang.Base.{◌≡◌, refl, arith, true, false, some, Option, List, [], ◌∷◌}
use advance_golang.Base.Int.{pos, ◌+ℤ◌}
use advance_golang.Base.Maps.{Bytes, lookup, insert, bytes_eq}
use advance_golang.State.Commit.{finalise}
use advance_golang.State.Db.{set_state_object, set_error}
use advance_golang.State.Object.{
  create_object_change, append, new_journal, object_set_balance, set_balance, new_object, set_nonce,
  dirty, dirtied,
}
use advance_golang.State.Multi.{
  MStateDb, Pointer, context_object, multi_get_state_object, multi_create_object,
  multi_get_or_new_state_object, shared_object, load_shared,
}
use advance_golang.State.Multi.Methods.{
  multi_exist, multi_get_balance, multi_set_balance, multi_snapshot, multi_with_object,
}
use advance_golang.State.Multi.Publish.{multi_get_balance-multi_set_balance}
use advance_golang.State.Multi.Refine.{
  SettersAgree, GettersAgree, multi_setters-setters, multi_getters-getters,
}
use advance_golang.State.Multi.Rollback.{multi_revert_entry, multi_exist-revert_entry}
use advance_golang.State.Codec.{with_codec}
use advance_golang.State.Multi.Total.{multi_finalise_total}
use advance_golang.State.Multi.Settle.{multi_finalise, multi_finalise-finalise}
use advance_golang.State.Revert.{snapshot}
use advance_golang.State.Samples.{in_memory, genesis}
use advance_golang.Types.{set_bytes, bytes_to_hash}
use mathlib.Core.Option

abbrev multi : MStateDb (List (Bytes × Bytes))
multi = record { stdb = genesis; objects = [] }

-- A balance set, after a snapshot.
abbrev paid : MStateDb (List (Bytes × Bytes))
paid = multi_set_balance in_memory (multi_snapshot in_memory multi).0 (9 ∷ []) (pos 5)

multi_exist-revert_entry_example :
    ((multi_exist in_memory multi (9 ∷ [])).1 ≡ false)
    × ((multi_create_object in_memory multi (9 ∷ [])).0.stdb.journal
        ≡ append
            (multi_get_state_object in_memory multi (9 ∷ [])).0.stdb.journal
            (create_object_change (9 ∷ [])))
    × ((u : MStateDb (List (Bytes × Bytes))) × (multi_revert_entry in_memory
            (create_object_change (9 ∷ []))
            (multi_create_object in_memory multi (9 ∷ [])).0
          ≡ some u)
        × ((multi_exist in_memory u (9 ∷ [])).1 ≡ true))
unfolding lookup
multi_exist-revert_entry_example = multi_exist-revert_entry in_memory multi (9 ∷ []) refl refl refl

multi_setters-setters_example : SettersAgree in_memory multi (9 ∷ [])
multi_setters-setters_example = multi_setters-setters in_memory multi (9 ∷ [])

multi_getters-getters_example : GettersAgree in_memory paid (9 ∷ [])
multi_getters-getters_example = multi_getters-getters in_memory paid (9 ∷ [])

-- The goroutine that reads has the context's map as the first one has left it.
abbrev reader : MStateDb (List (Bytes × Bytes))
reader = record {
  stdb = genesis;
  objects = elim (context_object paid (9 ∷ [])) [
    | Option.none ↦ []
    | some o ↦ (9 ∷ [], Pointer.other o) ∷ []
  ];
}

multi_get_balance-multi_set_balance_example :
    (multi_get_balance in_memory reader (9 ∷ [])).1 ≡ pos 5
unfolding context_object multi_snapshot snapshot multi_set_balance multi_with_object
    multi_get_or_new_state_object multi_create_object multi_get_state_object shared_object
    load_shared set_state_object set_error object_set_balance set_balance new_object set_nonce
    append dirty dirtied set_bytes bytes_to_hash bytes_eq lookup insert ◌+ℤ◌
multi_get_balance-multi_set_balance_example =
    multi_get_balance-multi_set_balance in_memory (multi_snapshot in_memory multi).0 reader (9 ∷ [])
      (pos 5) refl refl refl

multi_finalise-finalise_example :
    Option.map
      (λ (r : MStateDb (List (Bytes × Bytes))). r.stdb)
      (multi_finalise in_memory true paid)
    ≡ finalise in_memory true paid.stdb
unfolding context_object multi_snapshot snapshot multi_set_balance multi_with_object
    multi_get_or_new_state_object multi_create_object multi_get_state_object shared_object
    load_shared set_state_object set_error object_set_balance set_balance new_object set_nonce
    append dirty dirtied set_bytes bytes_to_hash bytes_eq lookup insert ◌+ℤ◌
multi_finalise-finalise_example =
    multi_finalise-finalise in_memory true paid ((λ e. ground arith), tt)

-- What the first goroutine has paid, with the codec of accounts.
abbrev credited : MStateDb (List (Bytes × Bytes))
credited =
    multi_set_balance (with_codec in_memory) (multi_snapshot (with_codec in_memory) multi).0
      (9 ∷ []) (pos 5)

multi_finalise_total_example :
    (r : MStateDb (List (Bytes × Bytes))) × (multi_finalise (with_codec in_memory) true credited
      ≡ some r)
    × (r.stdb.journal ≡ new_journal)
    × (r.stdb.valid_revisions ≡ [])
    × (r.stdb.refund ≡ 0)
unfolding context_object multi_snapshot snapshot multi_set_balance multi_with_object
    multi_get_or_new_state_object multi_create_object multi_get_state_object shared_object
    load_shared set_state_object set_error object_set_balance set_balance new_object set_nonce
    append dirty dirtied set_bytes bytes_to_hash bytes_eq lookup insert ◌+ℤ◌
multi_finalise_total_example = multi_finalise_total in_memory true credited ((5, refl), tt)
