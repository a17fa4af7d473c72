-- ===== src/State/Runs.antt =====
-- A concrete trie and database, concrete runs, and the theorems at concrete inputs.
use advance_golang.Base.{◌≡◌, refl, true, false, none, some}
use advance_golang.Base.{List, [], ◌∷◌}
use advance_golang.Base.Int.{pos}
use advance_golang.Base.Maps.{Bytes, lookup}
use advance_golang.State.Answers.{read, view_empty, account_getters-read, storage_getters-read}
use advance_golang.State.Db.{
  StateDb, exist, empty, get_balance, get_nonce, get_code_hash, has_suicided, get_code, get_state,
  get_pdx_state,
}
use advance_golang.State.Promises.{perform-promise}
use advance_golang.State.Revert.{revert_loop, snapshot, revert_to_snapshot}
use advance_golang.State.Samples.{in_memory, genesis}
use advance_golang.State.Snapshot.{IsReady, Restored}
use advance_golang.State.Trail.{IsSound}
use advance_golang.State.Transactions.{
  adding_balance, setting_state, perform, Run, start, step, mark, run-IsReady,
  revert_to_snapshot-run,
}
use advance_golang.State.View.{peek, stored_object, observe}
use advance_golang.State.Worlds.{promise}
use advance_golang.Types.{bytes_to_hash, zero_hash}
use advance_golang.State.Counters.{marks, count_of-journal_revert}
use advance_golang.State.Revert.{journal_revert, revert_loop, revert_entry, clean, undirty}
use advance_golang.State.Object.{dirtied, touch_change, refund_change, count_of}
use advance_golang.Base.{drop}
use advance_golang.Base.Maps.{insert, bytes_eq}
use advance_golang.Base.Int.{◌-ℤ◌}

abbrev alice : Bytes
alice = 0xA1 ∷ []

genesis_nothing : (a : Bytes) → peek in_memory genesis a ≡ none
unfolding peek stored_object lookup
genesis_nothing a = refl

genesis-IsSound : IsSound (observe in_memory genesis)
unfolding peek stored_object lookup
genesis-IsSound = record { addressed = λ a v h. cc; hashed = λ a v h. cc; absent = λ a h. refl }

genesis-IsReady : IsReady in_memory genesis
genesis-IsReady = record { sound = genesis-IsSound; older = tt }

abbrev marked : StateDb (List (Bytes × Bytes))
marked = (snapshot in_memory genesis).0

abbrev paid : StateDb (List (Bytes × Bytes))
paid = perform in_memory (adding_balance alice (pos 7)) marked

abbrev stored : StateDb (List (Bytes × Bytes))
stored = perform in_memory (setting_state alice (1 ∷ []) (5 ∷ [])) paid

abbrev nested : StateDb (List (Bytes × Bytes))
nested = (snapshot in_memory stored).0

-- A payment, a store, and a second snapshot.
abbrev paying : Run in_memory marked nested
paying =
    mark
      (step (setting_state alice (1 ∷ []) (5 ∷ [])) (step (adding_balance alice (pos 7)) start refl)
        refl)
      refl

run-IsReady_example : IsReady in_memory (snapshot in_memory genesis).0
run-IsReady_example = run-IsReady in_memory genesis marked genesis-IsReady (mark start refl)

revert_to_snapshot-run_example :
    (v : StateDb (List (Bytes × Bytes))) × (revert_to_snapshot in_memory nested
        (snapshot in_memory genesis).1
      ≡ some v)
    × Restored in_memory genesis v
revert_to_snapshot-run_example =
    revert_to_snapshot-run in_memory genesis nested genesis-IsReady paying

perform-promise_example :
    observe in_memory paid
    ≡ promise in_memory (adding_balance alice (pos 7)) (observe in_memory marked)
perform-promise_example = perform-promise in_memory (adding_balance alice (pos 7)) marked

account_getters-read_example :
    ((get_balance in_memory paid alice).1
      ≡ read (observe in_memory paid) alice (pos 0) (λ v. v.balance))
    × ((get_nonce in_memory paid alice).1 ≡ read (observe in_memory paid) alice 0 (λ v. v.nonce))
    × ((get_code_hash in_memory paid alice).1
        ≡ read (observe in_memory paid) alice zero_hash (λ v. bytes_to_hash v.code_hash))
    × ((has_suicided in_memory paid alice).1
        ≡ read (observe in_memory paid) alice false (λ v. v.suicided))
    × ((exist in_memory paid alice).1 ≡ read (observe in_memory paid) alice false (λ v. true))
    × ((empty in_memory paid alice).1
        ≡ read (observe in_memory paid) alice true (view_empty in_memory))
account_getters-read_example = account_getters-read in_memory paid alice

storage_getters-read_example :
    ((get_code in_memory stored alice).1 ≡ read (observe in_memory stored) alice none (λ v. v.code))
    × ((get_state in_memory stored alice (1 ∷ [])).1
        ≡ read (observe in_memory stored) alice zero_hash (λ v. v.storage (1 ∷ [])))
    × ((get_pdx_state in_memory stored alice (1 ∷ [])).1
        ≡ read (observe in_memory stored) alice [] (λ v. v.pdx_storage (1 ∷ [])))
storage_getters-read_example = storage_getters-read in_memory stored alice (1 ∷ [])

-- Two marks of an account, one of them with an entry, and a change of the refund.
abbrev counted : StateDb (List (Bytes × Bytes))
counted = record genesis {
  journal = record {
    entries = touch_change alice ∷ refund_change 3 ∷ [];
    dirties = (alice, pos 2) ∷ [];
  };
}

abbrev taken_back : StateDb (List (Bytes × Bytes))
taken_back = record genesis {
  journal = record { entries = []; dirties = (alice, pos 1) ∷ [] };
  refund = 3;
}

count_of-journal_revert_example :
    count_of taken_back.journal.dirties alice
    ≡ count_of counted.journal.dirties alice -ℤ pos (marks (drop 0 counted.journal.entries) alice)
unfolding journal_revert revert_loop revert_entry clean undirty dirtied lookup insert bytes_eq ◌-ℤ◌
count_of-journal_revert_example = count_of-journal_revert in_memory counted taken_back 0 alice refl
