-- ===== src/State/Locks/Runs.antt =====
-- The theorems on the locks at concrete inputs.
use advance_golang.Base.{
  ℕ, true, false, ◌&&◌, not, some, none, ◌≡◌, refl, [], ◌∷◌, ◌++◌, replicate, inl, if◌then◌else◌,
  ltb, length,
}
use advance_golang.Base.Maps.{Bytes, bytes_eq, lookup, insert}
use advance_golang.State.Locks.{
  MContext, last, dead_lock, locked_by, queue_of, contains, returned, to_wait, enqueue,
  lock_account, request_and_lock, unlock_all, System, locks, start, Reach, here, later,
}
use advance_golang.State.Locks.Check.{
  request_and_lock-held, request_and_lock-circle, request_and_lock-unlock_all,
}
use advance_golang.State.Locks.Exclusion.{Uses, Uses-exclusive}

abbrev tx : ℕ → Bytes
tx n = replicate 31 0 ++ (n ∷ [])

abbrev account : ℕ → Bytes
account n = replicate 19 0 ++ (n ∷ [])

-- Each transaction has locked one account; the first two wait for the next account.
abbrev circle : MContext
circle = record {
  locked_account = (account 1, tx 1) ∷ (account 2, tx 2) ∷ (account 3, tx 3) ∷ [];
  account_lock =
      (account 1, some (tx 1)) ∷ (account 2, some (tx 2)) ∷ (account 3, some (tx 3)) ∷ [];
  tx_lock_queue =
      (tx 1, account 1 ∷ account 2 ∷ [])
      ∷ (tx 2, account 2 ∷ account 3 ∷ [])
      ∷ (tx 3, account 3 ∷ [])
      ∷ [];
  executed_txs = [];
}

request_and_lock-circle_example :
    request_and_lock circle (tx 3) (account 1) ≡ to_wait (enqueue circle (tx 3) (account 1))
unfolding lookup bytes_eq
request_and_lock-circle_example =
    request_and_lock-circle circle (tx 1) (tx 2) (tx 3) (account 1) (account 2) (account 3) refl
      refl refl refl refl refl refl refl refl

request_and_lock-unlock_all_example :
    (lookup (account 3) (unlock_all true (tx 3) circle).account_lock ≡ some none)
    × (contains (account 3) (queue_of (unlock_all true (tx 3) circle) (tx 3)) ≡ false)
    × (request_and_lock (unlock_all true (tx 3) circle) (tx 3) (account 3)
        ≡ returned (unlock_all true (tx 3) circle))
unfolding lookup bytes_eq contains
request_and_lock-unlock_all_example =
    request_and_lock-unlock_all circle (tx 3) (account 3) true refl refl

abbrev one_lock : System
one_lock = record start { ctx = lock_account start.ctx (tx 1) (account 1) }

one_lock-Reach : Reach one_lock
unfolding request_and_lock lookup bytes_eq
one_lock-Reach = later start one_lock here (locks (tx 1) (account 1) one_lock.ctx refl refl)

one_lock-Uses : Uses one_lock (tx 1) (account 1)
unfolding Uses request_and_lock lookup bytes_eq lock_account insert contains
one_lock-Uses = (refl, inl refl)

Uses-exclusive_example : tx 1 ≡ tx 1
Uses-exclusive_example =
    Uses-exclusive one_lock (tx 1) (tx 1) (account 1) one_lock-Reach one_lock-Uses one_lock-Uses

request_and_lock-held_example : request_and_lock circle (tx 3) (account 2) ≡ (
    let awaited = last (queue_of circle (locked_by circle (account 2))) in
    if ltb 1 (length (queue_of circle (locked_by circle (account 2))))
      && (contains awaited (queue_of circle (tx 3))
          && not (bytes_eq (locked_by circle awaited) (locked_by circle (account 2))))
    then dead_lock
    else to_wait (enqueue circle (tx 3) (account 2)))
unfolding lookup bytes_eq
request_and_lock-held_example = request_and_lock-held circle (tx 3) (account 2) refl refl
