-- ===== src/State/Locks/Check.antt =====
-- core/state/multi_statedb.go: _checkDeadLock and requestAndLock against what they come to.
use advance_golang.Base.{
  true, none, ◌⊎◌, inl, inr, Bool-cases, ℕ, suc, Bool, false, ◌&&◌, not, Option, some, ◌≡◌, refl,
  ap, ◌∙◌, arith,
}
use advance_golang.Base.{ltb, if◌then◌else◌, List, [], ◌∷◌, length}
use advance_golang.Base.Maps.{Bytes, bytes_eq, bytes_eq_refl, lookup, lookup-insert, lookup-delete}
use advance_golang.Types.{zero_hash}
use advance_golang.State.Locks.{
  MContext, or_else, unlock_accounts, release_accounts, unlock_all, locked_by, queue_of, contains,
  last, check_loop, check_dead_lock, returned, dead_lock, to_wait, enqueue, checked,
  request_and_lock,
}

-- The second round of _checkDeadLock ends it, so with two rounds or more it returns, and it finds
-- a deadlock exactly when the address that the holder waits for is held by another transaction
-- than the holder and stands in the queue of the transaction that asks.
pub check_loop-first :
    (rounds : ℕ) (ctx : MContext) (locking_addr : Bytes) (lock_queue : List Bytes) (addr : Bytes)
    → check_loop (suc (suc rounds)) ctx locking_addr lock_queue addr (locked_by ctx locking_addr)
      ≡ some (
          not (bytes_eq (locked_by ctx locking_addr) (locked_by ctx addr))
          && contains locking_addr lock_queue)
unfolding check_loop
check_loop-first rounds ctx locking_addr lock_queue addr =
    ground (arith, bytes_eq_refl (locked_by ctx locking_addr))

contains_nonempty : (a : Bytes) (q : List Bytes) → ltb 0 (length q) ≡ false → contains a q ≡ false
unfolding contains
contains_nonempty a [] h = refl
contains_nonempty a (b ∷ q) h = ground arith

-- requestAndLock on an account that another transaction has locked panics with a deadlock exactly
-- when the holder has more than one account in its queue, and the last of them is in the queue of
-- the transaction that asks and was last locked by another than the holder; otherwise it queues
-- the account and waits. Given that the account is locked by another transaction.
pub request_and_lock-held :
    (ctx : MContext) (thash addr : Bytes)
    → bytes_eq (locked_by ctx addr) thash ≡ false
    → bytes_eq (locked_by ctx addr) zero_hash ≡ false
    → request_and_lock ctx thash addr ≡ (
        let awaited = last (queue_of ctx (locked_by ctx addr)) in
        if ltb 1 (length (queue_of ctx (locked_by ctx addr)))
          && (contains awaited (queue_of ctx thash)
              && not (bytes_eq (locked_by ctx awaited) (locked_by ctx addr)))
        then dead_lock
        else to_wait (enqueue ctx thash addr))
unfolding request_and_lock check_dead_lock checked
request_and_lock-held ctx thash addr other locked =
    let queue1 = queue_of ctx (locked_by ctx addr) in
    let queue2 = queue_of ctx thash in
    rw (other, locked, check_loop-first 0 ctx (last queue1) queue2 addr)
      (ground (arith, contains_nonempty (last queue1) queue2))

-- Three transactions that wait for each other in a circle are not found: where x holds a and waits
-- for b, y holds b and waits for c, and z holds c, requestAndLock lets z wait for a. Given that b and
-- c differ, that z is not x, and that x is not the zero hash.
pub request_and_lock-circle :
    (ctx : MContext) (x y z a b c : Bytes)
    → locked_by ctx a ≡ x
    → queue_of ctx x ≡ a ∷ b ∷ []
    → locked_by ctx b ≡ y
    → queue_of ctx y ≡ b ∷ c ∷ []
    → locked_by ctx c ≡ z
    → queue_of ctx z ≡ c ∷ []
    → bytes_eq c b ≡ false
    → bytes_eq x z ≡ false
    → bytes_eq x zero_hash ≡ false
    → request_and_lock ctx z a ≡ to_wait (enqueue ctx z a)
unfolding contains last
request_and_lock-circle ctx x y z a b c mark_a queue_x mark_b queue_y mark_c queue_z apart other
      real =
    request_and_lock-held ctx z a (rw mark_a other) (rw mark_a real)
    ∙ rw (mark_a, queue_x, queue_z, apart) (ground arith)

release_accounts-kept :
    (addrs : List Bytes) (ctx : MContext)
    → ((release_accounts addrs ctx).locked_account ≡ ctx.locked_account)
      × ((release_accounts addrs ctx).tx_lock_queue ≡ ctx.tx_lock_queue)
unfolding release_accounts
release_accounts-kept [] ctx = (refl, refl)
release_accounts-kept (a ∷ addrs) ctx = release_accounts-kept addrs _

-- Each mutex of the loop is open after it, and an open one stays open.
release_accounts-open :
    (addrs : List Bytes) (ctx : MContext) (addr : Bytes)
    → (contains addr addrs ≡ true) ⊎ (lookup addr ctx.account_lock ≡ some none)
    → lookup addr (release_accounts addrs ctx).account_lock ≡ some none
unfolding release_accounts contains
release_accounts-open [] ctx addr (inr free) = free
release_accounts-open [] ctx addr (inl there) = cc
release_accounts-open (a ∷ addrs) ctx addr case =
    let freed = lookup-insert a addr none ctx.account_lock in
    release_accounts-open addrs _ addr (elim (Bool-cases (bytes_eq a addr)) [
      | inl same ↦ inr (freed ∙ rw same refl)
      | inr apart ↦ elim case [
        | inl there ↦ inl (ground (arith, apart))
        | inr free ↦ inr (freed ∙ rw apart free)
      ]
    ])

-- UnLockAccounts leaves the marks: after the whole of it the mutex of an account that it has locked is
-- open and the account is in no queue of its hash, but requestAndLock under the same hash returns at
-- once, without locking the mutex. Given that the hash marks the account and has it in its queue, and
-- where no other transaction comes in between.
pub request_and_lock-unlock_all :
    (ctx : MContext) (thash addr : Bytes) (add_tx : Bool)
    → locked_by ctx addr ≡ thash
    → contains addr (queue_of ctx thash) ≡ true
    → (let after = unlock_all add_tx thash ctx in
        (lookup addr after.account_lock ≡ some none)
        × (contains addr (queue_of after thash) ≡ false)
        × (request_and_lock after thash addr ≡ returned after))
unfolding request_and_lock unlock_all unlock_accounts contains
request_and_lock-unlock_all ctx thash addr add_tx mark queued =
    let (addrs, ctx') = unlock_accounts add_tx thash ctx in
    let kept = release_accounts-kept addrs ctx' in
    let still : locked_by (unlock_all add_tx thash ctx) addr ≡ thash =
      ap (λ (m : List (Bytes × Bytes)). or_else zero_hash (lookup addr m)) kept.0 ∙ mark in
    (
      release_accounts-open addrs ctx' addr (inl queued),
      ap (λ (m : List (Bytes × List Bytes)). contains addr (or_else [] (lookup thash m))) kept.1
          ∙ ap (λ (q : Option (List Bytes)). contains addr (or_else [] q))
              (lookup-delete thash thash ctx.tx_lock_queue)
          ∙ rw (bytes_eq_refl thash) refl,
      rw still (rw (bytes_eq_refl thash) refl),
    )
