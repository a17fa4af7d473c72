-- ===== src/State/Locks.antt =====
-- core/state/multi_statedb.go: how the transactions that run at the same time lock accounts. Each
-- transaction is a thread, named by its hash, and a step is what one of them does while it holds the
-- lock of the context, or one operation on the mutex of an account.
pub mod Check
pub mod Owners
pub mod Phases
pub mod Moves
pub mod Exclusion
mod Runs
use advance_golang.Base.{ℕ, zero, suc, Bool, true, false, ◌&&◌, ◌||◌, Option, none, some, ◌≡◌}
use advance_golang.Base.{ltb, if◌then◌else◌, List, [], ◌∷◌, ◌++◌, length}
use advance_golang.Base.Maps.{Bytes, bytes_eq, lookup, insert, delete}
use advance_golang.Types.{zero_hash, zero_address}

-- A mutex that is locked names the transaction that has locked it, which Go does not record. A mutex
-- is made once for an address, since no address leaves `lockedAccount` and no hash is zero; so the
-- address names the mutex. The maps of objects are not part of the locking.
pub record MContext : Type 0 where
  pub locked_account : List (Bytes × Bytes)
  pub account_lock : List (Bytes × Option Bytes)
  pub tx_lock_queue : List (Bytes × List Bytes)
  pub executed_txs : List Bytes

-- A missing key reads as the zero value.
abbrev pub or_else : {V : Type 0} → V → Option V → V
or_else default none = default
or_else default (some v) = v

abbrev pub locked_by : MContext → Bytes → Bytes
locked_by ctx addr = or_else zero_hash (lookup addr ctx.locked_account)

abbrev pub queue_of : MContext → Bytes → List Bytes
queue_of ctx tx = or_else [] (lookup tx ctx.tx_lock_queue)

unfoldable pub contains : Bytes → List Bytes → Bool
contains a [] = false
contains a (b ∷ bs) = bytes_eq b a || contains a bs

-- `q[len(q)-1]`; every caller has seen that there is one.
unfoldable pub last : List Bytes → Bytes
last [] = zero_address
last (a ∷ []) = a
last (a ∷ b ∷ q) = last (b ∷ q)

-- The loop of `_checkDeadLock`, in rounds left.
unfoldable pub check_loop : ℕ → MContext → Bytes → List Bytes → Bytes → Bytes → Option Bool
check_loop zero ctx locking_addr lock_queue addr tx = none
check_loop (suc rounds) ctx locking_addr lock_queue addr tx =
    let next = locked_by ctx locking_addr in
    let tx_queue = queue_of ctx next in
    let rest = check_loop rounds ctx (last tx_queue) lock_queue locking_addr next in
    if bytes_eq tx (locked_by ctx addr)
    then some false
    else if contains locking_addr lock_queue
    then some true
    else if ltb 1 (length tx_queue)
    then rest
    else some false

-- Two rounds are enough.
unfoldable pub check_dead_lock : MContext → Bytes → List Bytes → Bytes → Option Bool
check_dead_lock ctx locking_addr lock_queue addr =
    check_loop 2 ctx locking_addr lock_queue addr (locked_by ctx locking_addr)

-- What requestAndLock comes to while it holds the lock of the context: it returns, it panics, or
-- it is going to wait for the account's mutex.
pub data Request : Type 0 where
  returned : (ctx : MContext) → Request
  dead_lock : Request
  to_wait : (ctx : MContext) → Request
  unending : Request

abbrev pub enqueue : MContext → Bytes → Bytes → MContext
enqueue ctx thash addr = record ctx {
  tx_lock_queue = insert thash (queue_of ctx thash ++ (addr ∷ [])) ctx.tx_lock_queue;
}

-- The account is locked by no transaction: its mutex is made, and locked.
unfoldable pub lock_account : MContext → Bytes → Bytes → MContext
lock_account ctx thash addr =
    let queued = enqueue ctx thash addr in
    record queued {
      locked_account = insert addr thash ctx.locked_account;
      account_lock = insert addr (some thash) ctx.account_lock;
    }

unfoldable pub checked : Option Bool → MContext → Request
checked none ctx = unending
checked (some true) ctx = dead_lock
checked (some false) ctx = to_wait ctx

unfoldable pub request_and_lock : MContext → Bytes → Bytes → Request
request_and_lock ctx thash addr =
    let tx1 = locked_by ctx addr in
    let tx1_queue = queue_of ctx tx1 in
    let tx2_queue = queue_of ctx thash in
    if bytes_eq tx1 thash
    then returned ctx
    else if bytes_eq tx1 zero_hash
    then returned (lock_account ctx thash addr)
    else if ltb 1 (length tx1_queue) && ltb 0 (length tx2_queue)
    then checked (check_dead_lock ctx (last tx1_queue) tx2_queue addr) (enqueue ctx thash addr)
    else to_wait (enqueue ctx thash addr)

-- The part of UnLockAccounts under the lock of the context: the accounts whose mutexes it is going
-- to unlock, and the context.
unfoldable pub unlock_accounts : Bool → Bytes → MContext → List Bytes × MContext
unlock_accounts add_tx thash ctx = (
  queue_of ctx thash,
  record ctx {
    tx_lock_queue = delete thash ctx.tx_lock_queue;
    executed_txs = if add_tx then ctx.executed_txs ++ (thash ∷ []) else ctx.executed_txs;
  },
)

-- The loop of UnLockAccounts over the mutexes.
unfoldable pub release_accounts : List Bytes → MContext → MContext
release_accounts [] ctx = ctx
release_accounts (addr ∷ addrs) ctx =
    release_accounts addrs (record ctx { account_lock = insert addr none ctx.account_lock })

-- The whole of UnLockAccounts, when no other transaction comes in between.
unfoldable pub unlock_all : Bool → Bytes → MContext → MContext
unlock_all add_tx thash ctx =
    let (addrs, ctx') = unlock_accounts add_tx thash ctx in release_accounts addrs ctx'

-- Where a transaction stands: it runs, it waits for the mutex of an account, it has the mutex and
-- has not noted that yet, or it unlocks its mutexes one by one.
pub data Phase : Type 0 where
  running : Phase
  waiting : (addr : Bytes) → Phase
  taken : (addr : Bytes) → Phase
  releasing : (addrs : List Bytes) → Phase
  finished : Phase

pub record System : Type 0 where
  pub ctx : MContext
  pub phase : Bytes → Phase

abbrev pub set_phase : (Bytes → Phase) → Bytes → Phase → Bytes → Phase
set_phase phase h p g = if bytes_eq h g then p else phase g

-- A hash is run once. A transaction that has panicked is still running: what recovers it is not part
-- of this code.
pub data Step (s : System) : System → Type 0 where
  locks :
      (h addr : Bytes) (ctx : MContext)
      → s.phase h ≡ running
      → request_and_lock s.ctx h addr ≡ returned ctx
      → Step s (record s { ctx = ctx })
  waits :
      (h addr : Bytes) (ctx : MContext)
      → s.phase h ≡ running
      → request_and_lock s.ctx h addr ≡ to_wait ctx
      → Step s (record { ctx = ctx; phase = set_phase s.phase h (waiting addr) })
  takes :
      (h addr : Bytes)
      → s.phase h ≡ waiting addr
      → lookup addr s.ctx.account_lock ≡ some none
      → Step s (record {
        ctx = record s.ctx { account_lock = insert addr (some h) s.ctx.account_lock };
        phase = set_phase s.phase h (taken addr);
      })
  notes :
      (h addr : Bytes)
      → s.phase h ≡ taken addr
      → Step s (record {
        ctx = record s.ctx { locked_account = insert addr h s.ctx.locked_account };
        phase = set_phase s.phase h running;
      })
  unlocks :
      (h : Bytes) (add_tx : Bool)
      → s.phase h ≡ running
      → Step s (record {
        ctx = (unlock_accounts add_tx h s.ctx).1;
        phase = set_phase s.phase h (releasing (unlock_accounts add_tx h s.ctx).0);
      })
  releases :
      (h addr : Bytes) (addrs : List Bytes)
      → s.phase h ≡ releasing (addr ∷ addrs)
      → Step s (record {
        ctx = record s.ctx { account_lock = insert addr none s.ctx.account_lock };
        phase = set_phase s.phase h (releasing addrs);
      })
  finishes :
      (h : Bytes)
      → s.phase h ≡ releasing []
      → Step s (record s { phase = set_phase s.phase h finished })

-- NewMStateDB makes the context. No transaction has the zero hash.
abbrev pub start : System
start = record {
  ctx = record { locked_account = []; account_lock = []; tx_lock_queue = []; executed_txs = [] };
  phase = λ h. if bytes_eq zero_hash h then finished else running;
}

pub data Reach : System → Type 0 where
  here : Reach start
  later : (s t : System) → Reach s → Step s t → Reach t
