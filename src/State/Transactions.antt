-- ===== src/State/Transactions.antt =====
-- core/state/statedb.go as a transaction uses it: setters, getters and nested snapshots in any order.
use advance_golang.Base.{ℕ, zero, suc, ◌≡◌, sym, ◌∙◌, false, Option, none, some, arith}
use advance_golang.Base.{◌==◌, List, [], ◌∷◌, length, get_elem?, All, Option-cases, inl, inr}
use advance_golang.Base.Int.{ℤ}
use advance_golang.Base.Maps.{Bytes}
use advance_golang.State.Backend.{Backend}
use advance_golang.State.Db.{
  Revision, StateDb, add_preimage, add_refund, prepare, create_account, add_balance, sub_balance,
  db_set_balance, db_set_nonce, db_set_code, db_set_state, db_set_pdx_state, suicide, exist, empty,
  get_balance, get_nonce, get_code_hash, has_suicided, get_code, get_state, get_pdx_state,
}
use advance_golang.State.Lifecycle.{
  suicide-Grows, create_account-Grows, add_refund-Grows, add_preimage-Grows, prepare-Grows,
  get_code-Grows, get_state-Grows, get_pdx_state-Grows,
}
use advance_golang.State.Operations.{
  add_balance-Grows, sub_balance-Grows, db_set_balance-Grows, db_set_nonce-Grows, db_set_code-Grows,
  db_set_state-Grows, db_set_pdx_state-Grows,
}
use advance_golang.State.Revert.{sort_search, reached, snapshot, revert_to_snapshot}
use advance_golang.State.Setters.{get_state_object-Grows}
use advance_golang.State.Snapshot.{
  IsReady, Restored, Since, Since-start, Since-Grows, Since-snapshot, Since-Restored, Since-IsReady,
  revert_back,
}
use advance_golang.State.Trail.{Grows}
use mathlib.Core.Path.{subst}

-- The calls that a transaction makes between its snapshots.
pub data Op : Type 0 where
  adding_balance : (addr : Bytes) (amount : ℤ) → Op
  subtracting_balance : (addr : Bytes) (amount : ℤ) → Op
  setting_balance : (addr : Bytes) (amount : ℤ) → Op
  setting_nonce : (addr : Bytes) (nonce : ℕ) → Op
  setting_code : (addr : Bytes) (code : Option Bytes) → Op
  setting_state : (addr key value : Bytes) → Op
  setting_pdx_state : (addr key value : Bytes) → Op
  creating_account : (addr : Bytes) → Op
  suiciding : (addr : Bytes) → Op
  adding_refund : (gas : ℕ) → Op
  adding_preimage : (hash preimage : Bytes) → Op
  preparing : (thash bhash : Bytes) (ti : ℕ) → Op
  asking_exist : (addr : Bytes) → Op
  asking_empty : (addr : Bytes) → Op
  getting_balance : (addr : Bytes) → Op
  getting_nonce : (addr : Bytes) → Op
  getting_code_hash : (addr : Bytes) → Op
  asking_suicided : (addr : Bytes) → Op
  getting_code : (addr : Bytes) → Op
  getting_state : (addr key : Bytes) → Op
  getting_pdx_state : (addr key : Bytes) → Op

pub some-inj {ℓ} : {A : Type ℓ} {a b : A} → some a ≡ some b → a ≡ b
some-inj h = cc

module _ (B : Backend) where
  open B use {Trie}

  unfoldable pub perform : Op → StateDb Trie → StateDb Trie
  perform (adding_balance addr amount) s = add_balance B s addr amount
  perform (subtracting_balance addr amount) s = sub_balance B s addr amount
  perform (setting_balance addr amount) s = db_set_balance B s addr amount
  perform (setting_nonce addr nonce) s = db_set_nonce B s addr nonce
  perform (setting_code addr code) s = db_set_code B s addr code
  perform (setting_state addr key value) s = db_set_state B s addr key value
  perform (setting_pdx_state addr key value) s = db_set_pdx_state B s addr key value
  perform (creating_account addr) s = create_account B s addr
  perform (suiciding addr) s = (suicide B s addr).0
  perform (adding_refund gas) s = add_refund s gas
  perform (adding_preimage hash preimage) s = add_preimage s hash preimage
  perform (preparing thash bhash ti) s = prepare s thash bhash ti
  perform (asking_exist addr) s = (exist B s addr).0
  perform (asking_empty addr) s = (empty B s addr).0
  perform (getting_balance addr) s = (get_balance B s addr).0
  perform (getting_nonce addr) s = (get_nonce B s addr).0
  perform (getting_code_hash addr) s = (get_code_hash B s addr).0
  perform (asking_suicided addr) s = (has_suicided B s addr).0
  perform (getting_code addr) s = (get_code B s addr).0
  perform (getting_state addr key) s = (get_state B s addr key).0
  perform (getting_pdx_state addr key) s = (get_pdx_state B s addr key).0

  -- The runs between two states. A call that fails is a snapshot, a run, and the revert to the
  -- snapshot; one that succeeds leaves the snapshot where it is.
  pub data Run : StateDb Trie → StateDb Trie → Type 0 where
    start : {s : StateDb Trie} → Run s s
    step : {s t u : StateDb Trie} (op : Op) → Run s t → u ≡ perform op t → Run s u
    mark : {s t u : StateDb Trie} → Run s t → u ≡ (snapshot B t).0 → Run s u
    back :
        {s t u v : StateDb Trie}
        → Run s t
        → Run (snapshot B t).0 u
        → revert_to_snapshot B u (snapshot B t).1 ≡ some v
        → Run s v

  perform-Grows : (op : Op) (s : StateDb Trie) → IsReady B s → Grows B s (perform op s)
  unfolding perform exist empty get_balance get_nonce get_code_hash has_suicided
  perform-Grows (adding_balance addr amount) s r = add_balance-Grows B s r.sound addr amount
  perform-Grows (subtracting_balance addr amount) s r = sub_balance-Grows B s r.sound addr amount
  perform-Grows (setting_balance addr amount) s r = db_set_balance-Grows B s r.sound addr amount
  perform-Grows (setting_nonce addr nonce) s r = db_set_nonce-Grows B s r.sound addr nonce
  perform-Grows (setting_code addr code) s r = db_set_code-Grows B s r.sound addr code
  perform-Grows (setting_state addr key value) s r = db_set_state-Grows B s r.sound addr key value
  perform-Grows (setting_pdx_state addr key value) s r =
      db_set_pdx_state-Grows B s r.sound addr key value
  perform-Grows (creating_account addr) s r = create_account-Grows B s r.sound addr
  perform-Grows (suiciding addr) s r = suicide-Grows B s r.sound addr
  perform-Grows (adding_refund gas) s r = add_refund-Grows B s r.sound gas
  perform-Grows (adding_preimage hash preimage) s r = add_preimage-Grows B s r.sound hash preimage
  perform-Grows (preparing thash bhash ti) s r = prepare-Grows B s r.sound thash bhash ti
  perform-Grows (asking_exist addr) s r = get_state_object-Grows B s addr
  perform-Grows (asking_empty addr) s r = get_state_object-Grows B s addr
  perform-Grows (getting_balance addr) s r = get_state_object-Grows B s addr
  perform-Grows (getting_nonce addr) s r = get_state_object-Grows B s addr
  perform-Grows (getting_code_hash addr) s r = get_state_object-Grows B s addr
  perform-Grows (asking_suicided addr) s r = get_state_object-Grows B s addr
  perform-Grows (getting_code addr) s r = get_code-Grows B s addr
  perform-Grows (getting_state addr key) s r = get_state-Grows B s addr key
  perform-Grows (getting_pdx_state addr key) s r = get_pdx_state-Grows B s addr key

  snapshot-IsReady : (s : StateDb Trie) → IsReady B s → IsReady B (snapshot B s).0
  snapshot-IsReady s ready =
      Since-IsReady B s (snapshot B s).0 ready (Since-snapshot B s s (Since-start B s))

  step-Since :
      (s t u : StateDb Trie) (op : Op) → IsReady B s → Since B s t → u ≡ perform op t → Since B s u
  step-Since s t u op ready h eq =
      subst (Since B s) (sym eq)
        (Since-Grows B s t (perform op t) h (perform-Grows op t (Since-IsReady B s t ready h)))

  mark-Since : (s t u : StateDb Trie) → Since B s t → u ≡ (snapshot B t).0 → Since B s u
  mark-Since s t u h eq = subst (Since B s) (sym eq) (Since-snapshot B s t h)

  back-Since :
      (s t u v : StateDb Trie)
      → IsReady B s
      → Since B s t
      → Since B (snapshot B t).0 u
      → revert_to_snapshot B u (snapshot B t).1 ≡ some v
      → Since B s v
  back-Since s t u v ready h inside eq =
      let (v', goes, restored) = revert_back B t u (Since-IsReady B s t ready h) inside in
      let same : some v' ≡ some v = sym goes ∙ eq in
      Since-Restored B s t v h (subst (Restored B t) (some-inj same) restored)

  run-Since : (s t : StateDb Trie) → IsReady B s → Run s t → Since B s t
  run-Since s t ready start = Since-start B s
  run-Since s u ready (step {t = t} op run eq) =
      step-Since s t u op ready (run-Since s t ready run) eq
  run-Since s u ready (mark {t = t} run eq) = mark-Since s t u (run-Since s t ready run) eq
  run-Since s v ready (back {t = t} {u = u} run inner eq) =
      back-Since s t u v ready (run-Since s t ready run)
        (run-Since (snapshot B t).0 u
          (snapshot-IsReady t (Since-IsReady B s t ready (run-Since s t ready run))) inner)
        eq

  -- Every run of operations, snapshots and reverts keeps a StateDB ready. Ready means that, as callers
  -- see it, every account carries its own address and a code hash of 32 bytes and the trie holds
  -- nothing for an address that shows no account, and that the id of each valid snapshot is below that
  -- of the next one. Given that the StateDB is ready at first.
  pub run-IsReady : (s t : StateDb Trie) → IsReady B s → Run s t → IsReady B t
  run-IsReady s t ready run = Since-IsReady B s t ready (run-Since s t ready run)

  -- After a snapshot and any run of setters, getters, further snapshots and reverts to those,
  -- RevertToSnapshot does not panic, and it brings back what callers can read, the journal's entries
  -- and the snapshots taken before; given that the StateDB is ready.
  pub revert_to_snapshot-run :
      (s u : StateDb Trie)
      → IsReady B s
      → Run (snapshot B s).0 u
      → (v : StateDb Trie) × (revert_to_snapshot B u (snapshot B s).1 ≡ some v) × Restored B s v
  revert_to_snapshot-run s u ready run =
      revert_back B s u ready (run-Since (snapshot B s).0 u (snapshot-IsReady s ready) run)

  get_elem?-not :
      (rs : List Revision) (n i : ℕ) (r : Revision)
      → All (λ q. (q.id == n) ≡ false) rs
      → get_elem? rs i ≡ some r
      → (r.id == n) ≡ false
  get_elem?-not [] n i r h e = cc
  get_elem?-not (q ∷ rs) n zero r h e = ground (arith, h.0)
  get_elem?-not (q ∷ rs) n (suc i) r h e = get_elem?-not rs n i r h.1 e

  -- RevertToSnapshot panics on an id that no valid snapshot has.
  pub revert_to_snapshot-unknown :
      (s : StateDb Trie) (revid : ℕ)
      → All (λ r. (r.id == revid) ≡ false) s.valid_revisions
      → revert_to_snapshot B s revid ≡ none
  unfolding revert_to_snapshot
  revert_to_snapshot-unknown s revid h =
      let idx = sort_search (length s.valid_revisions) (reached s.valid_revisions revid) in
      elim (Option-cases (get_elem? s.valid_revisions idx)) [
        | inl out ↦ rw (out, revert_to_snapshot)
        | inr (r, found) ↦
            rw (found, revert_to_snapshot)
              (rw (get_elem?-not s.valid_revisions revid idx r h found))
      ]
