-- ===== src/State/Revert.antt =====
-- core/state/journal.go: the revert methods of the entries and of the journal; and
-- core/state/statedb.go: Snapshot and RevertToSnapshot. `none` is a panic.
use advance_golang.Base.{ℕ, zero, suc, ◌+◌, ◌/◌, Bool, false, Option, none, some}
use advance_golang.Base.{
  ltb, leb, ◌==◌, if◌then◌else◌, List, [], ◌∷◌, ◌++◌, length, take, drop, get_elem?,
}
use advance_golang.Base.Int.{ℤ, pos, ◌-ℤ◌, is_zero}
use advance_golang.Base.Maps.{Bytes, insert, delete}
use advance_golang.State.Backend.{Backend}
use advance_golang.State.Db.{Revision, StateDb, set_state_object, write_back, get_state_object}
use advance_golang.State.Object.{
  StateObject, JournalEntry, create_object_change, reset_object_change, suicide_change,
  balance_change, nonce_change, storage_change, pdx_storage_change, code_change, refund_change,
  add_preimage_change, touch_change, Journal, dirtied, count_of, set_balance, set_nonce, set_code,
  set_state, set_pdx_state,
}
use advance_golang.Types.{bytes_to_hash}
use mathlib.Core.List.{reverse}

infixl 5 ◌>>=◌
abbrev pub ◌>>=◌ {ℓ κ} : {A : Type ℓ} {B : Type κ} → Option A → (A → Option B) → Option B
none >>= f = none
some a >>= f = f a

-- `if j.dirties[*addr]--; j.dirties[*addr] == 0 { delete(j.dirties, *addr) }`
unfoldable pub undirty : List (Bytes × ℤ) → Bytes → List (Bytes × ℤ)
undirty m addr =
    let n = count_of m addr -ℤ pos 1 in if is_zero n then delete addr m else insert addr n m

unfoldable pub clean : {Trie : Type 0} → Journal Trie → JournalEntry Trie → Journal Trie
clean j entry = elim (dirtied entry) [
  | none ↦ j
  | some addr ↦ record j { dirties = undirty j.dirties addr }
]

-- sort.Search of the standard library: `i, j := 0, n; for i < j { … }`, in rounds left. Each round
-- shortens the range, so `n` rounds are enough.
unfoldable pub search_loop : ℕ → (ℕ → Bool) → ℕ → ℕ → ℕ
search_loop zero f i j = i
search_loop (suc rounds) f i j =
    let h = (i + j) / 2 in
    let right = search_loop rounds f (h + 1) j in
    let left = search_loop rounds f i h in if ltb i j then (if f h then left else right) else i

unfoldable pub sort_search : ℕ → (ℕ → Bool) → ℕ
sort_search n f = search_loop n f 0 n

-- `self.validRevisions[i].id >= revid`; the search asks within the length only.
abbrev pub reached : List Revision → ℕ → ℕ → Bool
reached revisions revid i = elim (get_elem? revisions i) [ none ↦ false | some r ↦ leb revid r.id ]

module _ (B : Backend) where
  open B use {Trie}

  -- `s.getStateObject(addr).set…(…)`: a nil object is a nil pointer dereference.
  unfoldable pub at_object :
      StateDb Trie → Bytes → (StateObject Trie → StateObject Trie) → Option (StateDb Trie)
  at_object s addr f =
      let (s1, found) = get_state_object B s addr in
      elim found [ none ↦ none | some o ↦ some (write_back s1 addr (f o)) ]

  unfoldable pub revert_entry : JournalEntry Trie → StateDb Trie → Option (StateDb Trie)
  revert_entry (create_object_change account) s = some (record s {
    state_objects = delete account s.state_objects;
    state_objects_dirty = delete account s.state_objects_dirty;
  })
  revert_entry (reset_object_change prev) s = some (set_state_object s prev)
  revert_entry (suicide_change account prev prevbalance) s =
      let (s1, found) = get_state_object B s account in
      elim found [
        | none ↦ some s1
        | some o ↦
            let restored = set_balance (record o { suicided = prev }) prevbalance in
            some (write_back s1 account restored)
      ]
  revert_entry (balance_change account prev) s = at_object s account (λ o. set_balance o prev)
  revert_entry (nonce_change account prev) s = at_object s account (λ o. set_nonce o prev)
  revert_entry (storage_change account key prevalue) s =
      at_object s account (λ o. set_state o key prevalue)
  revert_entry (pdx_storage_change account key prevalue) s =
      at_object s account (λ o. set_pdx_state o key prevalue)
  revert_entry (code_change account prevcode prevhash) s =
      at_object s account (λ o. set_code o (bytes_to_hash prevhash) prevcode)
  revert_entry (refund_change prev) s = some (record s { refund = prev })
  revert_entry (add_preimage_change hash) s =
      some (record s { preimages = delete hash s.preimages })
  revert_entry (touch_change account) s = some s

  -- The loop of `journal.revert`, over the entries from the last one back.
  unfoldable pub revert_loop : List (JournalEntry Trie) → StateDb Trie → Option (StateDb Trie)
  revert_loop [] s = some s
  revert_loop (entry ∷ entries) s = do
    s1 ← revert_entry entry s
    revert_loop entries (record s1 { journal = clean s1.journal entry })

  unfoldable pub journal_revert : StateDb Trie → ℕ → Option (StateDb Trie)
  journal_revert s snapshot = do
    s1 ← revert_loop (reverse (drop snapshot s.journal.entries)) s
    let j = s1.journal
    some (record s1 { journal = record j { entries = take snapshot j.entries } })

  unfoldable pub snapshot : StateDb Trie → StateDb Trie × ℕ
  snapshot s =
      let id = s.next_revision_id in
      let revision : Revision = record { id = id; journal_index = length s.journal.entries } in
      (
        record s {
          next_revision_id = id + 1;
          valid_revisions = s.valid_revisions ++ (revision ∷ []);
        },
        id,
      )

  unfoldable pub revert_to_snapshot : StateDb Trie → ℕ → Option (StateDb Trie)
  revert_to_snapshot s revid =
      let idx = sort_search (length s.valid_revisions) (reached s.valid_revisions revid) in
      elim (get_elem? s.valid_revisions idx) [
        | none ↦ none
        | some r ↦
            let reverted = do
              s1 ← journal_revert s r.journal_index
              some (record s1 { valid_revisions = take idx s1.valid_revisions })
            in if r.id == revid then reverted else none
      ]
