-- ===== src/State/Multi/Rollback.antt =====
-- core/state/multi_statedb.go: RevertToSnapshot of MStateDB. It reverts the StateDB and does not touch
-- the map of the context; where the StateDB loses an object or puts another one in its place, the
-- pointer of the context goes on to hold the first one. `none` is a panic.
use advance_golang.Base.{ℕ, ◌≡◌, refl, ap, ◌∙◌, true, false, Option, none, some}
use advance_golang.Base.{◌==◌, if◌then◌else◌, List, [], ◌∷◌, length, take, drop, get_elem?}
use advance_golang.Base.{inl, inr, Bool-cases, Option-cases, sym}
use advance_golang.Base.Maps.{
  Bytes, bytes_eq_refl, lookup, insert, delete, lookup-insert_self, lookup-delete,
}
use advance_golang.State.Backend.{Backend}
use advance_golang.State.Db.{StateDb, set_error, set_state_object}
use advance_golang.State.Multi.{
  MStateDb, Pointer, own, other, context_object, shared_object, load_shared, multi_get_state_object,
  multi_create_object,
}
use advance_golang.State.Multi.Methods.{multi_exist, multi_read}
use advance_golang.State.Object.{
  StateObject, JournalEntry, create_object_change, reset_object_change, append, set_nonce,
  new_object,
}
use advance_golang.State.Revert.{
  ◌>>=◌, clean, sort_search, reached, revert_entry, revert_loop, journal_revert, revert_to_snapshot,
}
use mathlib.Core.List.{reverse}
use mathlib.Core.Option

module _ {Trie : Type 0} where
  -- The address at which an entry, reverted, removes or replaces the object.
  unfoldable pub replaced : JournalEntry Trie → Option Bytes
  replaced (create_object_change account) = some account
  replaced (reset_object_change prev) = some prev.address
  replaced entry = none

  -- The object stays with the context when the StateDB lets go of it.
  unfoldable pub let_go : MStateDb Trie → Bytes → List (Bytes × Pointer Trie)
  let_go s addr = elim (context_object s addr) [
    | none ↦ s.objects
    | some o ↦ insert addr (other o) s.objects
  ]

  unfoldable pub objects_after : JournalEntry Trie → MStateDb Trie → List (Bytes × Pointer Trie)
  objects_after entry s = elim (replaced entry) [ none ↦ s.objects | some addr ↦ let_go s addr ]

  objects_after-create :
      (s : MStateDb Trie) (addr : Bytes) (o : StateObject Trie)
      → context_object s addr ≡ some o
      → objects_after (create_object_change addr) s ≡ insert addr (other o) s.objects
  unfolding objects_after replaced let_go
  objects_after-create s addr o h = rw (h, let_go) refl

module _ (B : Backend) where
  open B use {Trie, try_get}

  unfoldable pub multi_revert_entry : JournalEntry Trie → MStateDb Trie → Option (MStateDb Trie)
  multi_revert_entry entry s = do
    d ← revert_entry B entry s.stdb
    some (record { stdb = d; objects = objects_after entry s })

  -- The loop of `journal.revert`, over both maps.
  unfoldable pub multi_revert_loop :
      List (JournalEntry Trie) → MStateDb Trie → Option (MStateDb Trie)
  multi_revert_loop [] s = some s
  multi_revert_loop (entry ∷ entries) s = do
    s1 ← multi_revert_entry entry s
    let d = s1.stdb
    multi_revert_loop entries (record s1 { stdb = record d { journal = clean d.journal entry } })

  unfoldable pub multi_journal_revert : MStateDb Trie → ℕ → Option (MStateDb Trie)
  multi_journal_revert s snapshot = do
    s1 ← multi_revert_loop (reverse (drop snapshot s.stdb.journal.entries)) s
    let d = s1.stdb
    let j = d.journal
    some
        (record s1 { stdb = record d { journal = record j { entries = take snapshot j.entries } } })

  unfoldable pub multi_revert_to_snapshot : MStateDb Trie → ℕ → Option (MStateDb Trie)
  multi_revert_to_snapshot s revid =
      let revisions = s.stdb.valid_revisions in
      let idx = sort_search (length revisions) (reached revisions revid) in
      elim (get_elem? revisions idx) [
        | none ↦ none
        | some r ↦
            let reverted = do
              s1 ← multi_journal_revert s r.journal_index
              let d = s1.stdb
              some (record s1 { stdb = record d { valid_revisions = take idx d.valid_revisions } })
            in if r.id == revid then reverted else none
      ]

  -- The StateDB of a result, if there is one.
  abbrev stdb_of : Option (MStateDb Trie) → Option (StateDb Trie)
  stdb_of = Option.map (λ s. s.stdb)

  stdb_of-multi_revert_loop :
      (entries : List (JournalEntry Trie)) (s : MStateDb Trie)
      → stdb_of (multi_revert_loop entries s) ≡ revert_loop B entries s.stdb
  unfolding multi_revert_loop revert_loop multi_revert_entry
  stdb_of-multi_revert_loop [] s = refl
  stdb_of-multi_revert_loop (entry ∷ entries) s =
      elim (Option-cases (revert_entry B entry s.stdb)) [
        | inl h ↦ rw h refl
        | inr (d, h) ↦ rw h (stdb_of-multi_revert_loop entries _)
      ]

  stdb_of-multi_journal_revert :
      (s : MStateDb Trie) (n : ℕ) → stdb_of (multi_journal_revert s n) ≡ journal_revert B s.stdb n
  unfolding multi_journal_revert journal_revert
  stdb_of-multi_journal_revert s n =
      let entries = reverse (drop n s.stdb.journal.entries) in
      rw (sym (stdb_of-multi_revert_loop entries s), journal_revert)
        (elim (Option-cases (multi_revert_loop entries s)) [
          | inl h ↦ rw h refl
          | inr (s1, h) ↦ rw h refl
        ])

  -- RevertToSnapshot of a MStateDB panics where that of its StateDB does, and otherwise leaves its
  -- StateDB as that one leaves it.
  pub multi_revert_to_snapshot-revert_to_snapshot :
      (s : MStateDb Trie) (revid : ℕ)
      → Option.map (λ (r : MStateDb Trie). r.stdb) (multi_revert_to_snapshot s revid)
        ≡ revert_to_snapshot B s.stdb revid
  unfolding multi_revert_to_snapshot revert_to_snapshot
  multi_revert_to_snapshot-revert_to_snapshot s revid =
      let revisions = s.stdb.valid_revisions in
      let idx = sort_search (length revisions) (reached revisions revid) in
      elim (Option-cases (get_elem? revisions idx)) [
        | inl h ↦ rw (h, multi_revert_to_snapshot, revert_to_snapshot) refl
        | inr (r, h) ↦
            rw (h, multi_revert_to_snapshot, revert_to_snapshot)
              (elim (Bool-cases (r.id == revid)) [
                | inr e ↦ rw e refl
                | inl e ↦
                    rw (e, sym (stdb_of-multi_journal_revert s r.journal_index))
                      (elim (Option-cases (multi_journal_revert s r.journal_index)) [
                        | inl g ↦ rw g refl
                        | inr (s1, g) ↦ rw g refl
                      ])
              ])
      ]

  -- An account in neither map and not in the trie.
  multi_get_state_object-missing :
      (s : MStateDb Trie) (addr : Bytes)
      → lookup addr s.stdb.state_objects ≡ none
      → lookup addr s.objects ≡ none
      → length (try_get s.stdb.trie addr).0 ≡ 0
      → multi_get_state_object B s addr
        ≡ (record s { stdb = set_error s.stdb (try_get s.stdb.trie addr).1 }, none)
  unfolding multi_get_state_object shared_object load_shared context_object
  multi_get_state_object-missing s addr own_map shared missing =
      rw (own_map, shared, missing, multi_get_state_object, shared_object) refl

  exist_shared :
      (s : MStateDb Trie) (addr : Bytes) (o : StateObject Trie)
      → lookup addr s.stdb.state_objects ≡ none
      → lookup addr s.objects ≡ some (other o)
      → o.deleted ≡ false
      → (multi_exist B s addr).1 ≡ true
  unfolding multi_exist multi_read multi_get_state_object shared_object context_object
  exist_shared s addr o own_map shared alive =
      rw (own_map, shared, alive, multi_exist, multi_read, multi_get_state_object, shared_object)
        refl

  context_object-multi_create_object :
      (s : MStateDb Trie) (addr : Bytes)
      → context_object (multi_create_object B s addr).0 addr ≡ some (multi_create_object B s addr).1
  unfolding context_object multi_create_object set_state_object set_nonce new_object
  context_object-multi_create_object s addr =
      let s1 = (multi_get_state_object B s addr).0 in
      rw (lookup-insert_self addr own s1.objects) (lookup-insert_self addr _ s1.stdb.state_objects)

  journal-multi_create_object :
      (s : MStateDb Trie) (addr : Bytes)
      → (multi_get_state_object B s addr).1 ≡ none
      → (multi_create_object B s addr).0.stdb.journal
        ≡ append (multi_get_state_object B s addr).0.stdb.journal (create_object_change addr)
  unfolding multi_create_object set_state_object
  journal-multi_create_object s addr h =
      ap
        (λ (found : Option (StateObject Trie)).
          append (multi_get_state_object B s addr).0.stdb.journal
            (elim found [ none ↦ create_object_change addr | some o ↦ reset_object_change o ]))
        h

  alive-multi_create_object :
      (s : MStateDb Trie) (addr : Bytes) → (multi_create_object B s addr).1.deleted ≡ false
  unfolding multi_create_object set_nonce new_object
  alive-multi_create_object s addr = refl

  -- Of an account that did not exist, createObject appends the journal entry of a creation, and the
  -- account still exists after the revert of that entry; given that the account was in neither map
  -- and not in the trie.
  pub multi_exist-revert_entry :
      (s : MStateDb Trie) (addr : Bytes)
      → lookup addr s.stdb.state_objects ≡ none
      → lookup addr s.objects ≡ none
      → length (try_get s.stdb.trie addr).0 ≡ 0
      → ((multi_exist B s addr).1 ≡ false)
        × ((multi_create_object B s addr).0.stdb.journal
            ≡ append (multi_get_state_object B s addr).0.stdb.journal (create_object_change addr))
        × ((u : MStateDb Trie) × (multi_revert_entry
                (create_object_change addr)
                (multi_create_object B s addr).0
              ≡ some u)
            × ((multi_exist B u addr).1 ≡ true))
  unfolding multi_exist multi_read multi_revert_entry revert_entry
  multi_exist-revert_entry s addr own_map shared missing =
      let found = multi_get_state_object-missing s addr own_map shared missing in
      let t = (multi_create_object B s addr).0 in
      let newobj = (multi_create_object B s addr).1 in
      let d = t.stdb in
      let u : MStateDb Trie = record {
        stdb = record d {
          state_objects = delete addr d.state_objects;
          state_objects_dirty = delete addr d.state_objects_dirty;
        };
        objects = insert addr (other newobj) t.objects;
      } in
      let gone : lookup addr u.stdb.state_objects ≡ none =
        lookup-delete addr addr d.state_objects ∙ rw (bytes_eq_refl addr) refl in
      let left : objects_after (create_object_change addr) t ≡ u.objects =
        objects_after-create t addr newobj (context_object-multi_create_object s addr) in
      (
        ap
            (λ (p : MStateDb Trie × Option (StateObject Trie)). elim p.1 [
              | none ↦ false
              | some o ↦ true
            ])
            found,
        journal-multi_create_object s addr (ap (λ p. p.1) found),
        (
          u,
          ap (λ m. some (record { stdb = u.stdb; objects = m })) left,
          exist_shared u addr newobj gone (lookup-insert_self addr (other newobj) t.objects)
              (alive-multi_create_object s addr),
        ),
      )
