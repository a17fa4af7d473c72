-- ===== src/State/Multi/Settle.antt =====
-- core/state/multi_statedb.go: updateStateObject, deleteStateObject, Finalise and IntermediateRoot of
-- MStateDB. The goroutines take turns at the trie, which is that of the StateDB. An object is changed
-- through the pointer of the StateDB, which an `own` pointer of the context follows.
use mathlib.Core.Path.{subst}
use advance_golang.Base.{◌≡◌, refl, ◌≢◌, Bool, true, ◌&&◌, ◌||◌, Option, none, some}
use advance_golang.Base.{
  if◌then◌else◌, List, [], ◌∷◌, map, inl, inr, Option-cases, All, Bool-cases, arith, sym,
}
use advance_golang.Base.Int.{ℤ}
use advance_golang.Base.Maps.{Bytes, lookup, insert, lookup-insert}
use advance_golang.State.Backend.{DbError, Backend}
use advance_golang.State.Commit.{
  clear_journal_and_refund, update_root, update_state_object, delete_state_object, dirty_object,
  finalise_object, finalise_loop, finalise,
}
use advance_golang.State.Db.{StateDb, set_error, write_back}
use advance_golang.State.Multi.{MStateDb}
use advance_golang.State.Object.{StateObject, is_empty}
use advance_golang.State.Revert.{◌>>=◌}
use mathlib.Core.Option

module _ (B : Backend) where
  open B use {Trie, try_update, try_delete, hash_of, encode_account}

  -- An account that cannot be encoded is a panic.
  unfoldable pub multi_update_state_object :
      MStateDb Trie → StateObject Trie → Option (MStateDb Trie)
  multi_update_state_object s o = elim (encode_account o.account) [
    | none ↦ none
    | some enc ↦
        let d = s.stdb in
        let (t, e) = try_update d.trie o.address enc in
        some (record s { stdb = set_error (record d { trie = t }) e })
  ]

  unfoldable pub multi_delete_state_object :
      MStateDb Trie → Bytes → StateObject Trie → MStateDb Trie
  multi_delete_state_object s addr o =
      let d = write_back s.stdb addr (record o { deleted = true }) in
      let (t, e) = try_delete d.trie o.address in
      record s { stdb = set_error (record d { trie = t }) e }

  unfoldable pub multi_finalise_object :
      Bool → MStateDb Trie → Bytes → StateObject Trie → Option (MStateDb Trie)
  multi_finalise_object delete_empty s addr o =
      let o' = update_root B o in
      let updated = multi_update_state_object (record s { stdb = write_back s.stdb addr o' }) o' in
      if o.suicided || (delete_empty && is_empty B o)
      then some (multi_delete_state_object s addr o)
      else updated

  -- The loop of `Finalise`: an address without an object is passed over.
  unfoldable pub multi_finalise_loop : Bool → List Bytes → MStateDb Trie → Option (MStateDb Trie)
  multi_finalise_loop delete_empty [] s = some s
  multi_finalise_loop delete_empty (addr ∷ addrs) s = elim (lookup addr s.stdb.state_objects) [
    | none ↦ multi_finalise_loop delete_empty addrs s
    | some o ↦ do
      s1 ← multi_finalise_object delete_empty s addr o
      let d = s1.stdb
      let marked = insert addr tt d.state_objects_dirty
      multi_finalise_loop delete_empty addrs
          (record s1 { stdb = record d { state_objects_dirty = marked } })
  ]

  unfoldable pub multi_finalise : Bool → MStateDb Trie → Option (MStateDb Trie)
  multi_finalise delete_empty s = do
    s1 ← multi_finalise_loop delete_empty (map (λ (e : Bytes × ℤ). e.0) s.stdb.journal.dirties) s
    some (record s1 { stdb = clear_journal_and_refund s1.stdb })

  unfoldable pub multi_intermediate_root : Bool → MStateDb Trie → Option (MStateDb Trie × Bytes)
  multi_intermediate_root delete_empty s = do
    s1 ← multi_finalise delete_empty s
    some (s1, hash_of s1.stdb.trie)

  -- Every address has an object.
  abbrev pub AllHeld : List Bytes → List (Bytes × StateObject Trie) → Type 0
  AllHeld addrs m = All (λ addr. lookup addr m ≢ none) addrs

  AllHeld-insert :
      (addrs : List Bytes) (m : List (Bytes × StateObject Trie)) (a : Bytes) (o : StateObject Trie)
      → AllHeld addrs m
      → AllHeld addrs (insert a o m)
  AllHeld-insert [] m a o h = tt
  AllHeld-insert (addr ∷ addrs) m a o h =
      (ground (arith, lookup-insert a addr o m, h.0), AllHeld-insert addrs m a o h.1)

  pub set_error_objects :
      (s : StateDb Trie) (e : Option DbError) → (set_error s e).state_objects ≡ s.state_objects
  unfolding set_error
  set_error_objects s e = elim (Option-cases s.db_err) [
    | inl h ↦ rw (h, set_error) refl
    | inr (x, h) ↦ rw (h, set_error) refl
  ]

  -- Every address has an object in the result, if there is one.
  abbrev KeepsHeld : List Bytes → Option (MStateDb Trie) → Type 0
  KeepsHeld addrs none = Unit
  KeepsHeld addrs (some s) = AllHeld addrs s.stdb.state_objects

  written-KeepsHeld :
      (addrs : List Bytes) (s : MStateDb Trie) (a : Bytes) (o : StateObject Trie) (t : Trie)
      (e : Option DbError)
      → AllHeld addrs s.stdb.state_objects
      → KeepsHeld addrs
          (some (record s { stdb = set_error (record (write_back s.stdb a o) { trie = t }) e }))
  written-KeepsHeld addrs s a o t e held =
      subst (AllHeld addrs)
        (sym (set_error_objects (record (write_back s.stdb a o) { trie = t }) e))
        (AllHeld-insert addrs s.stdb.state_objects a o held)

  multi_finalise_object-KeepsHeld :
      (delete_empty : Bool) (addrs : List Bytes) (s : MStateDb Trie) (a : Bytes)
      (o : StateObject Trie)
      → AllHeld addrs s.stdb.state_objects
      → KeepsHeld addrs (multi_finalise_object delete_empty s a o)
  unfolding multi_finalise_object multi_delete_state_object multi_update_state_object
  multi_finalise_object-KeepsHeld delete_empty addrs s a o held =
      elim (Bool-cases (o.suicided || (delete_empty && is_empty B o))) [
        | inl h ↦ rw (h, multi_finalise_object) (written-KeepsHeld addrs s a _ _ _ held)
        | inr h ↦
            rw (h, multi_finalise_object)
              (elim (Option-cases (encode_account (update_root B o).account)) [
                | inl e ↦ rw (e, multi_update_state_object) tt
                | inr (enc, e) ↦
                    rw (e, multi_update_state_object) (written-KeepsHeld addrs s a _ _ _ held)
              ])
      ]

  stdb_of-multi_finalise_object :
      (delete_empty : Bool) (s : MStateDb Trie) (addr : Bytes) (o : StateObject Trie)
      → Option.map (λ (r : MStateDb Trie). r.stdb) (multi_finalise_object delete_empty s addr o)
        ≡ finalise_object B delete_empty s.stdb addr o
  unfolding multi_finalise_object finalise_object multi_update_state_object update_state_object
      multi_delete_state_object delete_state_object
  stdb_of-multi_finalise_object delete_empty s addr o =
      elim (Bool-cases (o.suicided || (delete_empty && is_empty B o))) [
        | inl h ↦ rw h refl
        | inr h ↦ rw h (elim (Option-cases (encode_account (update_root B o).account)) [
          | inl e ↦ rw (e, multi_update_state_object, update_state_object) refl
          | inr (enc, e) ↦ rw (e, multi_update_state_object, update_state_object) refl
        ])
      ]

  dirty_object-held :
      (d : StateDb Trie) (addr : Bytes) (o : StateObject Trie)
      → lookup addr d.state_objects ≡ some o
      → dirty_object B d addr ≡ (d, some o)
  unfolding dirty_object
  dirty_object-held d addr o h = rw (h, dirty_object) refl

  loops_agree :
      (delete_empty : Bool) (addrs : List Bytes) (s : MStateDb Trie)
      → AllHeld addrs s.stdb.state_objects
      → Option.map (λ (r : MStateDb Trie). r.stdb) (multi_finalise_loop delete_empty addrs s)
        ≡ finalise_loop B delete_empty addrs s.stdb
  unfolding multi_finalise_loop finalise_loop
  loops_agree delete_empty [] s h = refl
  loops_agree delete_empty (addr ∷ addrs) s h =
      elim (Option-cases (lookup addr s.stdb.state_objects)) [
        | inl missing ↦ absurd (h.0 missing)
        | inr (o, there) ↦
            let same = dirty_object-held s.stdb addr o there in
            rw (there, same, multi_finalise_loop, finalise_loop)
              (rw (same, sym (stdb_of-multi_finalise_object delete_empty s addr o))
                (elim (Option-cases (multi_finalise_object delete_empty s addr o)) [
                  | inl g ↦ rw g refl
                  | inr (s1, g) ↦ rw g (
                      loops_agree delete_empty addrs _ (
                        subst (KeepsHeld addrs) g
                          (multi_finalise_object-KeepsHeld delete_empty addrs s addr o h.1)))
                ]))
      ]

  -- Where the StateDB has an object at every address that its journal marks, Finalise of a MStateDB
  -- panics where that of its StateDB does, and otherwise leaves its StateDB as that one leaves it.
  pub multi_finalise-finalise :
      (delete_empty : Bool) (s : MStateDb Trie)
      → AllHeld (map (λ (e : Bytes × ℤ). e.0) s.stdb.journal.dirties) s.stdb.state_objects
      → Option.map (λ (r : MStateDb Trie). r.stdb) (multi_finalise delete_empty s)
        ≡ finalise B delete_empty s.stdb
  unfolding multi_finalise finalise
  multi_finalise-finalise delete_empty s h =
      let addrs = map (λ (e : Bytes × ℤ). e.0) s.stdb.journal.dirties in
      rw (sym (loops_agree delete_empty addrs s h))
        (elim (Option-cases (multi_finalise_loop delete_empty addrs s)) [
          | inl g ↦ rw g refl
          | inr (s1, g) ↦ rw g refl
        ])
