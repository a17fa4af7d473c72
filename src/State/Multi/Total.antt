-- ===== src/State/Multi/Total.antt =====
-- core/state/multi_statedb.go: Finalise of a MStateDB with the codec of accounts never panics.
use advance_golang.Base.{
  ◌≡◌, refl, sym, ◌∙◌, Bool, true, ◌&&◌, ◌||◌, Bool-cases, Option-cases, inl, inr, Option, none,
  some, List, [], ◌∷◌, map, All,
}
use advance_golang.Base.Int.{ℤ}
use advance_golang.Base.Maps.{Bytes, bytes_eq, lookup, insert}
use advance_golang.State.Backend.{DbError, Backend}
use advance_golang.State.Codec.{with_codec}
use advance_golang.State.Codec.Accounts.{IsCredit, encode_account-IsCredit}
use advance_golang.State.Commit.{update_root, clear_journal_and_refund}
use advance_golang.State.Commit.Data.{balance-update_root}
use advance_golang.State.Db.{set_error, write_back}
use advance_golang.State.Multi.{MStateDb}
use advance_golang.State.Multi.Settle.{
  multi_finalise_object, multi_delete_state_object, multi_update_state_object, multi_finalise_loop,
  multi_finalise, set_error_objects,
}
use advance_golang.State.Object.{StateObject, new_journal, is_empty}
use mathlib.Core.Path.{subst}

-- No object of the map has a negative balance.
abbrev pub AllCredit : {Trie : Type 0} → List (Bytes × StateObject Trie) → Type 0
AllCredit m = All (λ e. IsCredit e.1.account) m

insert-AllCredit :
    {Trie : Type 0} (a : Bytes) (o : StateObject Trie) (m : List (Bytes × StateObject Trie))
    → IsCredit o.account
    → AllCredit m
    → AllCredit (insert a o m)
unfolding insert
insert-AllCredit a o [] credit h = (credit, tt)
insert-AllCredit a o (e ∷ m) credit h = elim (Bool-cases (bytes_eq e.0 a)) [
  | inl same ↦ rw same (credit, h.1)
  | inr other ↦ rw other (h.0, insert-AllCredit a o m credit h.1)
]

abbrev AtCredit : {Trie : Type 0} → Option (StateObject Trie) → Type 0
AtCredit none = Unit
AtCredit (some o) = IsCredit o.account

lookup-AllCredit :
    {Trie : Type 0} (a : Bytes) (o : StateObject Trie) (m : List (Bytes × StateObject Trie))
    → lookup a m ≡ some o
    → AllCredit m
    → IsCredit o.account
unfolding lookup
lookup-AllCredit a o [] there h = cc
lookup-AllCredit a o (e ∷ m) there h = elim (Bool-cases (bytes_eq e.0 a)) [
  | inl same ↦ let found : some e.1 ≡ some o = rw same at there in subst (AtCredit) found h.0
  | inr other ↦ lookup-AllCredit a o m (rw other at there) h.1
]

module _ (B : Backend) where
  open B use {Trie, try_update, try_delete}

  written-AllCredit :
      (s : MStateDb Trie) (a : Bytes) (o : StateObject Trie) (t : Trie) (e : Option DbError)
      → IsCredit o.account
      → AllCredit s.stdb.state_objects
      → AllCredit (set_error (record (write_back s.stdb a o) { trie = t }) e).state_objects
  written-AllCredit s a o t e credit h =
      subst AllCredit (sym (set_error_objects B (record (write_back s.stdb a o) { trie = t }) e))
        (insert-AllCredit a o s.stdb.state_objects credit h)

  multi_finalise_object-total :
      (delete_empty : Bool) (s : MStateDb Trie) (a : Bytes) (o : StateObject Trie)
      → IsCredit o.account
      → AllCredit s.stdb.state_objects
      → (r : MStateDb Trie) × (multi_finalise_object (with_codec B) delete_empty s a o ≡ some r)
        × AllCredit r.stdb.state_objects
  unfolding multi_finalise_object multi_update_state_object multi_delete_state_object
  multi_finalise_object-total delete_empty s a o credit h =
      elim (Bool-cases (o.suicided || (delete_empty && is_empty (with_codec B) o))) [
        | inl gone ↦
            rw (gone, multi_finalise_object)
              (_, refl, written-AllCredit s a (record o { deleted = true }) _ _ credit h)
        | inr stays ↦
            let o' = update_root (with_codec B) o in
            let credit' : IsCredit o'.account =
              (credit.0, balance-update_root (with_codec B) o ∙ credit.1) in
            let (enc, written) = encode_account-IsCredit o'.account credit' in
            rw (stays, multi_finalise_object)
              (rw (written, multi_update_state_object)
                (_, refl, written-AllCredit s a o' _ _ credit' h))
      ]

  multi_finalise_loop-total :
      (delete_empty : Bool) (addrs : List Bytes) (s : MStateDb Trie)
      → AllCredit s.stdb.state_objects
      → (r : MStateDb Trie) × (multi_finalise_loop (with_codec B) delete_empty addrs s ≡ some r)
  unfolding multi_finalise_loop
  multi_finalise_loop-total delete_empty [] s h = (s, refl)
  multi_finalise_loop-total delete_empty (addr ∷ addrs) s h =
      elim (Option-cases (lookup addr s.stdb.state_objects)) [
        | inl missing ↦
            rw (missing, multi_finalise_loop) (multi_finalise_loop-total delete_empty addrs s h)
        | inr (o, there) ↦
            let (s1, made, h1) =
              multi_finalise_object-total delete_empty s addr o
                (lookup-AllCredit addr o s.stdb.state_objects there h) h in
            rw (there, multi_finalise_loop)
              (rw made (multi_finalise_loop-total delete_empty addrs _ h1))
      ]

  -- Finalise of a MStateDB, with the RLP codec of accounts, never panics, whatever its journal marks,
  -- and leaves an empty journal, no snapshot and no refund; given that no object that it holds has a
  -- negative balance.
  pub multi_finalise_total :
      (delete_empty : Bool) (s : MStateDb Trie)
      → AllCredit s.stdb.state_objects
      → (r : MStateDb Trie) × (multi_finalise (with_codec B) delete_empty s ≡ some r)
        × (r.stdb.journal ≡ new_journal)
        × (r.stdb.valid_revisions ≡ [])
        × (r.stdb.refund ≡ 0)
  unfolding multi_finalise clear_journal_and_refund
  multi_finalise_total delete_empty s h =
      let addrs = map (λ (e : Bytes × ℤ). e.0) s.stdb.journal.dirties in
      let (s1, made) = multi_finalise_loop-total delete_empty addrs s h in
      rw made (_, refl, refl, refl, refl)
