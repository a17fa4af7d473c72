-- ===== src/State/Commit/Missing.antt =====
-- core/state/statedb.go: Finalise on an address that the journal marks and that has no account.
use advance_golang.Base.{◌≡◌, ap, ◌∙◌, Bool, none, arith}
use advance_golang.Base.{List, ◌∷◌, Option-cases, inl, inr, map}
use advance_golang.Base.Int.{ℤ}
use advance_golang.Base.Maps.{Bytes, lookup}
use advance_golang.State.Backend.{Backend}
use advance_golang.State.Commit.{dirty_object, finalise_loop, finalise, intermediate_root}
use advance_golang.State.Db.{StateDb, get_state_object}
use advance_golang.State.View.{peek, observe, get_state_object-peek}

module _ (B : Backend) where
  open B use {Trie}

  unseen-peek : (s : StateDb Trie) (a : Bytes) → (observe B s).accounts a ≡ none → peek B s a ≡ none
  unseen-peek s a h = elim (Option-cases (peek B s a)) [
    | inl absent ↦ absent
    | inr (o, present) ↦ ground arith
  ]

  loop_missing :
      (delete_empty : Bool) (s : StateDb Trie) (addr : Bytes) (addrs : List Bytes)
      → lookup addr s.state_objects ≡ none
      → (get_state_object B s addr).1 ≡ none
      → finalise_loop B delete_empty (addr ∷ addrs) s ≡ none
  unfolding finalise_loop dirty_object
  loop_missing delete_empty s addr addrs gone nil =
      let loaded : dirty_object B s addr ≡ get_state_object B s addr = rw (gone, dirty_object) in
      rw (loaded, finalise_loop) (rw nil)

  -- Finalise and IntermediateRoot panic when the journal marks an address, the first one that they
  -- come to, that has no account to be seen and no object in memory: the object that they look for
  -- is nil.
  pub finalise-missing :
      (delete_empty : Bool) (s : StateDb Trie) (addr : Bytes) (n : ℤ) (more : List (Bytes × ℤ))
      → s.journal.dirties ≡ (addr, n) ∷ more
      → lookup addr s.state_objects ≡ none
      → (observe B s).accounts addr ≡ none
      → (finalise B delete_empty s ≡ none) × (intermediate_root B delete_empty s ≡ none)
  unfolding finalise intermediate_root
  finalise-missing delete_empty s addr n more marked gone unseen =
      let address : Bytes × ℤ → Bytes = λ e. e.0 in
      let nil : (get_state_object B s addr).1 ≡ none =
        get_state_object-peek B s addr ∙ unseen-peek s addr unseen in
      let loop : finalise_loop B delete_empty (map address s.journal.dirties) s ≡ none =
        ap (λ (l : List (Bytes × ℤ)). finalise_loop B delete_empty (map address l) s) marked
        ∙ loop_missing delete_empty s addr (map address more) gone nil in
      let panics : finalise B delete_empty s ≡ none = rw (loop, finalise) in (panics, rw panics)
