-- ===== src/State/Commit/Cleared.antt =====
-- core/state/statedb.go: Finalise ends a transaction.
use advance_golang.Base.{ℕ, ◌≡◌, refl, Bool, none, some}
use advance_golang.Base.{Option-cases, inl, inr, map}
use advance_golang.Base.Int.{ℤ}
use advance_golang.Base.Maps.{Bytes}
use advance_golang.State.Backend.{Backend}
use advance_golang.State.Commit.{clear_journal_and_refund, finalise_loop, finalise}
use advance_golang.State.Db.{StateDb}
use advance_golang.State.Object.{new_journal}
use advance_golang.State.Revert.{revert_to_snapshot}
use advance_golang.State.Snapshot.{none-ne-some}
use advance_golang.State.Transactions.{some-inj, revert_to_snapshot-unknown}
use mathlib.Core.Path.{subst}

module _ (B : Backend) where
  open B use {Trie}

  clear_revert :
      (s : StateDb Trie) (revid : ℕ)
      → revert_to_snapshot B (clear_journal_and_refund s) revid ≡ none
  clear_revert s revid =
      revert_to_snapshot-unknown B (clear_journal_and_refund s) revid
        (unfold clear_journal_and_refund in tt)

  Ended : StateDb Trie → Type 0
  Ended t =
      (t.journal ≡ new_journal)
      × (t.refund ≡ 0)
      × ((revid : ℕ) → revert_to_snapshot B t revid ≡ none)

  -- Finalise leaves an empty journal and no refund, and no snapshot of before can be reverted to;
  -- given that it does not panic.
  pub revert_to_snapshot-finalise :
      (delete_empty : Bool) (s t : StateDb Trie)
      → finalise B delete_empty s ≡ some t
      → (t.journal ≡ new_journal)
        × (t.refund ≡ 0)
        × ((revid : ℕ) → revert_to_snapshot B t revid ≡ none)
  unfolding finalise Ended
  revert_to_snapshot-finalise delete_empty s t h =
      let loop = finalise_loop B delete_empty (map (λ (e : Bytes × ℤ). e.0) s.journal.dirties) s in
      elim (Option-cases loop) [
        | inl panics ↦ absurd (none-ne-some t (rw (panics, finalise) at h))
        | inr (s1, goes) ↦
            let same : clear_journal_and_refund s1 ≡ t = some-inj (rw (goes, finalise) at h) in
            subst Ended same (
              unfold clear_journal_and_refund in refl,
              unfold clear_journal_and_refund in refl,
              λ revid. clear_revert s1 revid,
            )
      ]
