-- ===== src/State/Locks/Exclusion.antt =====
-- core/state/multi_statedb.go: an account is used by one transaction at a time.
use advance_golang.Base.{true, some, ◌≡◌, ◌≢◌, ◌⊎◌, refl, sym, ap, ◌∙◌, arith}
use advance_golang.Base.{[], Bool-cases, inl, inr}
use mathlib.Core.Path.{subst}
use advance_golang.Base.Maps.{Bytes, bytes_eq, bytes_eq_iff, bytes_eq_refl, lookup}
use advance_golang.Types.{zero_hash}
use advance_golang.State.Locks.Owners.{distinct, holds, held, is_live, IsSound, Moves-IsSound}
use advance_golang.State.Locks.{
  Step, locks, waits, takes, notes, unlocks, releases, finishes, Reach, here, later, start,
  MContext, locked_by, queue_of, contains, running, waiting, taken, releasing, finished, System,
  set_phase,
}
use advance_golang.State.Locks.Phases.{returned_cases, to_wait_cases, owned_in, quick_in}
use advance_golang.State.Locks.Moves.{
  lock_account-Moves, enqueue-Moves, takes-Moves, notes-Moves, releases-Moves, unlocks-Moves,
  finishes-Moves,
}

Step-IsSound : (s t : System) → Step s t → IsSound s → IsSound t
Step-IsSound s _ (locks h a ctx run e) sound = elim (returned_cases s.ctx ctx h a e) [
  | inl same ↦ subst (λ (c : MContext). IsSound (record s { ctx = c })) (sym same) sound
  | inr free ↦
      subst (λ (c : MContext). IsSound (record s { ctx = c })) (sym free.1)
        (Moves-IsSound s _ h running _ (lock_account-Moves s h a sound run free.0) sound)
]
Step-IsSound s _ (waits h a ctx run e) sound =
    subst (λ (c : MContext). IsSound (record { ctx = c; phase = set_phase s.phase h (waiting a) }))
      (sym (to_wait_cases s.ctx ctx h a e))
      (Moves-IsSound s _ h (waiting a) _ (enqueue-Moves s h a sound run) sound)
Step-IsSound s _ (takes h a at_phase free) sound =
    Moves-IsSound s _ h (taken a) _ (takes-Moves s h a sound at_phase free) sound
Step-IsSound s _ (notes h a at_phase) sound =
    Moves-IsSound s _ h running _ (notes-Moves s h a sound at_phase) sound
Step-IsSound s _ (unlocks h add_tx run) sound =
    Moves-IsSound s _ h _ [] (unlocks-Moves s h zero_hash sound add_tx run) sound
Step-IsSound s _ (releases h a addrs at_phase) sound =
    Moves-IsSound s _ h (releasing addrs) _ (releases-Moves s h a sound addrs at_phase) sound
Step-IsSound s _ (finishes h at_phase) sound =
    Moves-IsSound s _ h finished _ (finishes-Moves s h zero_hash sound at_phase) sound

start-held : (h : Bytes) → held start h ≡ []
unfolding holds lookup
start-held h = elim (Bool-cases (bytes_eq zero_hash h)) [
  | inl same ↦ rw same refl
  | inr other ↦ rw other refl
]

start_live : (h : Bytes) → is_live (start.phase h) ≡ true → zero_hash ≢ h
unfolding is_live
start_live h live same = ground (arith, bytes_eq_iff zero_hash h)

start-IsSound : IsSound start
unfolding lookup contains distinct
start-IsSound = record {
  owned = λ h a inside. absurd (let both = ap (contains a) (sym (start-held h)) ∙ inside in cc);
  marked = λ a o lock zero_mark. cc;
  apart = λ h. ap distinct (start-held h);
  quick = λ h a live mark. absurd (start_live h live mark);
  nobody = rw (bytes_eq_refl zero_hash) refl;
  awaited = λ h a e. ground arith;
  got = λ h a e. ground arith;
}

-- The invariant of all that the transactions can reach: a mutex is locked by the transaction that
-- has the account in its queue, unless it waits for it, and by no other; a transaction whose hash
-- marks an account has it in its queue until it unlocks.
pub Reach-IsSound : (s : System) → Reach s → IsSound s
Reach-IsSound _ here = start-IsSound
Reach-IsSound _ (later s t reach step) = Step-IsSound s t step (Reach-IsSound s reach)

-- A transaction uses an account from the return of requestAndLock until UnLockAccounts: it is
-- running, and the account is in its queue or marked with its hash.
unfoldable pub Uses : System → Bytes → Bytes → Type 0
Uses s h a =
    (s.phase h ≡ running) × ((contains a (queue_of s.ctx h) ≡ true) ⊎ (locked_by s.ctx a ≡ h))

Uses-owner :
    (s : System) (h a : Bytes)
    → IsSound s
    → Uses s h a
    → lookup a s.ctx.account_lock ≡ some (some h)
unfolding Uses holds is_live
Uses-owner s h a sound (run, inl queued) = owned_in s h running sound run a queued
Uses-owner s h a sound (run, inr mark) =
    owned_in s h running sound run a (quick_in s h running sound run a refl mark)

-- Two transactions never use the same account at the same time, in whatever order the goroutines
-- take their steps; given that no hash is run twice.
pub Uses-exclusive : (s : System) (g h a : Bytes) → Reach s → Uses s g a → Uses s h a → g ≡ h
Uses-exclusive s g h a reach first second =
    let sound = Reach-IsSound s reach in
    let both = sym (Uses-owner s g a sound first) ∙ Uses-owner s h a sound second in cc
