-- ===== src/State/Locks/Phases.antt =====
-- core/state/multi_statedb.go: what requestAndLock and the invariant say of a transaction in a known
-- phase.
use advance_golang.Base.{Bool, true, false, some, ◌≡◌, ◌≢◌, ◌⊎◌, sym, ap, ◌∙◌, arith}
use advance_golang.Base.{if◌then◌else◌, List, [], ◌∷◌, ◌++◌, Bool-cases, inl, inr}
use advance_golang.Base.Maps.{Bytes, bytes_eq, bytes_eq_iff, lookup, insert, lookup-insert}
use advance_golang.Types.{zero_hash}
use advance_golang.State.Locks.Owners.{distinct, holds, held, is_live, IsSound}
use advance_golang.State.Locks.{
  MContext, or_else, locked_by, queue_of, contains, returned, to_wait, enqueue, lock_account,
  checked, request_and_lock, Phase, running, waiting, taken, releasing, finished, System,
}

pub returned_cases :
    (ctx c : MContext) (h a : Bytes)
    → request_and_lock ctx h a ≡ returned c
    → (c ≡ ctx) ⊎ ((locked_by ctx a ≡ zero_hash) × (c ≡ lock_account ctx h a))
unfolding request_and_lock checked
returned_cases ctx c h a e = ground (arith, bytes_eq_iff (locked_by ctx a) zero_hash)

pub to_wait_cases :
    (ctx c : MContext) (h a : Bytes) → request_and_lock ctx h a ≡ to_wait c → c ≡ enqueue ctx h a
unfolding request_and_lock checked
to_wait_cases ctx c h a e = ground arith

unfoldable pub is_finished : Phase → Bool
is_finished finished = true
is_finished running = false
is_finished (waiting a) = false
is_finished (taken a) = false
is_finished (releasing rest) = false

-- A transaction that is not finished has no zero hash.
pub finished-real :
    (s : System) (h : Bytes)
    → IsSound s
    → is_finished (s.phase h) ≡ false
    → bytes_eq h zero_hash ≡ false
unfolding is_finished
finished-real s h sound alive = elim (Bool-cases (bytes_eq h zero_hash)) [
  | inr other ↦ other
  | inl same ↦
      let over : s.phase h ≡ finished =
        ap s.phase ((bytes_eq_iff h zero_hash).0 same) ∙ sound.nobody in
      absurd (let both : is_finished finished ≡ false = ap is_finished (sym over) ∙ alive in cc)
]

pub queue_of-enqueue :
    (ctx : MContext) (h a g : Bytes)
    → queue_of (enqueue ctx h a) g
      ≡ (if bytes_eq h g then queue_of ctx h ++ (a ∷ []) else queue_of ctx g)
queue_of-enqueue ctx h a g =
    ap (or_else []) (lookup-insert h g (queue_of ctx h ++ (a ∷ [])) ctx.tx_lock_queue)
    ∙ ground arith

-- A mark or a mutex that is written.
pub mark-insert :
    (a b h : Bytes) (marks : List (Bytes × Bytes))
    → or_else zero_hash (lookup b (insert a h marks))
      ≡ (if bytes_eq a b then h else or_else zero_hash (lookup b marks))
mark-insert a b h marks = ap (or_else zero_hash) (lookup-insert a b h marks) ∙ ground arith

pub same_phase :
    (s : System) (h g : Bytes) (p : Phase)
    → s.phase h ≡ p
    → s.phase g ≡ (if bytes_eq h g then p else s.phase g)
same_phase s h g p e = ground (arith, bytes_eq_iff h g)

pub same_queue :
    (ctx : MContext) (h g : Bytes)
    → queue_of ctx g ≡ (if bytes_eq h g then queue_of ctx h else queue_of ctx g)
same_queue ctx h g = ground (arith, bytes_eq_iff h g)

-- What the invariant says of a transaction in a known phase.
module _ (s : System) (h : Bytes) (p : Phase) (sound : IsSound s) (phase : s.phase h ≡ p) where
  pub held_in : held s h ≡ holds p (queue_of s.ctx h)
  held_in = ap (λ (x : Phase). holds x (queue_of s.ctx h)) phase

  pub owned_in :
      (b : Bytes)
      → contains b (holds p (queue_of s.ctx h)) ≡ true
      → lookup b s.ctx.account_lock ≡ some (some h)
  owned_in b inside = sound.owned h b (ap (contains b) held_in ∙ inside)

  pub apart_in : distinct (holds p (queue_of s.ctx h)) ≡ true
  apart_in = ap distinct (sym held_in) ∙ sound.apart h

  pub quick_in :
      (b : Bytes)
      → is_live p ≡ true
      → locked_by s.ctx b ≡ h
      → contains b (holds p (queue_of s.ctx h)) ≡ true
  quick_in b live mark =
      ap (contains b) (sym held_in) ∙ sound.quick h b (ap is_live phase ∙ live) mark

  -- A mutex that is not locked by it is not in its queue.
  pub not_owned :
      (b : Bytes)
      → lookup b s.ctx.account_lock ≢ some (some h)
      → contains b (holds p (queue_of s.ctx h)) ≡ false
  not_owned b free = elim (Bool-cases (contains b (holds p (queue_of s.ctx h)))) [
    | inl inside ↦ absurd (free (owned_in b inside))
    | inr outside ↦ outside
  ]

  pub real_in : is_finished p ≡ false → bytes_eq h zero_hash ≡ false
  real_in alive = finished-real s h sound (ap is_finished phase ∙ alive)
