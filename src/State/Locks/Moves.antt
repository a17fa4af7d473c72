-- ===== src/State/Locks/Moves.antt =====
-- core/state/multi_statedb.go: what each step does to the transaction that takes it and to the others.
use advance_golang.Base.{Bool, false, none, some, ◌≡◌, refl, sym, ap, ◌∙◌, arith}
use advance_golang.Base.{List, [], ◌∷◌, ◌++◌}
use advance_golang.Base.Maps.{
  Bytes, bytes_eq, bytes_eq_iff, bytes_eq_refl, lookup, insert, lookup-insert, lookup-delete,
}
use advance_golang.Types.{zero_hash}
use advance_golang.State.Locks.Owners.{
  drop_last, drop_last-append, distinct, contains-append, distinct-append, holds, is_live, IsSound,
  Moves,
}
use advance_golang.State.Locks.{
  or_else, locked_by, queue_of, contains, enqueue, lock_account, unlock_accounts, running, waiting,
  taken, releasing, finished, System, set_phase,
}
use advance_golang.State.Locks.Phases.{
  is_finished, queue_of-enqueue, mark-insert, same_phase, same_queue, owned_in, apart_in, quick_in,
  not_owned, real_in,
}

module _ (s : System) (h a : Bytes) (sound : IsSound s) where
  -- An account that no one has marked is in no queue.
  pub lock_account-Moves :
      s.phase h ≡ running
      → locked_by s.ctx a ≡ zero_hash
      → Moves s (record s { ctx = lock_account s.ctx h a }) h running (queue_of s.ctx h ++ (a ∷ []))
  unfolding lock_account holds is_finished is_live
  lock_account-Moves run free =
      let queue = queue_of s.ctx h in
      let real : bytes_eq h zero_hash ≡ false = real_in s h running sound run refl in
      let fresh : contains a queue ≡ false =
        not_owned s h running sound run a (λ e. sound.marked a (some h) e free) in
      let lock_at = λ (b : Bytes). lookup-insert a b (some h) s.ctx.account_lock in
      let mark_at = λ (b : Bytes). mark-insert a b h s.ctx.locked_account in
      record {
        phases = λ g. same_phase s h g running run;
        queues = λ g. queue_of-enqueue s.ctx h a g;
        kept = λ b g other lock.
            ground (arith, lock_at b, bytes_eq_iff a b, sound.marked a (some g), free);
        unmarked = λ b g other mark. ground (arith, mark_at b, bytes_eq_iff h g);
        own = λ b inside.
            ground (arith, lock_at b, contains-append b a queue, owned_in s h running sound run b);
        valid = λ b o lock zero_mark.
            ground (arith, lock_at b, mark_at b, sound.marked b o, bytes_eq_iff h zero_hash);
        single = distinct-append a queue ∙ rw (fresh, apart_in s h running sound run) refl;
        direct = λ b live mark.
            ground
              (arith, mark_at b, contains-append b a queue, quick_in s h running sound run b refl);
        real = real;
        queued = λ b e. cc;
        reached = λ b e. cc;
      }

  -- The transaction queues the account, which it does not hold yet.
  pub enqueue-Moves :
      s.phase h ≡ running
      → Moves s
          (record { ctx = enqueue s.ctx h a; phase = set_phase s.phase h (waiting a) })
          h
          (waiting a)
          (queue_of s.ctx h ++ (a ∷ []))
  unfolding holds is_finished is_live
  enqueue-Moves run =
      let queue = queue_of s.ctx h in
      let before : drop_last (queue ++ (a ∷ [])) ≡ queue = drop_last-append queue a in
      record {
        phases = λ g. refl;
        queues = λ g. queue_of-enqueue s.ctx h a g;
        kept = λ b g other lock. lock;
        unmarked = λ b g other mark. mark;
        own = λ b inside. owned_in s h running sound run b (ap (contains b) (sym before) ∙ inside);
        valid = sound.marked;
        single = ap distinct before ∙ apart_in s h running sound run;
        direct = λ b live mark. ap (contains b) before ∙ quick_in s h running sound run b refl mark;
        real = real_in s h running sound run refl;
        queued = λ b e.
            let same : a ≡ b = cc in
            ap (λ (x : Bytes). queue ++ (x ∷ [])) same
            ∙ ap (λ (x : List Bytes). x ++ (b ∷ [])) (sym before);
        reached = λ b e. cc;
      }

  -- The mutex that the transaction waited for is its own.
  pub takes-Moves :
      s.phase h ≡ waiting a
      → lookup a s.ctx.account_lock ≡ some none
      → Moves s
          (record {
            ctx = record s.ctx { account_lock = insert a (some h) s.ctx.account_lock };
            phase = set_phase s.phase h (taken a);
          })
          h
          (taken a)
          (queue_of s.ctx h)
  unfolding holds is_finished is_live
  takes-Moves at_phase free =
      let queue = queue_of s.ctx h in
      let split : queue ≡ drop_last queue ++ (a ∷ []) = sound.awaited h a at_phase in
      let fresh : contains a (drop_last queue) ≡ false =
        not_owned s h (waiting a) sound at_phase a (λ e. cc) in
      let lock_at = λ (b : Bytes). lookup-insert a b (some h) s.ctx.account_lock in
      let parts = λ (b : Bytes). ap (contains b) split ∙ contains-append b a (drop_last queue) in
      record {
        phases = λ g. refl;
        queues = λ g. same_queue s.ctx h g;
        kept = λ b g other lock. ground (arith, lock_at b, bytes_eq_iff a b);
        unmarked = λ b g other mark. mark;
        own = λ b inside.
            ground (arith, lock_at b, parts b, owned_in s h (waiting a) sound at_phase b);
        valid = λ b o lock zero_mark.
            ground (arith, lock_at b, sound.marked a none free, sound.marked b o, bytes_eq_iff a b);
        single =
            ap distinct split
            ∙ distinct-append a (drop_last queue)
            ∙ rw (fresh, apart_in s h (waiting a) sound at_phase) refl;
        direct =
            λ b live mark. ground (arith, parts b, quick_in s h (waiting a) sound at_phase b refl);
        real = real_in s h (waiting a) sound at_phase refl;
        queued = λ b e. cc;
        reached = λ b e. let same : a ≡ b = cc in ground (arith, parts b, bytes_eq_iff a b);
      }

  pub notes-Moves :
      s.phase h ≡ taken a
      → Moves s
          (record {
            ctx = record s.ctx { locked_account = insert a h s.ctx.locked_account };
            phase = set_phase s.phase h running;
          })
          h
          running
          (queue_of s.ctx h)
  unfolding holds is_finished is_live
  notes-Moves at_phase =
      let real : bytes_eq h zero_hash ≡ false = real_in s h (taken a) sound at_phase refl in
      let mark_at = λ (b : Bytes). mark-insert a b h s.ctx.locked_account in
      record {
        phases = λ g. refl;
        queues = λ g. same_queue s.ctx h g;
        kept = λ b g other lock. lock;
        unmarked = λ b g other mark. ground (arith, mark_at b, bytes_eq_iff h g);
        own = λ b inside. owned_in s h (taken a) sound at_phase b inside;
        valid = λ b o lock zero_mark.
            ground (arith, mark_at b, sound.marked b o, bytes_eq_iff h zero_hash);
        single = apart_in s h (taken a) sound at_phase;
        direct = λ b live mark. ground (
          arith,
          mark_at b,
          quick_in s h (taken a) sound at_phase b refl,
          sound.got h a at_phase,
          bytes_eq_iff a b,
        );
        real = real;
        queued = λ b e. cc;
        reached = λ b e. cc;
      }

  pub releases-Moves :
      (addrs : List Bytes)
      → s.phase h ≡ releasing (a ∷ addrs)
      → Moves s
          (record {
            ctx = record s.ctx { account_lock = insert a none s.ctx.account_lock };
            phase = set_phase s.phase h (releasing addrs);
          })
          h
          (releasing addrs)
          (queue_of s.ctx h)
  unfolding holds is_finished is_live distinct contains
  releases-Moves addrs at_phase =
      let lock_at = λ (b : Bytes). lookup-insert a b none s.ctx.account_lock in
      let single = apart_in s h (releasing (a ∷ addrs)) sound at_phase in
      let owner : lookup a s.ctx.account_lock ≡ some (some h) =
        owned_in s h (releasing (a ∷ addrs)) sound at_phase a (ground (arith, bytes_eq_refl a)) in
      record {
        phases = λ g. refl;
        queues = λ g. same_queue s.ctx h g;
        kept = λ b g other lock. ground (arith, lock_at b, bytes_eq_iff a b, bytes_eq_iff h g);
        unmarked = λ b g other mark. mark;
        own = λ b inside. ground (
          arith,
          lock_at b,
          bytes_eq_iff a b,
          owned_in s h (releasing (a ∷ addrs)) sound at_phase b,
        );
        valid = λ b o lock zero_mark.
            ground
              (arith, lock_at b, sound.marked b o, sound.marked a (some h) owner, bytes_eq_iff a b);
        single = ground arith;
        direct = λ b live mark. cc;
        real = real_in s h (releasing (a ∷ addrs)) sound at_phase refl;
        queued = λ b e. cc;
        reached = λ b e. cc;
      }

  pub unlocks-Moves :
      (add_tx : Bool)
      → s.phase h ≡ running
      → Moves s
          (record {
            ctx = (unlock_accounts add_tx h s.ctx).1;
            phase = set_phase s.phase h (releasing (unlock_accounts add_tx h s.ctx).0);
          })
          h
          (releasing (queue_of s.ctx h))
          []
  unfolding holds is_finished is_live unlock_accounts
  unlocks-Moves add_tx run = record {
    phases = λ g. refl;
    queues = λ g. ap (or_else []) (lookup-delete h g s.ctx.tx_lock_queue) ∙ ground arith;
    kept = λ b g other lock. lock;
    unmarked = λ b g other mark. mark;
    own = λ b inside. owned_in s h running sound run b inside;
    valid = sound.marked;
    single = apart_in s h running sound run;
    direct = λ b live mark. cc;
    real = real_in s h running sound run refl;
    queued = λ b e. cc;
    reached = λ b e. cc;
  }

  pub finishes-Moves :
      s.phase h ≡ releasing []
      → Moves s (record s { phase = set_phase s.phase h finished }) h finished (queue_of s.ctx h)
  unfolding holds is_finished is_live contains distinct
  finishes-Moves at_phase = record {
    phases = λ g. refl;
    queues = λ g. same_queue s.ctx h g;
    kept = λ b g other lock. lock;
    unmarked = λ b g other mark. mark;
    own = λ b inside. cc;
    valid = sound.marked;
    single = refl;
    direct = λ b live mark. cc;
    real = real_in s h (releasing []) sound at_phase refl;
    queued = λ b e. cc;
    reached = λ b e. cc;
  }
