-- ===== src/State/Snapshot.antt =====
-- core/state/statedb.go: Snapshot and RevertToSnapshot, over any operations in between.
use advance_golang.Base.{ℕ, ◌+◌, ◌≤◌, ◌<◌, ◌≡◌, refl, sym, ap, ◌∙◌, true, none, some, arith}
use advance_golang.Base.{
  ◌==◌, List, [], ◌∷◌, ◌++◌, length, take, drop, get_elem?, All, All-append, Option-cases, inl, inr,
}
use advance_golang.Base.{append-nil, append_assoc, take-append-length, drop-append-length}
use advance_golang.State.Backend.{Backend}
use advance_golang.State.Db.{Revision, StateDb}
use advance_golang.State.Kept.{Kept, revert_loop-AllKept}
use advance_golang.State.Object.{JournalEntry}
use advance_golang.State.Revert.{
  sort_search, reached, revert_loop, journal_revert, snapshot, revert_to_snapshot,
}
use advance_golang.State.Search.{search_revision, get_elem?-append}
use advance_golang.State.Trail.{IsSound, Trail, Trail-trans, Trail-IsSound, undo_all-Trail, Grows}
use advance_golang.State.Undo.{revert_loop-undo_all, observe-journal}
use advance_golang.State.View.{peek, observe}
use mathlib.Core.List.{reverse, reverse-append, reverse-reverse}
use mathlib.Core.Option
use mathlib.Core.Path.{subst}

pub none-ne-some {ℓ} : {A : Type ℓ} (a : A) → none ≡ some a → ⊥
none-ne-some a h = cc

module _ (B : Backend) where
  open B use {Trie}

  -- A StateDB between operations: sound accounts, and snapshots that are older than the next one.
  pub record IsReady (s : StateDb Trie) : Type 0 where
    pub sound : IsSound (observe B s)
    pub older : All (λ r. r.id < s.next_revision_id) s.valid_revisions

  -- What a revert brings back. The number of the next snapshot is not reset.
  pub record Restored (s v : StateDb Trie) : Type 0 where
    pub world : observe B v ≡ observe B s
    pub entries : v.journal.entries ≡ s.journal.entries
    pub revisions : v.valid_revisions ≡ s.valid_revisions
    pub next : s.next_revision_id ≤ v.next_revision_id

  -- What has happened since a state: entries that lead back to it, and snapshots that are later.
  pub record Since (s t : StateDb Trie) : Type 0 where
    pub added : List (JournalEntry Trie)
    pub appended : t.journal.entries ≡ s.journal.entries ++ reverse added
    pub trail : Trail B (observe B s) added (observe B t)
    pub more : List Revision
    pub revisions : t.valid_revisions ≡ s.valid_revisions ++ more
    pub later : All (λ r. s.next_revision_id ≤ r.id) more
    pub newer : All (λ r. r.id < t.next_revision_id) more
    pub next : s.next_revision_id ≤ t.next_revision_id

  pub Since-start : (s : StateDb Trie) → Since s s
  Since-start s = record {
    added = [];
    appended = sym (append-nil s.journal.entries);
    trail = refl;
    more = [];
    revisions = sym (append-nil s.valid_revisions);
    later = tt;
    newer = tt;
    next = omega arith;
  }

  pub Since-Grows : (s t u : StateDb Trie) → Since s t → Grows B t u → Since s u
  Since-Grows s t u h g = record {
    added = g.added ++ h.added;
    appended = rw (g.appended, h.appended, reverse-append, append_assoc);
    trail = Trail-trans B (observe B s) (observe B t) (observe B u) h.added g.added h.trail g.trail;
    more = h.more;
    revisions = g.revisions ∙ h.revisions;
    later = h.later;
    newer = subst (λ (n : ℕ). All (λ r. r.id < n) h.more) (sym g.next_id) h.newer;
    next = omega (arith, h.next, g.next_id);
  }

  All-weaker :
      (rs : List Revision) (m n : ℕ) → m ≤ n → All (λ r. r.id < m) rs → All (λ r. r.id < n) rs
  All-weaker [] m n le h = tt
  All-weaker (r ∷ rs) m n le h = (omega (arith, h.0), All-weaker rs m n le h.1)

  pub Since-snapshot : (s t : StateDb Trie) → Since s t → Since s (snapshot B t).0
  unfolding snapshot peek
  Since-snapshot s t h =
      let id = t.next_revision_id in
      let revision : Revision = record { id = id; journal_index = length t.journal.entries } in
      record {
        added = h.added;
        appended = h.appended;
        trail = h.trail;
        more = h.more ++ (revision ∷ []);
        revisions =
            ap (λ (rs : List Revision). rs ++ (revision ∷ [])) h.revisions
            ∙ append_assoc s.valid_revisions h.more (revision ∷ []);
        later = All-append _ h.more (revision ∷ []) h.later (h.next, tt);
        newer =
            All-append _ h.more (revision ∷ [])
              (All-weaker h.more id (id + 1) (omega arith) h.newer) (omega arith, tt);
        next = omega (arith, h.next);
      }

  pub Since-Restored : (s t v : StateDb Trie) → Since s t → Restored t v → Since s v
  Since-Restored s t v h r = record {
    added = h.added;
    appended = r.entries ∙ h.appended;
    trail = subst (Trail B (observe B s) h.added) (sym r.world) h.trail;
    more = h.more;
    revisions = r.revisions ∙ h.revisions;
    later = h.later;
    newer = All-weaker h.more t.next_revision_id v.next_revision_id r.next h.newer;
    next = omega (arith, h.next, r.next);
  }

  pub Since-IsReady : (s t : StateDb Trie) → IsReady s → Since s t → IsReady t
  Since-IsReady s t ready h = record {
    sound = Trail-IsSound B (observe B s) (observe B t) h.added ready.sound h.trail;
    older = subst (All (λ r. r.id < t.next_revision_id)) (sym h.revisions) (
        All-append _ s.valid_revisions h.more
          (All-weaker s.valid_revisions s.next_revision_id t.next_revision_id h.next ready.older)
          h.newer);
  }

  -- The entries after the first ones, last one first, are undone.
  loop_back :
      (s u : StateDb Trie) (h : Since s u)
      → (v : StateDb Trie) × (revert_loop B
            (reverse (drop (length s.journal.entries) u.journal.entries))
            u
          ≡ some v)
        × (observe B v ≡ observe B s)
        × Kept B u v
  loop_back s u h =
      let es : reverse (drop (length s.journal.entries) u.journal.entries) ≡ h.added =
        rw (h.appended, drop-append-length, reverse-reverse) in
      let back : Option.map (observe B) (revert_loop B h.added u) ≡ some (observe B s) =
        revert_loop-undo_all B h.added u
        ∙ undo_all-Trail B (observe B s) (observe B u) h.added h.trail in
      elim (Option-cases (revert_loop B h.added u)) [
        | inl panics ↦ absurd (none-ne-some (observe B s) (rw panics at back))
        | inr (v, goes) ↦
            let same : some (observe B v) ≡ some (observe B s) = rw goes at back in
            (
              v,
              ap (λ (l : List (JournalEntry Trie)). revert_loop B l u) es ∙ goes,
              cc,
              rw goes at (revert_loop-AllKept B h.added u),
            )
      ]

  -- Reverting the journal brings back the view and the entries; the snapshots are left alone.
  pub journal_revert_back :
      (s u : StateDb Trie) (h : Since s u)
      → (v : StateDb Trie) × (journal_revert B u (length s.journal.entries) ≡ some v)
        × (observe B v ≡ observe B s)
        × (v.journal.entries ≡ s.journal.entries)
        × (v.valid_revisions ≡ u.valid_revisions)
        × (v.next_revision_id ≡ u.next_revision_id)
  unfolding journal_revert
  journal_revert_back s u h =
      let (v, goes, same, kept) = loop_back s u h in
      let j = v.journal in
      let j' = record j { entries = take (length s.journal.entries) j.entries } in
      (
        record v { journal = j' },
        rw (goes, journal_revert),
        observe-journal B v j' ∙ same,
        rw (kept.entries, h.appended, take-append-length),
        kept.revisions,
        kept.next_id,
      )

  revert_found :
      (u v : StateDb Trie) (rs qs : List Revision) (r : Revision)
      → u.valid_revisions ≡ rs ++ (r ∷ qs)
      → All (λ q. q.id < r.id) rs
      → All (λ q. r.id ≤ q.id) qs
      → journal_revert B u r.journal_index ≡ some v
      → v.valid_revisions ≡ u.valid_revisions
      → revert_to_snapshot B u r.id ≡ some (record v { valid_revisions = rs })
  unfolding revert_to_snapshot
  revert_found u v rs qs r split old new goes kept =
      let place : sort_search (length u.valid_revisions) (reached u.valid_revisions r.id)
          ≡ length rs =
        rw split (search_revision rs (r ∷ qs) r.id old (omega arith, new)) in
      let found : get_elem? u.valid_revisions (length rs) ≡ some r =
        rw split (get_elem?-append rs qs r) in
      let same : (r.id == r.id) ≡ true = ground arith in
      let cut : take (length rs) v.valid_revisions ≡ rs =
        rw (kept, split) (take-append-length rs (r ∷ qs)) in
      rw (place, revert_to_snapshot)
        (rw found (
          rw same (
            rw goes (
              rw place (ap (λ (l : List Revision). some (record v { valid_revisions = l })) cut)))))

  All-next : (rs : List Revision) (n : ℕ) → All (λ r. n + 1 ≤ r.id) rs → All (λ r. n ≤ r.id) rs
  All-next [] n h = tt
  All-next (r ∷ rs) n h = (omega (arith, h.0), All-next rs n h.1)

  -- After a snapshot, whatever has happened since, RevertToSnapshot with its id succeeds and brings
  -- the state back.
  pub revert_back :
      (s u : StateDb Trie)
      → IsReady s
      → Since (snapshot B s).0 u
      → (v : StateDb Trie) × (revert_to_snapshot B u (snapshot B s).1 ≡ some v) × Restored s v
  unfolding snapshot
  revert_back s u ready h =
      let id = s.next_revision_id in
      let r : Revision = record { id = id; journal_index = length s.journal.entries } in
      let (v, goes, world, entries, revisions, next) = journal_revert_back (snapshot B s).0 u h in
      (
        record v { valid_revisions = s.valid_revisions },
        revert_found u v s.valid_revisions h.more r
            (h.revisions ∙ append_assoc s.valid_revisions (r ∷ []) h.more) ready.older
            (All-next h.more id h.later) goes revisions,
        record {
          world = unfold peek in world;
          entries = entries;
          revisions = refl;
          next = omega (arith, next, h.next);
        },
      )
