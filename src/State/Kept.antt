-- ===== src/State/Kept.antt =====
-- What reverting leaves alone: the snapshots, and the entries of the journal.
use advance_golang.Base.{◌≡◌, refl, ap, ◌∙◌, Bool, Option, none, some, arith}
use advance_golang.Base.{List, [], ◌∷◌, Option-cases, inl, inr}
use advance_golang.Base.Maps.{Bytes}
use advance_golang.State.Backend.{Backend}
use advance_golang.State.Db.{StateDb, set_state_object, get_state_object}
use advance_golang.State.Object.{
  StateObject, JournalEntry, create_object_change, reset_object_change, suicide_change,
  balance_change, nonce_change, storage_change, pdx_storage_change, code_change, refund_change,
  add_preimage_change, touch_change,
}
use advance_golang.State.Revert.{clean, at_object, revert_entry, revert_loop}
use advance_golang.State.View.{get_state_object_rest}

module _ (B : Backend) where
  open B use {Trie}

  pub record Kept (s t : StateDb Trie) : Type 0 where
    pub entries : t.journal.entries ≡ s.journal.entries
    pub revisions : t.valid_revisions ≡ s.valid_revisions
    pub next_id : t.next_revision_id ≡ s.next_revision_id

  abbrev pub AllKept : StateDb Trie → Option (StateDb Trie) → Type 0
  AllKept s none = Unit {0}
  AllKept s (some t) = Kept s t

  got_Kept : (s : StateDb Trie) (a : Bytes) → Kept s (get_state_object B s a).0
  got_Kept s a =
      let rest = get_state_object_rest B s a in
      record { entries = ap (λ j. j.entries) rest.3; revisions = rest.4; next_id = rest.5 }

  at_object-AllKept :
      (s : StateDb Trie) (a : Bytes) (f : StateObject Trie → StateObject Trie)
      → AllKept s (at_object B s a f)
  unfolding at_object
  at_object-AllKept s a f = elim (Option-cases (get_state_object B s a).1) [
    | inl absent ↦ rw (absent, at_object) tt
    | inr (o, present) ↦
        let k = got_Kept s a in
        rw (present, at_object)
          (record { entries = k.entries; revisions = k.revisions; next_id = k.next_id })
  ]

  suicide_AllKept :
      (s : StateDb Trie) (a : Bytes) (prev : Bool) (prevbalance : _)
      → AllKept s (revert_entry B (suicide_change a prev prevbalance) s)
  unfolding revert_entry
  suicide_AllKept s a prev prevbalance = elim (Option-cases (get_state_object B s a).1) [
    | inl absent ↦ rw (absent, revert_entry) (got_Kept s a)
    | inr (o, present) ↦
        let k = got_Kept s a in
        rw (present, revert_entry)
          (record { entries = k.entries; revisions = k.revisions; next_id = k.next_id })
  ]

  revert_entry-AllKept : (e : JournalEntry Trie) (s : StateDb Trie) → AllKept s (revert_entry B e s)
  unfolding revert_entry set_state_object
  revert_entry-AllKept (create_object_change a) s = record {
    entries = refl;
    revisions = refl;
    next_id = refl;
  }
  revert_entry-AllKept (reset_object_change o) s = record {
    entries = refl;
    revisions = refl;
    next_id = refl;
  }
  revert_entry-AllKept (suicide_change a prev prevbalance) s = suicide_AllKept s a prev prevbalance
  revert_entry-AllKept (balance_change a prev) s = at_object-AllKept s a _
  revert_entry-AllKept (nonce_change a prev) s = at_object-AllKept s a _
  revert_entry-AllKept (storage_change a key prev) s = at_object-AllKept s a _
  revert_entry-AllKept (pdx_storage_change a key prev) s = at_object-AllKept s a _
  revert_entry-AllKept (code_change a code hash) s = at_object-AllKept s a _
  revert_entry-AllKept (refund_change prev) s = record {
    entries = refl;
    revisions = refl;
    next_id = refl;
  }
  revert_entry-AllKept (add_preimage_change hash) s = record {
    entries = refl;
    revisions = refl;
    next_id = refl;
  }
  revert_entry-AllKept (touch_change a) s = record {
    entries = refl;
    revisions = refl;
    next_id = refl;
  }

  clean_entries :
      (s : StateDb Trie) (e : JournalEntry Trie) → (clean s.journal e).entries ≡ s.journal.entries
  unfolding clean
  clean_entries s e = ground arith

  AllKept-trans :
      (s t : StateDb Trie) (u : Option (StateDb Trie)) → Kept s t → AllKept t u → AllKept s u
  AllKept-trans s t none h k = tt
  AllKept-trans s t (some u) h k = record {
    entries = k.entries ∙ h.entries;
    revisions = k.revisions ∙ h.revisions;
    next_id = k.next_id ∙ h.next_id;
  }

  pub revert_loop-AllKept :
      (es : List (JournalEntry Trie)) (s : StateDb Trie) → AllKept s (revert_loop B es s)
  unfolding revert_loop
  revert_loop-AllKept [] s = record { entries = refl; revisions = refl; next_id = refl }
  revert_loop-AllKept (e ∷ es) s = elim (Option-cases (revert_entry B e s)) [
    | inl panics ↦ rw (panics, revert_loop) tt
    | inr (s1, goes) ↦
        let k : Kept s s1 = rw goes at (revert_entry-AllKept e s) in
        let s2 = record s1 { journal = clean s1.journal e } in
        let k2 : Kept s s2 = record {
          entries = clean_entries s1 e ∙ k.entries;
          revisions = k.revisions;
          next_id = k.next_id;
        } in
        rw (goes, revert_loop)
          (AllKept-trans s s2 (revert_loop B es s2) k2 (revert_loop-AllKept es s2))
  ]
