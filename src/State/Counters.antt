-- ===== src/State/Counters.antt =====
-- core/state/journal.go: the counters of dirty accounts, which journal.revert takes back.
use advance_golang.Base.{
  ℕ, ◌+◌, ◌≡◌, refl, sym, ap, ◌∙◌, Bool, true, Bool-cases, Option-cases, inl, inr, Option, none,
  some, if◌then◌else◌, List, [], ◌∷◌, ◌++◌, drop, arith,
}
use advance_golang.Base.Int.{ℤ, pos, negsuc, ◌-ℤ◌, is_zero, -ℤ-pos_zero}
use advance_golang.Base.Maps.{
  Bytes, bytes_eq, bytes_eq_iff, lookup, insert, delete, lookup-insert, lookup-delete,
}
use advance_golang.State.Backend.{Backend}
use advance_golang.State.Db.{StateDb, set_state_object, get_state_object}
use advance_golang.State.Object.{
  StateObject, Journal, JournalEntry, create_object_change, reset_object_change, suicide_change,
  balance_change, nonce_change, storage_change, pdx_storage_change, code_change, refund_change,
  add_preimage_change, touch_change, dirtied, count_of,
}
use advance_golang.State.Revert.{
  undirty, clean, at_object, revert_entry, revert_loop, journal_revert,
}
use advance_golang.State.View.{get_state_object_rest}
use mathlib.Core.Option
use mathlib.Core.List.{reverse, reverse-cons}

-- How many of the entries mark an account as dirty.
abbrev mark : Option Bytes → Bytes → ℕ
mark none a = 0
mark (some b) a = if bytes_eq b a then 1 else 0

unfoldable pub marks : {Trie : Type 0} → List (JournalEntry Trie) → Bytes → ℕ
marks [] a = 0
marks (e ∷ es) a = mark (dirtied e) a + marks es a

minus_minus : (x : ℤ) (m n : ℕ) → x -ℤ pos m -ℤ pos n ≡ x -ℤ pos (m + n)
unfolding ◌-ℤ◌
minus_minus x m n = ground arith

zero_of : (x : ℤ) → is_zero x ≡ true → x ≡ pos 0
zero_of (pos n) h = ap pos (ground arith)
zero_of (negsuc n) h = absurd (ground arith)

-- A map in which one counter has been changed.
count_of-changed :
    (m m' : List (Bytes × ℤ)) (b a : Bytes) (v : Option ℤ)
    → lookup a m' ≡ (if bytes_eq b a then v else lookup a m)
    → Option.get_or v (pos 0) ≡ count_of m b -ℤ pos 1
    → count_of m' a ≡ count_of m a -ℤ pos (if bytes_eq b a then 1 else 0)
count_of-changed m m' b a v found value = elim (Bool-cases (bytes_eq b a)) [
  | inl same ↦ rw same (
      ap (λ (o : Option ℤ). Option.get_or o (pos 0)) (found ∙ picked same)
      ∙ value
      ∙ ap (λ (c : Bytes). count_of m c -ℤ pos 1) ((bytes_eq_iff b a).0 same))
  | inr apart ↦ rw apart (
      ap (λ (o : Option ℤ). Option.get_or o (pos 0)) (found ∙ picked apart)
      ∙ sym (-ℤ-pos_zero (count_of m a)))
]
  where
    picked :
        {t : Bool}
        → bytes_eq b a ≡ t
        → (if bytes_eq b a then v else lookup a m) ≡ (if t then v else lookup a m)
    picked e = ap (λ t. if t then v else lookup a m) e

count_of-undirty :
    (m : List (Bytes × ℤ)) (b a : Bytes)
    → count_of (undirty m b) a ≡ count_of m a -ℤ pos (if bytes_eq b a then 1 else 0)
unfolding undirty
count_of-undirty m b a =
    let n = count_of m b -ℤ pos 1 in
    elim (Bool-cases (is_zero n)) [
      | inl zeros ↦
          rw zeros
            (count_of-changed m (delete b m) b a none (lookup-delete b a m) (sym (zero_of n zeros)))
      | inr other ↦
          rw other (count_of-changed m (insert b n m) b a (some n) (lookup-insert b a n m) refl)
    ]

count_of-clean :
    {Trie : Type 0} (j : Journal Trie) (e : JournalEntry Trie) (a : Bytes)
    → count_of (clean j e).dirties a ≡ count_of j.dirties a -ℤ pos (mark (dirtied e) a)
unfolding clean
count_of-clean j e a = elim (Option-cases (dirtied e)) [
  | inl none_marked ↦ rw (none_marked, clean) (sym (-ℤ-pos_zero (count_of j.dirties a)))
  | inr (b, marked) ↦ rw (marked, clean) (count_of-undirty j.dirties b a)
]

marks-append :
    {Trie : Type 0} (es fs : List (JournalEntry Trie)) (a : Bytes)
    → marks (es ++ fs) a ≡ marks es a + marks fs a
unfolding marks
marks-append [] fs a = omega arith
marks-append (e ∷ es) fs a = omega (arith, marks-append es fs a)

marks-reverse :
    {Trie : Type 0} (es : List (JournalEntry Trie)) (a : Bytes) → marks (reverse es) a ≡ marks es a
unfolding marks
marks-reverse [] a = refl
marks-reverse (e ∷ es) a =
    rw reverse-cons (omega (arith, marks-append (reverse es) (e ∷ []) a, marks-reverse es a))

module _ (B : Backend) where
  open B use {Trie}

  -- A call that returns leaves the journal as it is.
  abbrev SameJournal : StateDb Trie → Option (StateDb Trie) → Type 0
  SameJournal s none = Unit
  SameJournal s (some t) = t.journal ≡ s.journal

  at_object-SameJournal :
      (s : StateDb Trie) (a : Bytes) (f : StateObject Trie → StateObject Trie)
      → SameJournal s (at_object B s a f)
  unfolding at_object
  at_object-SameJournal s a f = elim (Option-cases (get_state_object B s a).1) [
    | inl absent ↦ rw (absent, at_object) tt
    | inr (o, present) ↦ rw (present, at_object) (get_state_object_rest B s a).3
  ]

  revert_entry-SameJournal :
      (e : JournalEntry Trie) (s : StateDb Trie) → SameJournal s (revert_entry B e s)
  unfolding revert_entry set_state_object
  revert_entry-SameJournal (create_object_change a) s = refl
  revert_entry-SameJournal (reset_object_change o) s = refl
  revert_entry-SameJournal (suicide_change a prev prevbalance) s =
      elim (Option-cases (get_state_object B s a).1) [
        | inl absent ↦ rw (absent, revert_entry) (get_state_object_rest B s a).3
        | inr (o, present) ↦ rw (present, revert_entry) (get_state_object_rest B s a).3
      ]
  revert_entry-SameJournal (balance_change a prev) s = at_object-SameJournal s a _
  revert_entry-SameJournal (nonce_change a prev) s = at_object-SameJournal s a _
  revert_entry-SameJournal (storage_change a key prev) s = at_object-SameJournal s a _
  revert_entry-SameJournal (pdx_storage_change a key prev) s = at_object-SameJournal s a _
  revert_entry-SameJournal (code_change a code hash) s = at_object-SameJournal s a _
  revert_entry-SameJournal (refund_change prev) s = refl
  revert_entry-SameJournal (add_preimage_change hash) s = refl
  revert_entry-SameJournal (touch_change a) s = refl

  count_of-revert_loop :
      (es : List (JournalEntry Trie)) (s t : StateDb Trie) (a : Bytes)
      → revert_loop B es s ≡ some t
      → count_of t.journal.dirties a ≡ count_of s.journal.dirties a -ℤ pos (marks es a)
  unfolding revert_loop marks
  count_of-revert_loop [] s t a h =
      ap
        (λ (o : Option (StateDb Trie)). elim o [
          | none ↦ pos 0
          | some u ↦ count_of u.journal.dirties a
        ])
        (sym h)
      ∙ sym (-ℤ-pos_zero (count_of s.journal.dirties a))
  count_of-revert_loop (e ∷ es) s t a h = elim (Option-cases (revert_entry B e s)) [
    | inl panics ↦ cc (rw (panics, revert_loop) at h)
    | inr (s1, goes) ↦
        let same : s1.journal ≡ s.journal = rw goes at (revert_entry-SameJournal e s) in
        let s2 = record s1 { journal = clean s1.journal e } in
        let rest : revert_loop B es s2 ≡ some t = rw (goes, revert_loop) at h in
        count_of-revert_loop es s2 t a rest
        ∙ ap (λ (x : ℤ). x -ℤ pos (marks es a))
            (count_of-clean s1.journal e a
              ∙ ap (λ (j : Journal Trie). count_of j.dirties a -ℤ pos (mark (dirtied e) a)) same)
        ∙ minus_minus (count_of s.journal.dirties a) (mark (dirtied e) a) (marks es a)
  ]

  -- Where journal.revert to an index returns, it has lowered the counter of each address, missing ones
  -- read as 0, by the number of the entries from that index on that mark the address as dirty.
  pub count_of-journal_revert :
      (s t : StateDb Trie) (index : ℕ) (a : Bytes)
      → journal_revert B s index ≡ some t
      → count_of t.journal.dirties a
        ≡ count_of s.journal.dirties a -ℤ pos (marks (drop index s.journal.entries) a)
  unfolding journal_revert
  count_of-journal_revert s t index a h =
      let es = drop index s.journal.entries in
      elim (Option-cases (revert_loop B (reverse es) s)) [
        | inl panics ↦ cc (rw (panics, journal_revert) at h)
        | inr (s1, goes) ↦
            let done = rw (goes, journal_revert) at h in
            ap
              (λ (o : Option (StateDb Trie)). elim o [
                | none ↦ pos 0
                | some u ↦ count_of u.journal.dirties a
              ])
              (sym done)
            ∙ count_of-revert_loop (reverse es) s s1 a goes
            ∙ ap (λ (n : ℕ). count_of s.journal.dirties a -ℤ pos n) (marks-reverse es a)
      ]
