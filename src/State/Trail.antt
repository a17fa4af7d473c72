-- ===== src/State/Trail.antt =====
-- Chains of views that the journal's entries connect.
use advance_golang.Base.{◌≡◌, refl, sym, ap, ◌∙◌, none, some, arith}
use advance_golang.Base.{List, [], ◌∷◌, ◌++◌, length, append-nil, append_assoc}
use advance_golang.Base.Maps.{Bytes, bytes_eq_iff}
use advance_golang.State.Backend.{Backend}
use advance_golang.State.Db.{StateDb}
use advance_golang.State.Object.{JournalEntry}
use advance_golang.State.Undo.{undo, undo_all, with_account}
use advance_golang.State.View.{View, World, observe}
use advance_golang.Types.{hash_length}
use mathlib.Core.List.{reverse, reverse-append}
use mathlib.Core.Path.{subst}

-- An account carries its own address and a code hash of full length, and the trie holds nothing for
-- an address that shows no account (a deleted account is gone from the trie).
pub record IsSound (w : World) : Type 0 where
  pub addressed : (a : Bytes) (v : View) → w.accounts a ≡ some v → v.address ≡ a
  pub hashed : (a : Bytes) (v : View) → w.accounts a ≡ some v → length v.code_hash ≡ hash_length
  pub absent : (a : Bytes) → w.accounts a ≡ none → w.stored a ≡ none

module _ (B : Backend) where
  open B use {Trie}

  -- The entries, last one first, lead back from the view `w` to the view `w0`, through sound views.
  abbrev pub Trail : World → List (JournalEntry Trie) → World → Type 0
  Trail w0 [] w = w ≡ w0
  Trail w0 (e ∷ es) w = IsSound w × ((u : World) × (undo B e w ≡ some u) × Trail w0 es u)

  pub Trail-trans :
      (u v w : World) (es fs : List (JournalEntry Trie))
      → Trail u es v
      → Trail v fs w
      → Trail u (fs ++ es) w
  Trail-trans u v w es [] h k = subst (Trail u es) (sym k) h
  Trail-trans u v w es (f ∷ fs) h (sound, (x, back, rest)) =
      (sound, (x, back, Trail-trans u v x es fs h rest))

  pub Trail-IsSound :
      (u w : World) (es : List (JournalEntry Trie)) → IsSound u → Trail u es w → IsSound w
  Trail-IsSound u w [] s h = subst IsSound (sym h) s
  Trail-IsSound u w (e ∷ es) s h = h.0

  pub undo_all-Trail :
      (u w : World) (es : List (JournalEntry Trie)) → Trail u es w → undo_all B es w ≡ some u
  unfolding undo_all
  undo_all-Trail u w [] h = ap some h
  undo_all-Trail u w (e ∷ es) (sound, (x, back, rest)) = rw back (undo_all-Trail u x es rest)

  -- What an operation does to a StateDB as far as snapshots are concerned: it appends entries to the
  -- journal that lead back to the view before it, and leaves the snapshots alone.
  pub record Grows (s t : StateDb Trie) : Type 0 where
    pub added : List (JournalEntry Trie)
    pub appended : t.journal.entries ≡ s.journal.entries ++ reverse added
    pub trail : Trail (observe B s) added (observe B t)
    pub revisions : t.valid_revisions ≡ s.valid_revisions
    pub next_id : t.next_revision_id ≡ s.next_revision_id

  pub Grows-trans : (s t u : StateDb Trie) → Grows s t → Grows t u → Grows s u
  Grows-trans s t u g h = record {
    added = h.added ++ g.added;
    appended = rw (h.appended, g.appended, reverse-append, append_assoc);
    trail = Trail-trans (observe B s) (observe B t) (observe B u) g.added h.added g.trail h.trail;
    revisions = h.revisions ∙ g.revisions;
    next_id = h.next_id ∙ g.next_id;
  }

  pub Grows-same :
      (s t : StateDb Trie)
      → t.journal.entries ≡ s.journal.entries
      → observe B t ≡ observe B s
      → t.valid_revisions ≡ s.valid_revisions
      → t.next_revision_id ≡ s.next_revision_id
      → Grows s t
  Grows-same s t j o r n = record {
    added = [];
    appended = j ∙ sym (append-nil s.journal.entries);
    trail = o;
    revisions = r;
    next_id = n;
  }

  pub Grows-one :
      (s t : StateDb Trie) (e : JournalEntry Trie)
      → t.journal.entries ≡ s.journal.entries ++ (e ∷ [])
      → IsSound (observe B t)
      → undo B e (observe B t) ≡ some (observe B s)
      → t.valid_revisions ≡ s.valid_revisions
      → t.next_revision_id ≡ s.next_revision_id
      → Grows s t
  Grows-one s t e j sound back r n = record {
    added = e ∷ [];
    appended = j;
    trail = (sound, (observe B s, back, refl));
    revisions = r;
    next_id = n;
  }

  -- A view with one account changed.
  pub with_account-IsSound :
      (w : World) (a : Bytes) (v : View)
      → IsSound w
      → v.address ≡ a
      → length v.code_hash ≡ hash_length
      → IsSound (with_account B w a (some v))
  with_account-IsSound w a v s h k = record {
    addressed = λ b u e. ground (arith, bytes_eq_iff a b, s.addressed b u);
    hashed = λ b u e. ground (arith, bytes_eq_iff a b, s.hashed b u);
    absent = λ b e. ground (arith, bytes_eq_iff a b, s.absent b);
  }
