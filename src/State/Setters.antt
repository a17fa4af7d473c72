-- ===== src/State/Setters.antt =====
-- Every operation of the StateDB appends journal entries that lead back to the view before it.
use advance_golang.Base.{◌≡◌, refl, sym, ap, ◌∙◌, inl, inr, Option, none, some}
use advance_golang.Base.{[], ◌∷◌, ◌++◌, length, Option-cases}
use advance_golang.Base.Maps.{Bytes, bytes_eq_refl}
use advance_golang.State.Backend.{Backend}
use advance_golang.State.Db.{
  StateDb, set_state_object, get_state_object, empty_account, create_object,
  get_or_new_state_object,
}
use advance_golang.State.Methods.{entries-append}
use advance_golang.State.Object.{
  StateObject, JournalEntry, create_object_change, reset_object_change, Journal, append, set_nonce,
  new_object, empty_code_hash,
}
use advance_golang.State.Trail.{
  IsSound, Grows, Grows-trans, Grows-same, Grows-one, with_account-IsSound,
}
use advance_golang.State.Undo.{
  undo, with_account, peek_live, observe-journal, observe-set_state_object,
}
use advance_golang.State.View.{
  View, World, shown, update_same, update-update, view_of, peek, observe, get_state_object-peek,
  get_state_object_rest, observe-get_state_object, peek-get_state_object, peek-write_back,
}
use advance_golang.Types.{hash_length}
use mathlib.Core.Option
use mathlib.Core.Path.{subst}

module _ (B : Backend) where
  open B use {Trie}

  pub with_account_same :
      (w : World) (a : Bytes) (v : Option View) → w.accounts a ≡ v → with_account B w a v ≡ w
  with_account_same w a v h =
      ap (λ (f : Bytes → Option View). record w { accounts = f }) (update_same w.accounts a v h)

  pub with_account_back :
      (w : World) (a : Bytes) (v v' : Option View)
      → w.accounts a ≡ v
      → with_account B (with_account B w a v') a v ≡ w
  with_account_back w a v v' h =
      ap (λ (f : Bytes → Option View). record w { accounts = f })
        (update-update w.accounts a v' v ∙ update_same w.accounts a v h)

  pub get_state_object-Grows : (s : StateDb Trie) (a : Bytes) → Grows B s (get_state_object B s a).0
  get_state_object-Grows s a =
      let rest = get_state_object_rest B s a in
      Grows-same B s (get_state_object B s a).0 (ap (λ (j : Journal Trie). j.entries) rest.3)
        (observe-get_state_object B s a) rest.4 rest.5

  -- The object that `createObject` makes.
  abbrev pub fresh : Bytes → StateObject Trie
  fresh a = set_nonce (new_object B a empty_account) 0

  pub fresh_hashed : (a : Bytes) → length (fresh a).account.code_hash ≡ hash_length
  unfolding set_nonce new_object empty_code_hash
  fresh_hashed a = B.length-keccak256 []

  -- The state in which `createObject` puts the new object, with an entry for it.
  unfoldable pub created : StateDb Trie → Bytes → JournalEntry Trie → StateDb Trie
  created s a e =
      let s1 = (get_state_object B s a).0 in
      set_state_object (record s1 { journal = append s1.journal e }) (fresh a)

  pub observe-created :
      (s : StateDb Trie) (a : Bytes) (e : JournalEntry Trie)
      → observe B (created s a e) ≡ with_account B (observe B s) a (some (view_of B (fresh a)))
  unfolding created
  observe-created s a e =
      let s1 = (get_state_object B s a).0 in
      let s2 = record s1 { journal = append s1.journal e } in
      let put : observe B (set_state_object s2 (fresh a))
          ≡ with_account B (observe B s2) a (some (view_of B (fresh a))) =
        unfold set_nonce new_object in observe-set_state_object B s2 (fresh a) in
      put
      ∙ ap (λ (w : World). with_account B w a (some (view_of B (fresh a))))
          (observe-journal B s1 (append s1.journal e) ∙ observe-get_state_object B s a)

  pub created_rest :
      (s : StateDb Trie) (a : Bytes) (e : JournalEntry Trie)
      → ((created s a e).journal.entries ≡ s.journal.entries ++ (e ∷ []))
        × ((created s a e).valid_revisions ≡ s.valid_revisions)
        × ((created s a e).next_revision_id ≡ s.next_revision_id)
  unfolding created set_state_object
  created_rest s a e =
      let rest = get_state_object_rest B s a in
      (
        entries-append (get_state_object B s a).0.journal e
            ∙ ap (λ (j : Journal Trie). j.entries ++ (e ∷ [])) rest.3,
        rest.4,
        rest.5,
      )

  created-Grows :
      (s : StateDb Trie) (a : Bytes) (e : JournalEntry Trie)
      → IsSound (observe B s)
      → undo B e (observe B (created s a e)) ≡ some (observe B s)
      → Grows B s (created s a e)
  created-Grows s a e sound back =
      let rest = created_rest s a e in
      Grows-one B s (created s a e) e rest.0
        (subst IsSound (sym (observe-created s a e)) (
          with_account-IsSound B (observe B s) a (view_of B (fresh a)) sound
            (unfold set_nonce new_object in refl) (fresh_hashed a)))
        back rest.1 rest.2

  undo-created :
      (s : StateDb Trie) (a : Bytes)
      → IsSound (observe B s)
      → peek B s a ≡ none
      → undo B (create_object_change a) (observe B (created s a (create_object_change a)))
        ≡ some (observe B s)
  unfolding undo
  undo-created s a sound none_there =
      let nothing : (observe B s).accounts a ≡ none = ap (Option.map (view_of B)) none_there in
      ap some (
        ap (λ (w : World). with_account B w a (w.stored a)) (observe-created s a _)
        ∙ with_account_back (observe B s) a ((observe B s).stored a) _
            (nothing ∙ sym (sound.absent a nothing)))

  -- Taking a reset back, from any view that differs at the address alone.
  pub undo-reset_any :
      (s : StateDb Trie) (a : Bytes) (o : StateObject Trie) (w : World) (v : View)
      → IsSound (observe B s)
      → peek B s a ≡ some o
      → w ≡ with_account B (observe B s) a (some v)
      → undo B (reset_object_change o) w ≡ some (observe B s)
  unfolding undo
  undo-reset_any s a o w v sound there change =
      let seen : (observe B s).accounts a ≡ some (view_of B o) =
        ap (Option.map (view_of B)) there in
      let shows : Option.map (view_of B) (shown B o) ≡ some (view_of B o) =
        rw (peek_live B s a o there) in
      ap some (
        ap (with_account B w o.address) shows
        ∙ ap (λ (b : Bytes). with_account B w b (some (view_of B o)))
            (sound.addressed a (view_of B o) seen)
        ∙ ap (λ (u : World). with_account B u a (some (view_of B o))) change
        ∙ with_account_back (observe B s) a (some (view_of B o)) (some v) seen)

  undo-reset :
      (s : StateDb Trie) (a : Bytes) (o : StateObject Trie)
      → IsSound (observe B s)
      → peek B s a ≡ some o
      → undo B (reset_object_change o) (observe B (created s a (reset_object_change o)))
        ≡ some (observe B s)
  undo-reset s a o sound there =
      undo-reset_any s a o (observe B (created s a (reset_object_change o))) (view_of B (fresh a))
        sound there (observe-created s a (reset_object_change o))

  pub create_object-absent :
      (s : StateDb Trie) (a : Bytes)
      → peek B s a ≡ none
      → create_object B s a ≡ (created s a (create_object_change a), fresh a, none)
  unfolding create_object created
  create_object-absent s a h = rw (get_state_object-peek B s a, create_object) (rw h)

  pub create_object-present :
      (s : StateDb Trie) (a : Bytes) (o : StateObject Trie)
      → peek B s a ≡ some o
      → create_object B s a ≡ (created s a (reset_object_change o), fresh a, some o)
  unfolding create_object created
  create_object-present s a o h = rw (get_state_object-peek B s a, create_object) (rw h)

  pub create_object-Grows :
      (s : StateDb Trie) (a : Bytes) → IsSound (observe B s) → Grows B s (create_object B s a).0
  create_object-Grows s a sound = elim (Option-cases (peek B s a)) [
    | inl absent ↦
        rw (create_object-absent s a absent)
          (created-Grows s a _ sound (undo-created s a sound absent))
    | inr (o, present) ↦
        rw (create_object-present s a o present)
          (created-Grows s a _ sound (undo-reset s a o sound present))
  ]

  -- The new object is there.
  pub peek-created :
      (s : StateDb Trie) (a : Bytes) (e : JournalEntry Trie)
      → peek B (created s a e) a ≡ some (fresh a)
  unfolding created set_state_object set_nonce new_object
  peek-created s a e =
      let s1 = (get_state_object B s a).0 in
      rw (peek-write_back B (record s1 { journal = append s1.journal e }) a (fresh a) a)
        (rw (bytes_eq_refl a))

  -- `GetOrNewStateObject` where there is no account, and where there is one.
  pub get_or_new-absent :
      (s : StateDb Trie) (a : Bytes)
      → peek B s a ≡ none
      → get_or_new_state_object B s a
        ≡ (created (get_state_object B s a).0 a (create_object_change a), fresh a)
  unfolding get_or_new_state_object
  get_or_new-absent s a absent =
      let again = peek-get_state_object B s a a ∙ absent in
      rw (get_state_object-peek B s a, get_or_new_state_object)
        (rw (absent, create_object-absent (get_state_object B s a).0 a again))

  pub get_or_new-present :
      (s : StateDb Trie) (a : Bytes) (o : StateObject Trie)
      → peek B s a ≡ some o
      → get_or_new_state_object B s a ≡ ((get_state_object B s a).0, o)
  unfolding get_or_new_state_object
  get_or_new-present s a o present =
      rw (get_state_object-peek B s a, get_or_new_state_object)
        (rw present (rw (peek_live B s a o present)))

  -- The object is there, and getting it leaves a trail.
  pub record Obtained (s : StateDb Trie) (a : Bytes) (r : StateDb Trie × StateObject Trie)
      : Type 0 where
    pub grows : Grows B s r.0
    pub there : peek B r.0 a ≡ some r.1

  pub get_or_new-Obtained :
      (s : StateDb Trie) (a : Bytes)
      → IsSound (observe B s)
      → Obtained s a (get_or_new_state_object B s a)
  get_or_new-Obtained s a sound = elim (Option-cases (peek B s a)) [
    | inl absent ↦
        let s1 = (get_state_object B s a).0 in
        let sound1 : IsSound (observe B s1) =
          subst IsSound (sym (observe-get_state_object B s a)) sound in
        let again = peek-get_state_object B s a a ∙ absent in
        rw (get_or_new-absent s a absent) (record {
          grows =
              Grows-trans B s s1 (created s1 a (create_object_change a))
                (get_state_object-Grows s a)
                (created-Grows s1 a _ sound1 (undo-created s1 a sound1 again));
          there = peek-created s1 a _;
        })
    | inr (o, present) ↦ rw (get_or_new-present s a o present) (record {
      grows = get_state_object-Grows s a;
      there = peek-get_state_object B s a a ∙ present;
    })
  ]
