-- ===== src/State/Lifecycle.antt =====
-- The operations that make and end accounts, the refund and the preimages, and the getters: each
-- leaves a trail back to the view before it.
use advance_golang.Base.{ℕ, ◌≡◌, refl, sym, ap, ◌∙◌, inl, inr, Option, none, some, arith}
use advance_golang.Base.{length, Option-cases}
use advance_golang.Base.Int.{pos}
use advance_golang.Base.Maps.{Bytes, bytes_eq_iff, lookup, insert, lookup-insert}
use advance_golang.State.Backend.{Backend}
use advance_golang.State.Db.{
  StateDb, write_back, add_preimage, add_refund, prepare, get_state_object, create_account, suicide,
  with_getter, get_code, get_state, get_pdx_state,
}
use advance_golang.State.Methods.{Logged, entries-append}
use advance_golang.State.Object.{
  StateObject, JournalEntry, reset_object_change, suicide_change, refund_change,
  add_preimage_change, Journal, append, set_balance, set_nonce, mark_suicided, new_object,
  object_code,
}
use advance_golang.State.Operations.{method-Grows}
use advance_golang.State.Reads.{
  SameView, object_code-SameView, object_get_state-SameView, object_get_pdx_state-SameView,
}
use advance_golang.State.Setters.{
  with_account_same, get_state_object-Grows, created, fresh, fresh_hashed, created_rest,
  observe-created, create_object-absent, create_object-present, create_object-Grows, undo-reset_any,
}
use advance_golang.State.Trail.{
  IsSound, Grows, Grows-trans, Grows-same, Grows-one, with_account-IsSound,
}
use advance_golang.State.Undo.{undo, with_account, peek_live, observe-put}
use advance_golang.State.View.{
  View, World, update, update-update, view_of, peek, observe, get_state_object-peek,
  get_state_object_rest, observe-get_state_object, peek-get_state_object, observe-write_back,
}
use advance_golang.Types.{hash_length}
use mathlib.Core.Option
use mathlib.Core.Path.{subst, fun_ext}

module _ (B : Backend) where
  open B use {Trie}

  suicide_entry-Logged :
      (o : StateObject Trie) (j : Journal Trie)
      → length o.account.code_hash ≡ hash_length
      → Logged B o j (
        set_balance (mark_suicided o) (pos 0),
        append j (suicide_change o.address o.suicided o.account.balance),
      )
  unfolding set_balance mark_suicided undo
  suicide_entry-Logged o j hashed = record {
    live = refl;
    address = refl;
    hashed = hashed;
    log = inr (
      suicide_change o.address o.suicided o.account.balance,
      (entries-append j _, λ w found. rw (found, undo)),
    );
  }

  module _ (s : StateDb Trie) (sound : IsSound (observe B s)) where
    suicide_present :
        (a : Bytes) (o : StateObject Trie) → peek B s a ≡ some o → Grows B s (suicide B s a).0
    unfolding suicide
    suicide_present a o present =
        let s1 = (get_state_object B s a).0 in
        let seen : (observe B s).accounts a ≡ some (view_of B o) =
          ap (Option.map (view_of B)) present in
        let sound1 : IsSound (observe B s1) =
          subst IsSound (sym (observe-get_state_object B s a)) sound in
        let ends = set_balance (mark_suicided o) (pos 0) in
        let done : Bytes → StateDb Trie = λ b.
          let entry : JournalEntry Trie = suicide_change b o.suicided o.account.balance in
          write_back (record s1 { journal = append s1.journal entry }) a ends in
        rw (get_state_object-peek B s a, suicide)
          (rw present (
            Grows-trans B s s1 (done a) (get_state_object-Grows B s a) (
              subst (λ (b : Bytes). Grows B s1 (done b)) (sound.addressed a (view_of B o) seen)
                (method-Grows B s1 a o _ sound1 (peek-get_state_object B s a a ∙ present)
                  (suicide_entry-Logged o s1.journal (sound.hashed a (view_of B o) seen))))))

    pub suicide-Grows : (a : Bytes) → Grows B s (suicide B s a).0
    unfolding suicide
    suicide-Grows a = elim (Option-cases (peek B s a)) [
      | inl absent ↦
          rw (get_state_object-peek B s a, suicide) (rw absent (get_state_object-Grows B s a))
      | inr (o, present) ↦ suicide_present a o present
    ]

    -- The balance that CreateAccount carries over is not recorded: the reset takes it back.
    carried-Grows :
        (a : Bytes) (o : StateObject Trie)
        → peek B s a ≡ some o
        → Grows B s (
            write_back
              (created B s a (reset_object_change o))
              a
              (set_balance (fresh B a) o.account.balance))
    carried-Grows a o present =
        let s1 = created B s a (reset_object_change o) in
        let carried = set_balance (fresh B a) o.account.balance in
        let t = write_back s1 a carried in
        let after : observe B t ≡ with_account B (observe B s) a (some (view_of B carried)) =
          observe-write_back B s1 a carried (unfold set_balance set_nonce new_object in refl)
          ∙ ap (λ (w : World). with_account B w a (some (view_of B carried)))
              (observe-created B s a (reset_object_change o))
          ∙ ap (λ (f : Bytes → Option View). record (observe B s) { accounts = f })
              (update-update (observe B s).accounts a (some (view_of B (fresh B a)))
                (some (view_of B carried))) in
        let rest = created_rest B s a (reset_object_change o) in
        Grows-one B s t (reset_object_change o) rest.0
          (subst IsSound (sym after) (
            with_account-IsSound B (observe B s) a (view_of B carried) sound
              (unfold set_balance set_nonce new_object in refl)
              (unfold set_balance in fresh_hashed B a)))
          (undo-reset_any B s a o (observe B t) (view_of B carried) sound present after) rest.1
          rest.2

    pub create_account-Grows : (a : Bytes) → Grows B s (create_account B s a)
    unfolding create_account
    create_account-Grows a = elim (Option-cases (peek B s a)) [
      | inl absent ↦
          rw (create_object-absent B s a absent, create_account) (create_object-Grows B s a sound)
      | inr (o, present) ↦
          rw (create_object-present B s a o present, create_account)
            (rw (create_object-present B s a o present) (carried-Grows a o present))
    ]

    pub add_refund-Grows : (gas : ℕ) → Grows B s (add_refund s gas)
    unfolding add_refund undo peek
    add_refund-Grows gas =
        Grows-one B s (add_refund s gas) (refund_change s.refund)
          (entries-append s.journal (refund_change s.refund))
          (record { addressed = sound.addressed; hashed = sound.hashed; absent = sound.absent })
          refl refl refl

    taken_back :
        (hash preimage : Bytes)
        → lookup hash s.preimages ≡ none
        → (record (observe B s) {
          preimages = update (λ (h : Bytes). lookup h (insert hash preimage s.preimages)) hash none;
        })
          ≡ observe B s
    taken_back hash preimage new =
        ap (λ (f : Bytes → Option Bytes). record (observe B s) { preimages = f })
          (fun_ext
            (λ h. ground (arith, lookup-insert hash h preimage s.preimages, bytes_eq_iff hash h)))

    pub add_preimage-Grows : (hash preimage : Bytes) → Grows B s (add_preimage s hash preimage)
    unfolding add_preimage undo
    add_preimage-Grows hash preimage = elim (Option-cases (lookup hash s.preimages)) [
      | inr (old, known) ↦ rw (known, add_preimage) (Grows-same B s s refl refl refl refl)
      | inl new ↦
          rw (new, add_preimage)
            (Grows-one B s _ (add_preimage_change hash)
              (entries-append s.journal (add_preimage_change hash))
              (unfold peek in
                record {
                  addressed = sound.addressed;
                  hashed = sound.hashed;
                  absent = sound.absent;
                })
              (ap some (unfold peek in taken_back hash preimage new)) refl refl)
    ]

    pub prepare-Grows : (thash bhash : Bytes) (ti : ℕ) → Grows B s (prepare s thash bhash ti)
    unfolding prepare
    prepare-Grows thash bhash ti = Grows-same B s _ refl (unfold peek in refl) refl refl

  pub with_getter-observe :
      {A : Type 0} (s : StateDb Trie) (a : Bytes) (default : A)
      (method : StateObject Trie → StateObject Trie × A)
      → ((o : StateObject Trie) → SameView B (method o).0 o)
      → observe B (with_getter B s a default method).0 ≡ observe B s
  unfolding with_getter
  with_getter-observe s a default method same = elim (Option-cases (peek B s a)) [
    | inl absent ↦
        rw (get_state_object-peek B s a, with_getter) (rw absent (observe-get_state_object B s a))
    | inr (o, present) ↦
        rw (get_state_object-peek B s a, with_getter)
          (rw present (
            observe-put B s a (method o).0 ((same o).1 ∙ peek_live B s a o present)
            ∙ ap (λ (v : View). with_account B (observe B s) a (some v)) (same o).0
            ∙ with_account_same B (observe B s) a (some (view_of B o))
                (ap (Option.map (view_of B)) present)))
  ]

  with_getter-Grows :
      {A : Type 0} (s : StateDb Trie) (a : Bytes) (default : A)
      (method : StateObject Trie → StateObject Trie × A)
      → ((o : StateObject Trie) → SameView B (method o).0 o)
      → Grows B s (with_getter B s a default method).0
  unfolding with_getter
  with_getter-Grows s a default method same =
      let rest = get_state_object_rest B s a in
      let seen = with_getter-observe s a default method same in
      elim (Option-cases (peek B s a)) [
        | inl absent ↦
            rw (get_state_object-peek B s a, with_getter) (rw absent (get_state_object-Grows B s a))
        | inr (o, present) ↦
            rw (get_state_object-peek B s a, with_getter)
              (rw present (
                Grows-same B s (write_back (get_state_object B s a).0 a (method o).0)
                  (ap (λ (j : Journal Trie). j.entries) rest.3)
                  (rw present at (rw (get_state_object-peek B s a, with_getter) at seen)) rest.4
                  rest.5))
      ]

  module _ (s : StateDb Trie) (a : Bytes) where
    pub get_code-observe : observe B (get_code B s a).0 ≡ observe B s
    unfolding get_code
    get_code-observe = with_getter-observe s a none (object_code B) (object_code-SameView B)

    pub get_state-observe : (key : Bytes) → observe B (get_state B s a key).0 ≡ observe B s
    unfolding get_state
    get_state-observe key = with_getter-observe s a _ _ (λ o. object_get_state-SameView B o key)

    pub get_pdx_state-observe : (key : Bytes) → observe B (get_pdx_state B s a key).0 ≡ observe B s
    unfolding get_pdx_state
    get_pdx_state-observe key =
        with_getter-observe s a _ _ (λ o. object_get_pdx_state-SameView B o key)

    pub get_code-Grows : Grows B s (get_code B s a).0
    unfolding get_code
    get_code-Grows = with_getter-Grows s a none (object_code B) (object_code-SameView B)

    pub get_state-Grows : (key : Bytes) → Grows B s (get_state B s a key).0
    unfolding get_state
    get_state-Grows key = with_getter-Grows s a _ _ (λ o. object_get_state-SameView B o key)

    pub get_pdx_state-Grows : (key : Bytes) → Grows B s (get_pdx_state B s a key).0
    unfolding get_pdx_state
    get_pdx_state-Grows key = with_getter-Grows s a _ _ (λ o. object_get_pdx_state-SameView B o key)
