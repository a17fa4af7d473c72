-- ===== src/State/Operations.antt =====
-- The setters and getters of StateDB, one by one: each leaves a trail back to the view before it.
use advance_golang.Base.{ℕ, ◌≡◌, refl, sym, ap, ◌∙◌, inl, inr, Option, some}
use advance_golang.Base.{length}
use advance_golang.Base.Int.{ℤ}
use advance_golang.Base.Maps.{Bytes, bytes_eq_refl}
use advance_golang.State.Backend.{Backend}
use advance_golang.State.Db.{
  StateDb, write_back, get_or_new_state_object, with_object, add_balance, sub_balance,
  db_set_balance, db_set_nonce, db_set_code, db_set_state, db_set_pdx_state,
}
use advance_golang.State.Methods.{
  Logged, object_set_balance-Logged, object_add_balance-Logged, object_sub_balance-Logged,
  object_set_nonce-Logged, object_set_code-Logged, object_set_state-Logged,
  object_set_pdx_state-Logged,
}
use advance_golang.State.Object.{StateObject, Journal}
use advance_golang.State.Setters.{with_account_same, with_account_back, get_or_new-Obtained}
use advance_golang.State.Trail.{
  IsSound, Trail-IsSound, Grows, Grows-trans, Grows-same, Grows-one, with_account-IsSound,
}
use advance_golang.State.Undo.{with_account, peek_live, observe-journal}
use advance_golang.State.View.{World, view_of, peek, observe, observe-write_back}
use advance_golang.Types.{hash_length}
use mathlib.Core.Option
use mathlib.Core.Path.{subst}

module _ (B : Backend) where
  open B use {Trie, keccak256}

  -- A change of the object that is found at an address, with the journal that it leaves.
  pub method-Grows :
      (s : StateDb Trie) (a : Bytes) (o : StateObject Trie) (r : StateObject Trie × Journal Trie)
      → IsSound (observe B s)
      → peek B s a ≡ some o
      → Logged B o s.journal r
      → Grows B s (record (write_back s a r.0) { journal = r.1 })
  method-Grows s a o r sound there h =
      let t = record (write_back s a r.0) { journal = r.1 } in
      let seen : (observe B s).accounts a ≡ some (view_of B o) =
        ap (Option.map (view_of B)) there in
      let address : o.address ≡ a = sound.addressed a (view_of B o) seen in
      let after : observe B t ≡ with_account B (observe B s) a (some (view_of B r.0)) =
        observe-journal B (write_back s a r.0) r.1
        ∙ observe-write_back B s a r.0 (h.live ∙ peek_live B s a o there) in
      elim h.log [
        | inl silent ↦
            Grows-same B s t silent.0
              (after
                ∙ with_account_same B (observe B s) a (some (view_of B r.0))
                    (seen ∙ ap some (sym silent.1)))
              refl refl
        | inr noted ↦
            Grows-one B s t noted.0 noted.1.0
              (subst IsSound (sym after) (
                with_account-IsSound B (observe B s) a (view_of B r.0) sound (h.address ∙ address)
                  h.hashed))
              (noted.1.1 (observe B t) (
                  ap (observe B t).accounts address
                  ∙ ap (λ (w : World). w.accounts a) after
                  ∙ rw (bytes_eq_refl a))
                ∙ ap (λ (b : Bytes). some (with_account B (observe B t) b (some (view_of B o))))
                    address
                ∙ ap (λ (w : World). some (with_account B w a (some (view_of B o)))) after
                ∙ ap some (with_account_back B (observe B s) a _ _ seen))
              refl refl
      ]

  with_object-Grows :
      (s : StateDb Trie) (a : Bytes)
      (method : StateObject Trie → Journal Trie → StateObject Trie × Journal Trie)
      → IsSound (observe B s)
      → ((o : StateObject Trie) (j : Journal Trie)
          → length o.account.code_hash ≡ hash_length
          → Logged B o j (method o j))
      → Grows B s (with_object B s a method)
  unfolding with_object
  with_object-Grows s a method sound logs =
      let (s1, o) = get_or_new_state_object B s a in
      let got = get_or_new-Obtained B s a sound in
      let g = got.grows in
      let sound1 : IsSound (observe B s1) =
        Trail-IsSound B (observe B s) (observe B s1) g.added sound g.trail in
      let hashed : length o.account.code_hash ≡ hash_length =
        sound1.hashed a (view_of B o) (ap (Option.map (view_of B)) got.there) in
      Grows-trans B s s1 _ g
        (method-Grows s1 a o (method o s1.journal) sound1 got.there (logs o s1.journal hashed))

  module _ (s : StateDb Trie) (sound : IsSound (observe B s)) where
    pub add_balance-Grows : (a : Bytes) (amount : ℤ) → Grows B s (add_balance B s a amount)
    unfolding add_balance
    add_balance-Grows a amount =
        with_object-Grows s a _ sound (λ o j h. object_add_balance-Logged B o j h amount)

    pub sub_balance-Grows : (a : Bytes) (amount : ℤ) → Grows B s (sub_balance B s a amount)
    unfolding sub_balance
    sub_balance-Grows a amount =
        with_object-Grows s a _ sound (λ o j h. object_sub_balance-Logged B o j h amount)

    pub db_set_balance-Grows : (a : Bytes) (amount : ℤ) → Grows B s (db_set_balance B s a amount)
    unfolding db_set_balance
    db_set_balance-Grows a amount =
        with_object-Grows s a _ sound (λ o j h. object_set_balance-Logged B o j h amount)

    pub db_set_nonce-Grows : (a : Bytes) (nonce : ℕ) → Grows B s (db_set_nonce B s a nonce)
    unfolding db_set_nonce
    db_set_nonce-Grows a nonce =
        with_object-Grows s a _ sound (λ o j h. object_set_nonce-Logged B o j h nonce)

    pub db_set_code-Grows : (a : Bytes) (code : Option Bytes) → Grows B s (db_set_code B s a code)
    unfolding db_set_code
    db_set_code-Grows a code =
        with_object-Grows s a _ sound
          (λ o j h. object_set_code-Logged B o j h _ code (B.length-keccak256 _))

    pub db_set_state-Grows : (a key value : Bytes) → Grows B s (db_set_state B s a key value)
    unfolding db_set_state
    db_set_state-Grows a key value =
        with_object-Grows s a _ sound (λ o j h. object_set_state-Logged B o j h key value)

    pub db_set_pdx_state-Grows :
        (a key value : Bytes) → Grows B s (db_set_pdx_state B s a key value)
    unfolding db_set_pdx_state
    db_set_pdx_state-Grows a key value =
        with_object-Grows s a _ sound (λ o j h. object_set_pdx_state-Logged B o j h key value)
