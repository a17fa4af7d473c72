-- ===== src/State/Promises.antt =====
-- core/state/statedb.go: the operations against what they promise on the view.
use advance_golang.Base.{ℕ, ◌≡◌, refl, sym, ap, ◌∙◌, inl, inr, true, Option, some, arith}
use advance_golang.Base.{[], Bool-cases, Option-cases}
use advance_golang.Base.Int.{ℤ, pos, ◌+ℤ◌, ◌-ℤ◌, is_zero}
use advance_golang.Base.Maps.{Bytes, bytes_eq_refl, lookup, lookup-insert}
use advance_golang.State.Backend.{Backend}
use advance_golang.State.Db.{
  StateDb, write_back, get_state_object, with_object, add_preimage, add_refund, prepare,
  create_account, add_balance, sub_balance, db_set_balance, db_set_nonce, db_set_code, code_bytes,
  db_set_state, db_set_pdx_state, suicide, exist, empty, get_balance, get_nonce, get_code_hash,
  has_suicided,
}
use advance_golang.State.Lifecycle.{get_code-observe, get_state-observe, get_pdx_state-observe}
use advance_golang.State.Object.{
  StateObject, create_object_change, reset_object_change, Journal, set_balance, set_nonce, set_code,
  set_state, set_pdx_state, mark_suicided, empty_code_hash, new_object, touch, object_get_state,
  object_get_pdx_state, object_set_balance, object_add_balance, object_sub_balance,
  object_set_nonce, object_set_code, object_set_state, object_set_pdx_state,
}
use advance_golang.State.Reads.{
  object_code-SameView, object_get_state-SameView, object_get_pdx_state-SameView,
}
use advance_golang.State.Setters.{
  fresh, created, observe-created, get_or_new-absent, get_or_new-present, create_object-absent,
  create_object-present,
}
use advance_golang.State.Transactions.{
  Op, adding_balance, subtracting_balance, setting_balance, setting_nonce, setting_code,
  setting_state, setting_pdx_state, creating_account, suiciding, adding_refund, adding_preimage,
  preparing, asking_exist, asking_empty, getting_balance, getting_nonce, getting_code_hash,
  asking_suicided, getting_code, getting_state, getting_pdx_state, perform,
}
use advance_golang.State.Undo.{
  with_account, recode, peek_live, observe-put, observe-journal, view_of-set_state,
  view_of-set_pdx_state,
}
use advance_golang.State.View.{
  View, World, update, update-update, view_of, code_value, storage_value, slot_value, pdx_value,
  peek, observe, get_state_object-peek, observe-get_state_object, observe-write_back,
}
use advance_golang.State.Worlds.{blank, revise, promise}
use mathlib.Core.Option
use mathlib.Core.Path.{fun_ext}

+ℤ-is_zero : (a b : ℤ) → is_zero b ≡ true → a ≡ a +ℤ b
unfolding ◌+ℤ◌
+ℤ-is_zero a b h = ground arith

-ℤ-is_zero : (a b : ℤ) → is_zero b ≡ true → a ≡ a -ℤ b
unfolding ◌-ℤ◌
-ℤ-is_zero a b h = ground arith

module _ (B : Backend) where
  open B use {Trie, keccak256}

  view_of-fresh : (a : Bytes) → view_of B (fresh B a) ≡ blank B a
  unfolding set_nonce new_object empty_code_hash code_value storage_value slot_value pdx_value
      lookup
  view_of-fresh a =
      ap (λ (c : Option Bytes). record (blank B a) { code = c }) (rw (bytes_eq_refl (keccak256 [])))

  -- What a method does to the view of its object, whatever the journal.
  abbrev Does :
      (StateObject Trie → Journal Trie → StateObject Trie × Journal Trie) → (View → View) → Type 0
  Does method f =
      (o : StateObject Trie) (j : Journal Trie)
      → (view_of B (method o j).0 ≡ f (view_of B o)) × ((method o j).0.deleted ≡ o.deleted)

  with_object-revise :
      (s : StateDb Trie) (a : Bytes)
      (method : StateObject Trie → Journal Trie → StateObject Trie × Journal Trie) (f : View → View)
      → Does method f
      → observe B (with_object B s a method) ≡ revise B (observe B s) a f
  unfolding with_object
  with_object-revise s a method f does = elim (Option-cases (peek B s a)) [
    | inr (o, present) ↦
        let s1 = (get_state_object B s a).0 in
        let r = method o s1.journal in
        let h = does o s1.journal in
        rw (get_or_new-present B s a o present, with_object)
          (observe-journal B (write_back s1 a r.0) r.1
            ∙ observe-put B s a r.0 (h.1 ∙ peek_live B s a o present)
            ∙ ap (λ (v : View). with_account B (observe B s) a (some v)) h.0
            ∙ ap
                (λ (x : Option (StateObject Trie)).
                  with_account B (observe B s) a
                    (some (f (Option.get_or (Option.map (view_of B) x) (blank B a)))))
                (sym present))
    | inl absent ↦
        let s1 = (get_state_object B s a).0 in
        let s2 = created B s1 a (create_object_change a) in
        let r = method (fresh B a) s2.journal in
        let h = does (fresh B a) s2.journal in
        rw (get_or_new-absent B s a absent, with_object)
          (observe-journal B (write_back s2 a r.0) r.1
            ∙ observe-write_back B s2 a r.0 (h.1 ∙ (unfold set_nonce new_object in refl))
            ∙ ap (λ (w : World). with_account B w a (some (view_of B r.0)))
                (observe-created B s1 a _
                  ∙ ap (λ (w : World). with_account B w a (some (view_of B (fresh B a))))
                      (observe-get_state_object B s a))
            ∙ ap (λ (g : Bytes → Option View). record (observe B s) { accounts = g })
                (update-update (observe B s).accounts a _ _)
            ∙ ap (λ (v : View). with_account B (observe B s) a (some v))
                (h.0 ∙ ap f (view_of-fresh a))
            ∙ ap
                (λ (x : Option (StateObject Trie)).
                  with_account B (observe B s) a
                    (some (f (Option.get_or (Option.map (view_of B) x) (blank B a)))))
                (sym absent))
  ]

  object_add_balance-Does :
      (amount : ℤ)
      → Does
          (λ o j. object_add_balance B o j amount)
          (λ v. record v { balance = v.balance +ℤ amount })
  unfolding object_add_balance object_set_balance set_balance touch
  object_add_balance-Does amount o j = elim (Bool-cases (is_zero amount)) [
    | inl nothing ↦
        let same : view_of B o ≡ (record (view_of B o) { balance = o.account.balance +ℤ amount }) =
          ap (λ (n : ℤ). record (view_of B o) { balance = n })
            (+ℤ-is_zero o.account.balance amount nothing) in
        ground (arith, same)
    | inr change ↦ rw change (refl, refl)
  ]

  object_sub_balance-Does :
      (amount : ℤ)
      → Does
          (λ o j. object_sub_balance B o j amount)
          (λ v. record v { balance = v.balance -ℤ amount })
  unfolding object_sub_balance object_set_balance set_balance
  object_sub_balance-Does amount o j = elim (Bool-cases (is_zero amount)) [
    | inl nothing ↦ rw nothing (
      ap (λ (n : ℤ). record (view_of B o) { balance = n })
          (-ℤ-is_zero o.account.balance amount nothing),
      refl,
    )
    | inr change ↦ rw change (refl, refl)
  ]

  object_set_balance-Does :
      (amount : ℤ)
      → Does (λ o j. object_set_balance B o j amount) (λ v. record v { balance = amount })
  unfolding object_set_balance set_balance
  object_set_balance-Does amount o j = (refl, refl)

  object_set_nonce-Does :
      (nonce : ℕ) → Does (λ o j. object_set_nonce B o j nonce) (λ v. record v { nonce = nonce })
  unfolding object_set_nonce set_nonce
  object_set_nonce-Does nonce o j = (refl, refl)

  object_set_code-Does :
      (hash : Bytes) (code : Option Bytes)
      → Does (λ o j. object_set_code B o j hash code) (recode B code hash)
  unfolding object_set_code set_code
  object_set_code-Does hash code o j =
      let (same, live) = object_code-SameView B o in (ap (recode B code hash) same, live)

  object_set_state-Does :
      (key value : Bytes)
      → Does
          (λ o j. object_set_state B o j key value)
          (λ v. record v { storage = update v.storage key value })
  unfolding object_set_state
  object_set_state-Does key value o j =
      let (same, live) = object_get_state-SameView B o key in
      (
        view_of-set_state B (object_get_state B o key).0 key value
            ∙ ap (λ (v : View). record v { storage = update v.storage key value }) same,
        unfold set_state in live,
      )

  object_set_pdx_state-Does :
      (key value : Bytes)
      → Does
          (λ o j. object_set_pdx_state B o j key value)
          (λ v. record v { pdx_storage = update v.pdx_storage key value })
  unfolding object_set_pdx_state
  object_set_pdx_state-Does key value o j =
      let (same, live) = object_get_pdx_state-SameView B o key in
      (
        view_of-set_pdx_state B (object_get_pdx_state B o key).0 key value
            ∙ ap (λ (v : View). record v { pdx_storage = update v.pdx_storage key value }) same,
        unfold set_pdx_state in live,
      )

  create_account-promise :
      (s : StateDb Trie) (a : Bytes)
      → observe B (create_account B s a) ≡ promise B (creating_account a) (observe B s)
  unfolding create_account promise
  create_account-promise s a = elim (Option-cases (peek B s a)) [
    | inl absent ↦
        rw (create_object-absent B s a absent, create_account)
          (rw (create_object-absent B s a absent)
            (observe-created B s a _ ∙ rw (view_of-fresh a, absent)))
    | inr (o, present) ↦
        let s1 = created B s a (reset_object_change o) in
        let carried = set_balance (fresh B a) o.account.balance in
        let after : observe B (write_back s1 a carried)
            ≡ with_account B (observe B s) a (some (view_of B carried)) =
          observe-write_back B s1 a carried (unfold set_balance set_nonce new_object in refl)
          ∙ ap (λ (w : World). with_account B w a (some (view_of B carried)))
              (observe-created B s a (reset_object_change o))
          ∙ ap (λ (f : Bytes → Option View). record (observe B s) { accounts = f })
              (update-update (observe B s).accounts a _ _) in
        let view : view_of B carried ≡ (record (blank B a) { balance = o.account.balance }) =
          unfold set_balance in
          ap (λ (v : View). record v { balance = o.account.balance }) (view_of-fresh a) in
        rw (create_object-present B s a o present, create_account)
          (rw (create_object-present B s a o present)
            (after ∙ ap (λ (v : View). with_account B (observe B s) a (some v)) view ∙ rw present))
  ]

  suicide-promise :
      (s : StateDb Trie) (a : Bytes)
      → observe B (suicide B s a).0 ≡ promise B (suiciding a) (observe B s)
  unfolding suicide promise
  suicide-promise s a = elim (Option-cases (peek B s a)) [
    | inl absent ↦
        rw (get_state_object-peek B s a, suicide)
          (rw (absent, promise) (observe-get_state_object B s a))
    | inr (o, present) ↦
        rw (get_state_object-peek B s a, suicide)
          (rw (present, promise)
            (unfold set_balance mark_suicided in
              (observe-journal B _ _
                ∙ observe-put B s a (set_balance (mark_suicided o) (pos 0))
                    (peek_live B s a o present))))
  ]

  add_preimage-promise :
      (s : StateDb Trie) (hash preimage : Bytes)
      → observe B (add_preimage s hash preimage)
        ≡ promise B (adding_preimage hash preimage) (observe B s)
  unfolding add_preimage promise
  add_preimage-promise s hash preimage = elim (Option-cases (lookup hash s.preimages)) [
    | inr (old, known) ↦ rw (known, add_preimage) (rw (known, promise))
    | inl new ↦
        rw (new, add_preimage)
          (rw (new, promise)
            (unfold peek in
              ap (λ (f : Bytes → Option Bytes). record (observe B s) { preimages = f })
                (fun_ext (λ h. lookup-insert hash h preimage s.preimages))))
  ]

  -- Each operation does to the view what it promises, caches, journal and lazy loading included: a
  -- setter changes the one field of the one account, which it creates blank where there is none,
  -- CreateAccount keeps the balance alone, and a getter changes nothing.
  pub perform-promise :
      (op : Op) (s : StateDb Trie) → observe B (perform B op s) ≡ promise B op (observe B s)
  unfolding perform promise
  perform-promise (adding_balance a amount) s =
      unfold add_balance in
      with_object-revise s a (λ o j. object_add_balance B o j amount)
        (λ v. record v { balance = v.balance +ℤ amount }) (object_add_balance-Does amount)
  perform-promise (subtracting_balance a amount) s =
      unfold sub_balance in
      with_object-revise s a (λ o j. object_sub_balance B o j amount)
        (λ v. record v { balance = v.balance -ℤ amount }) (object_sub_balance-Does amount)
  perform-promise (setting_balance a amount) s =
      unfold db_set_balance in
      with_object-revise s a (λ o j. object_set_balance B o j amount)
        (λ v. record v { balance = amount }) (object_set_balance-Does amount)
  perform-promise (setting_nonce a nonce) s =
      unfold db_set_nonce in
      with_object-revise s a (λ o j. object_set_nonce B o j nonce) (λ v. record v { nonce = nonce })
        (object_set_nonce-Does nonce)
  perform-promise (setting_code a code) s =
      unfold db_set_code in
      with_object-revise s a (λ o j. object_set_code B o j (keccak256 (code_bytes B code)) code)
        (recode B code (keccak256 (code_bytes B code)))
        (object_set_code-Does (keccak256 (code_bytes B code)) code)
  perform-promise (setting_state a key value) s =
      unfold db_set_state in
      with_object-revise s a (λ o j. object_set_state B o j key value)
        (λ v. record v { storage = update v.storage key value }) (object_set_state-Does key value)
  perform-promise (setting_pdx_state a key value) s =
      unfold db_set_pdx_state in
      with_object-revise s a (λ o j. object_set_pdx_state B o j key value)
        (λ v. record v { pdx_storage = update v.pdx_storage key value })
        (object_set_pdx_state-Does key value)
  perform-promise (creating_account a) s = create_account-promise s a
  perform-promise (suiciding a) s = suicide-promise s a
  perform-promise (adding_refund gas) s = unfold add_refund peek in refl
  perform-promise (adding_preimage hash preimage) s = add_preimage-promise s hash preimage
  perform-promise (preparing thash bhash ti) s = unfold prepare peek in refl
  perform-promise (asking_exist a) s = unfold exist in observe-get_state_object B s a
  perform-promise (asking_empty a) s = unfold empty in observe-get_state_object B s a
  perform-promise (getting_balance a) s = unfold get_balance in observe-get_state_object B s a
  perform-promise (getting_nonce a) s = unfold get_nonce in observe-get_state_object B s a
  perform-promise (getting_code_hash a) s = unfold get_code_hash in observe-get_state_object B s a
  perform-promise (asking_suicided a) s = unfold has_suicided in observe-get_state_object B s a
  perform-promise (getting_code a) s = get_code-observe B s a
  perform-promise (getting_state a key) s = get_state-observe B s a key
  perform-promise (getting_pdx_state a key) s = get_pdx_state-observe B s a key
