-- ===== src/State/Undo.antt =====
-- The journal on the view of a StateDB: what undoing an entry means, and that the revert methods
-- implement it, panics included.
use advance_golang.Base.{◌≡◌, refl, sym, ap, ◌∙◌, Bool, false, Option, none, some, arith}
use advance_golang.Base.{if◌then◌else◌, List, [], ◌∷◌, Option-cases, inl, inr}
use advance_golang.Base.Int.{ℤ}
use advance_golang.Base.Maps.{
  Bytes, bytes_eq, bytes_eq_iff, lookup, delete, lookup-delete, lookup-insert,
}
use advance_golang.State.Backend.{Backend}
use advance_golang.State.Db.{StateDb, set_state_object, write_back, get_state_object}
use advance_golang.State.Object.{
  StateObject, new_object, JournalEntry, create_object_change, reset_object_change, suicide_change,
  balance_change, nonce_change, storage_change, pdx_storage_change, code_change, refund_change,
  add_preimage_change, touch_change, Journal, set_balance, set_nonce, set_code, set_state,
  set_pdx_state,
}
use advance_golang.State.Revert.{at_object, revert_entry, revert_loop, clean, ◌>>=◌}
use advance_golang.State.View.{
  View, World, update, code_value, storage_value, pdx_value, view_of, shown, peek, observe,
  stored_object, get_state_object-peek, observe-get_state_object, observe-write_back,
  peek-write_back,
}
use advance_golang.Types.{bytes_to_hash}
use mathlib.Core.Option
use mathlib.Core.Path.{fun_ext}

module _ (B : Backend) where
  open B use {Trie}

  abbrev pub with_account : World → Bytes → Option View → World
  with_account w a v = record w { accounts = update w.accounts a v }

  -- A change of the account at an address; `none` where there is no account.
  unfoldable pub alter : World → Bytes → (View → View) → Option World
  alter w a f = elim (w.accounts a) [ none ↦ none | some v ↦ some (with_account w a (some (f v))) ]

  abbrev pub recode : Option Bytes → Bytes → View → View
  recode code hash v = record v { code_hash = hash; code = code_value B v.addr_hash hash code }

  unfoldable pub undo : JournalEntry Trie → World → Option World
  undo (create_object_change a) w = some (with_account w a (w.stored a))
  undo (reset_object_change o) w =
      some (with_account w o.address (Option.map (view_of B) (shown B o)))
  undo (suicide_change a prev prevbalance) w = elim (w.accounts a) [
    | none ↦ some w
    | some v ↦ some (with_account w a (some (record v { suicided = prev; balance = prevbalance })))
  ]
  undo (balance_change a prev) w = alter w a (λ v. record v { balance = prev })
  undo (nonce_change a prev) w = alter w a (λ v. record v { nonce = prev })
  undo (storage_change a key prev) w =
      alter w a (λ v. record v { storage = update v.storage key prev })
  undo (pdx_storage_change a key prev) w =
      alter w a (λ v. record v { pdx_storage = update v.pdx_storage key prev })
  undo (code_change a prevcode prevhash) w = alter w a (recode prevcode (bytes_to_hash prevhash))
  undo (refund_change prev) w = some (record w { refund = prev })
  undo (add_preimage_change hash) w = some (record w { preimages = update w.preimages hash none })
  undo (touch_change a) w = some w

  unfoldable pub undo_all : List (JournalEntry Trie) → World → Option World
  undo_all [] w = some w
  undo_all (entry ∷ entries) w = do w' ← undo entry w; undo_all entries w'

  pub view_of-set_state :
      (o : StateObject Trie) (key value : Bytes)
      → view_of B (set_state o key value)
        ≡ (let v = view_of B o in record v { storage = update v.storage key value })
  unfolding set_state storage_value
  view_of-set_state o key value =
      ap (λ (f : Bytes → Bytes). record (view_of B o) { storage = f })
        (fun_ext (λ j. ground (arith, lookup-insert key j value o.cached_storage)))

  pub view_of-set_pdx_state :
      (o : StateObject Trie) (key value : Bytes)
      → view_of B (set_pdx_state o key value)
        ≡ (let v = view_of B o in record v { pdx_storage = update v.pdx_storage key value })
  unfolding set_pdx_state pdx_value
  view_of-set_pdx_state o key value =
      ap (λ (f : Bytes → Bytes). record (view_of B o) { pdx_storage = f })
        (fun_ext (λ j. ground (arith, lookup-insert key j value o.pdx_cached_storage)))

  -- What is found at an address is not deleted.
  pub peek_live :
      (s : StateDb Trie) (a : Bytes) (o : StateObject Trie)
      → peek B s a ≡ some o
      → o.deleted ≡ false
  unfolding peek stored_object new_object
  peek_live s a o h = ground arith

  pub observe-put :
      (s : StateDb Trie) (a : Bytes) (o : StateObject Trie)
      → o.deleted ≡ false
      → observe B (write_back (get_state_object B s a).0 a o)
        ≡ with_account (observe B s) a (some (view_of B o))
  observe-put s a o live =
      observe-write_back B (get_state_object B s a).0 a o live
      ∙ ap (λ (w : World). with_account w a (some (view_of B o))) (observe-get_state_object B s a)

  -- `getStateObject(addr).set…(…)` on the view.
  at_object-alter :
      (s : StateDb Trie) (a : Bytes) (f : StateObject Trie → StateObject Trie) (g : View → View)
      → ((o : StateObject Trie) → (f o).deleted ≡ o.deleted)
      → ((o : StateObject Trie) → view_of B (f o) ≡ g (view_of B o))
      → Option.map (observe B) (at_object B s a f) ≡ alter (observe B s) a g
  unfolding at_object alter
  at_object-alter s a f g live same = elim (Option-cases (peek B s a)) [
    | inl absent ↦ rw (get_state_object-peek B s a, at_object) (rw (absent, alter))
    | inr (o, present) ↦
        rw (get_state_object-peek B s a, at_object)
          (rw (present, alter)
            (ap some (
              observe-put s a (f o) (live o ∙ peek_live s a o present)
              ∙ ap (λ (v : View). with_account (observe B s) a (some v)) (same o))))
  ]

  -- A StateDB that differs in the account at one address.
  observe-account :
      (s t : StateDb Trie) (a : Bytes) (v : Option View)
      → ((b : Bytes)
          → Option.map (view_of B) (peek B t b)
            ≡ (if bytes_eq a b then v else Option.map (view_of B) (peek B s b)))
      → t.trie ≡ s.trie
      → t.refund ≡ s.refund
      → t.preimages ≡ s.preimages
      → observe B t ≡ with_account (observe B s) a v
  observe-account s t a v h p q r = λ i. record {
    accounts = λ b. h b i;
    stored = λ b. Option.map (view_of B) (stored_object B (p i) b);
    refund = q i;
    preimages = λ x. lookup x (r i);
  }

  pub observe-delete :
      (s : StateDb Trie) (a : Bytes)
      → observe B (record s {
        state_objects = delete a s.state_objects;
        state_objects_dirty = delete a s.state_objects_dirty;
      })
        ≡ with_account (observe B s) a ((observe B s).stored a)
  unfolding peek
  observe-delete s a =
      let t = record s {
        state_objects = delete a s.state_objects;
        state_objects_dirty = delete a s.state_objects_dirty;
      } in
      observe-account s t a ((observe B s).stored a)
        (λ b. ground (arith, lookup-delete a b s.state_objects, bytes_eq_iff a b)) refl refl refl

  pub observe-set_state_object :
      (s : StateDb Trie) (o : StateObject Trie)
      → observe B (set_state_object s o)
        ≡ with_account (observe B s) o.address (Option.map (view_of B) (shown B o))
  unfolding set_state_object
  observe-set_state_object s o =
      observe-account s (write_back s o.address o) o.address _
        (λ b. rw (peek-write_back B s o.address o b) (ground arith)) refl refl refl

  observe-preimages :
      (s : StateDb Trie) (hash : Bytes)
      → observe B (record s { preimages = delete hash s.preimages })
        ≡ (let w = observe B s in record w { preimages = update w.preimages hash none })
  unfolding peek
  observe-preimages s hash = λ i. record {
    accounts = (observe B s).accounts;
    stored = (observe B s).stored;
    refund = s.refund;
    preimages = λ x. lookup-delete hash x s.preimages i;
  }

  revert_suicide-undo :
      (s : StateDb Trie) (a : Bytes) (prev : Bool) (prevbalance : ℤ)
      → Option.map (observe B) (revert_entry B (suicide_change a prev prevbalance) s)
        ≡ undo (suicide_change a prev prevbalance) (observe B s)
  unfolding revert_entry undo
  revert_suicide-undo s a prev prevbalance = elim (Option-cases (peek B s a)) [
    | inl absent ↦
        rw (get_state_object-peek B s a, revert_entry)
          (rw (absent, undo) (ap some (observe-get_state_object B s a)))
    | inr (o, present) ↦
        rw (get_state_object-peek B s a, revert_entry)
          (rw (present, undo)
            (ap some (
              unfold set_balance in
              observe-put s a (set_balance (record o { suicided = prev }) prevbalance)
                (peek_live s a o present))))
  ]

  -- Undoing an entry of the journal in the StateDB undoes it in the view; the two panic together.
  pub revert_entry-undo :
      (entry : JournalEntry Trie) (s : StateDb Trie)
      → Option.map (observe B) (revert_entry B entry s) ≡ undo entry (observe B s)
  unfolding revert_entry undo
  revert_entry-undo (create_object_change a) s = ap some (observe-delete s a)
  revert_entry-undo (reset_object_change o) s = ap some (observe-set_state_object s o)
  revert_entry-undo (suicide_change a prev prevbalance) s = revert_suicide-undo s a prev prevbalance
  revert_entry-undo (balance_change a prev) s =
      unfold set_balance in at_object-alter s a _ _ (λ o. refl) (λ o. refl)
  revert_entry-undo (nonce_change a prev) s =
      unfold set_nonce in at_object-alter s a _ _ (λ o. refl) (λ o. refl)
  revert_entry-undo (storage_change a key prev) s =
      at_object-alter s a (λ o. set_state o key prev) _ (λ o. unfold set_state in refl)
        (λ o. view_of-set_state o key prev)
  revert_entry-undo (pdx_storage_change a key prev) s =
      at_object-alter s a (λ o. set_pdx_state o key prev) _ (λ o. unfold set_pdx_state in refl)
        (λ o. view_of-set_pdx_state o key prev)
  revert_entry-undo (code_change a prevcode prevhash) s =
      unfold set_code in at_object-alter s a _ _ (λ o. refl) (λ o. refl)
  revert_entry-undo (refund_change prev) s = unfold peek in refl
  revert_entry-undo (add_preimage_change hash) s = ap some (observe-preimages s hash)
  revert_entry-undo (touch_change a) s = refl

  pub observe-journal :
      (s : StateDb Trie) (j : Journal Trie) → observe B (record s { journal = j }) ≡ observe B s
  unfolding peek
  observe-journal s j = refl

  -- On what callers can see, the loop undoes its entries one after the other.
  pub revert_loop-undo_all :
      (entries : List (JournalEntry Trie)) (s : StateDb Trie)
      → Option.map (observe B) (revert_loop B entries s) ≡ undo_all entries (observe B s)
  unfolding revert_loop undo_all
  revert_loop-undo_all [] s = refl
  revert_loop-undo_all (entry ∷ entries) s = elim (Option-cases (revert_entry B entry s)) [
    | inl panics ↦
        let w : undo entry (observe B s) ≡ none = sym (rw panics at (revert_entry-undo entry s)) in
        rw (panics, revert_loop) (rw (w, undo_all))
    | inr (s1, goes) ↦
        let w : undo entry (observe B s) ≡ some (observe B s1) =
          sym (rw goes at (revert_entry-undo entry s)) in
        rw (goes, revert_loop)
          (rw (w, undo_all)
            (revert_loop-undo_all entries (record s1 { journal = clean s1.journal entry })
              ∙ ap (undo_all entries) (observe-journal s1 (clean s1.journal entry))))
  ]
