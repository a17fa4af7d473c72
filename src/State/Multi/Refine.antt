-- ===== src/State/Multi/Refine.antt =====
-- The operations of MStateDB against those of StateDB: on the StateDB that has pulled the account
-- in, they do the same.
use advance_golang.Base.{ℕ, ◌≡◌, refl, ap, ◌∙◌, true, false, inl, inr, Option, none, some}
use advance_golang.Base.{Bool-cases, Option-cases, sym}
use advance_golang.Base.Int.{ℤ, pos}
use advance_golang.Base.Maps.{Bytes}
use advance_golang.State.Backend.{Backend}
use advance_golang.State.Db.{
  StateDb, get_state_object, create_object, get_or_new_state_object, create_account, with_object,
  with_getter, add_balance, sub_balance, db_set_balance, db_set_nonce, db_set_state,
  db_set_pdx_state, suicide, exist, empty, get_balance, get_nonce, get_code_hash, has_suicided,
  get_code, get_state, get_pdx_state,
}
use advance_golang.State.Multi.{
  MStateDb, multi_get_state_object, multi_create_object, multi_get_or_new_state_object,
}
use advance_golang.State.Multi.Methods.{
  multi_exist, multi_empty, multi_get_balance, multi_get_nonce, multi_get_code_hash,
  multi_has_suicided, multi_with_getter, multi_get_code, multi_get_state, multi_get_pdx_state,
  multi_with_object, multi_add_balance, multi_sub_balance, multi_set_balance, multi_set_nonce,
  multi_set_state, multi_set_pdx_state, multi_suicide, multi_create_account, multi_read,
}
use advance_golang.State.Multi.Pulled.{pulled, multi_get_state_object-Pulled}
use advance_golang.State.Object.{StateObject, Journal}

module _ (B : Backend) where
  open B use {Trie}

  -- The StateDB of a result.
  abbrev pub inner {ℓ} : {A : Type ℓ} → MStateDb Trie × A → StateDb Trie × A
  inner (s, a) = (s.stdb, a)

  abbrev inner_made :
      MStateDb Trie × StateObject Trie × Option (StateObject Trie)
      → StateDb Trie × StateObject Trie × Option (StateObject Trie)
  inner_made (s, o, prev) = (s.stdb, o, prev)

  module _ (s : MStateDb Trie) (addr : Bytes) where
    abbrev got : MStateDb Trie × Option (StateObject Trie)
    got = multi_get_state_object B s addr

    same_get : get_state_object B (pulled B s addr) addr ≡ (pulled B s addr, got.1)
    same_get = (multi_get_state_object-Pulled B s addr).single

    again : multi_get_state_object B got.0 addr ≡ got
    again = (multi_get_state_object-Pulled B s addr).again

    same_create : inner_made (multi_create_object B s addr) ≡ create_object B (pulled B s addr) addr
    unfolding multi_create_object create_object
    same_create = rw (same_get, create_object) refl

  same_create_again :
      (s : MStateDb Trie) (addr : Bytes)
      → inner_made (multi_create_object B (multi_get_state_object B s addr).0 addr)
        ≡ create_object B (pulled B s addr) addr
  same_create_again s addr =
      same_create (multi_get_state_object B s addr).0 addr
      ∙ ap (λ (p : MStateDb Trie × Option (StateObject Trie)). create_object B p.0.stdb addr)
          (again s addr)

  same_get_or_new :
      (s : MStateDb Trie) (addr : Bytes)
      → inner (multi_get_or_new_state_object B s addr)
        ≡ get_or_new_state_object B (pulled B s addr) addr
  unfolding multi_get_or_new_state_object get_or_new_state_object
  same_get_or_new s addr =
      let made = same_create_again s addr in
      rw (same_get s addr, get_or_new_state_object)
        (elim (Option-cases (multi_get_state_object B s addr).1) [
          | inl h ↦
              rw (h, multi_get_or_new_state_object)
                (rw (same_get s addr) (ap (λ p. (p.0, p.1)) made))
          | inr (o, h) ↦
              rw (h, multi_get_or_new_state_object)
                (elim (Bool-cases o.deleted) [
                  | inl dead ↦ rw dead (rw (same_get s addr) (ap (λ p. (p.0, p.1)) made))
                  | inr alive ↦ rw alive (rw (same_get s addr) refl)
                ])
        ])

  same_with_object :
      (s : MStateDb Trie) (addr : Bytes)
      (method : StateObject Trie → Journal Trie → StateObject Trie × Journal Trie)
      → (multi_with_object B s addr method).stdb ≡ with_object B (pulled B s addr) addr method
  unfolding multi_with_object with_object
  same_with_object s addr method = rw (sym (same_get_or_new s addr), with_object) refl

  same_with_getter {ℓ} :
      {A : Type ℓ} (s : MStateDb Trie) (addr : Bytes) (default : A)
      (method : StateObject Trie → StateObject Trie × A)
      → inner (multi_with_getter B s addr default method)
        ≡ with_getter B (pulled B s addr) addr default method
  unfolding multi_with_getter with_getter
  same_with_getter s addr default method =
      rw (same_get s addr, with_getter)
        (elim (Option-cases (multi_get_state_object B s addr).1) [
          | inl h ↦ rw (h, multi_with_getter) (rw (same_get s addr) refl)
          | inr (o, h) ↦ rw (h, multi_with_getter) (rw (same_get s addr) refl)
        ])

  same_suicide :
      (s : MStateDb Trie) (addr : Bytes)
      → inner (multi_suicide B s addr) ≡ suicide B (pulled B s addr) addr
  unfolding multi_suicide suicide
  same_suicide s addr =
      rw (same_get s addr, suicide)
        (elim (Option-cases (multi_get_state_object B s addr).1) [
          | inl h ↦ rw (h, multi_suicide) (rw (same_get s addr) refl)
          | inr (o, h) ↦ rw (h, multi_suicide) (rw (same_get s addr) refl)
        ])

  same_create_account :
      (s : MStateDb Trie) (addr : Bytes)
      → (multi_create_account B s addr).stdb ≡ create_account B (pulled B s addr) addr
  unfolding multi_create_account create_account
  same_create_account s addr =
      rw (sym (same_create s addr), create_account)
        (elim (Option-cases (multi_create_object B s addr).2) [
          | inl h ↦ rw (h, multi_create_account) (rw (sym (same_create s addr)) refl)
          | inr (o, h) ↦ rw (h, multi_create_account) (rw (sym (same_create s addr)) refl)
        ])

  -- What the setters do to the StateDB.
  abbrev pub SettersAgree : MStateDb Trie → Bytes → Type 0
  SettersAgree s addr =
      ((v : ℤ) → (multi_add_balance B s addr v).stdb ≡ add_balance B (pulled B s addr) addr v)
      × ((v : ℤ) → (multi_sub_balance B s addr v).stdb ≡ sub_balance B (pulled B s addr) addr v)
      × ((v : ℤ) → (multi_set_balance B s addr v).stdb ≡ db_set_balance B (pulled B s addr) addr v)
      × ((n : ℕ) → (multi_set_nonce B s addr n).stdb ≡ db_set_nonce B (pulled B s addr) addr n)
      × ((k v : Bytes)
          → (multi_set_state B s addr k v).stdb ≡ db_set_state B (pulled B s addr) addr k v)
      × ((k v : Bytes)
          → (multi_set_pdx_state B s addr k v).stdb ≡ db_set_pdx_state B (pulled B s addr) addr k v)
      × (inner (multi_suicide B s addr) ≡ suicide B (pulled B s addr) addr)
      × ((multi_create_account B s addr).stdb ≡ create_account B (pulled B s addr) addr)

  -- On any account, a setter of MStateDB does to its StateDB what the setter of StateDB does once the
  -- account has been pulled in from the map of the context or from the trie.
  pub multi_setters-setters : (s : MStateDb Trie) (addr : Bytes) → SettersAgree s addr
  unfolding multi_add_balance add_balance multi_sub_balance sub_balance multi_set_balance
      db_set_balance multi_set_nonce db_set_nonce multi_set_state db_set_state multi_set_pdx_state
      db_set_pdx_state
  multi_setters-setters s addr = (
    λ v. same_with_object s addr _,
    λ v. same_with_object s addr _,
    λ v. same_with_object s addr _,
    λ n. same_with_object s addr _,
    λ k v. same_with_object s addr _,
    λ k v. same_with_object s addr _,
    same_suicide s addr,
    same_create_account s addr,
  )

  same_read :
      {A : Type 0} (s : MStateDb Trie) (addr : Bytes) (default : A) (field : StateObject Trie → A)
      → inner (multi_read B s addr default field) ≡ (
        (get_state_object B (pulled B s addr) addr).0,
        elim (get_state_object B (pulled B s addr) addr).1 [ none ↦ default | some o ↦ field o ],
      )
  unfolding multi_read
  same_read s addr default field = rw (same_get s addr) refl

  -- What the getters answer, with the StateDB that they leave.
  abbrev pub GettersAgree : MStateDb Trie → Bytes → Type 0
  GettersAgree s addr =
      (inner (multi_exist B s addr) ≡ exist B (pulled B s addr) addr)
      × (inner (multi_empty B s addr) ≡ empty B (pulled B s addr) addr)
      × (inner (multi_get_balance B s addr) ≡ get_balance B (pulled B s addr) addr)
      × (inner (multi_get_nonce B s addr) ≡ get_nonce B (pulled B s addr) addr)
      × (inner (multi_get_code_hash B s addr) ≡ get_code_hash B (pulled B s addr) addr)
      × (inner (multi_has_suicided B s addr) ≡ has_suicided B (pulled B s addr) addr)
      × (inner (multi_get_code B s addr) ≡ get_code B (pulled B s addr) addr)
      × ((key : Bytes)
          → inner (multi_get_state B s addr key) ≡ get_state B (pulled B s addr) addr key)
      × ((key : Bytes)
          → inner (multi_get_pdx_state B s addr key) ≡ get_pdx_state B (pulled B s addr) addr key)

  -- On any account, a getter of MStateDB answers what the getter of StateDB answers once the account
  -- has been pulled in, and leaves the StateDB in the same state; GetCodeSize and StorageTrie aside.
  pub multi_getters-getters : (s : MStateDb Trie) (addr : Bytes) → GettersAgree s addr
  unfolding multi_exist exist multi_empty empty multi_get_balance get_balance multi_get_nonce
      get_nonce multi_get_code_hash get_code_hash multi_has_suicided has_suicided multi_get_code
      get_code multi_get_state get_state multi_get_pdx_state get_pdx_state
  multi_getters-getters s addr = (
    same_read s addr false _,
    same_read s addr true _,
    same_read s addr (pos 0) _,
    same_read s addr 0 _,
    same_read s addr _ _,
    same_read s addr false _,
    same_with_getter s addr none _,
    λ key. same_with_getter s addr _ _,
    λ key. same_with_getter s addr _ _,
  )
