-- ===== src/State/Answers.antt =====
-- core/state/statedb.go: what the getters return, against the view.
use advance_golang.Base.{
  ◌≡◌, refl, sym, ap, ◌∙◌, inl, inr, Bool, true, false, ◌&&◌, Option, none, some,
}
use advance_golang.Base.{◌==◌, [], Option-cases}
use advance_golang.Base.Int.{pos, is_zero}
use advance_golang.Base.Maps.{Bytes, bytes_eq}
use advance_golang.State.Backend.{Backend}
use advance_golang.State.Db.{
  StateDb, get_state_object, exist, empty, get_balance, get_nonce, get_code_hash, has_suicided,
  with_getter, get_code, get_state, get_pdx_state,
}
use advance_golang.State.Object.{
  StateObject, empty_code_hash, is_empty, object_code, object_get_state, object_get_pdx_state,
}
use advance_golang.State.Reads.{
  object_code-value, object_get_state-value, object_get_pdx_state-value,
}
use advance_golang.State.View.{View, World, view_of, peek, observe, get_state_object-peek}
use advance_golang.Types.{bytes_to_hash, zero_hash}
use mathlib.Core.Option

-- The value of an account, or the default where there is none.
abbrev pub read {ℓ} : {A : Type ℓ} → World → Bytes → A → (View → A) → A
read w a default f = elim (w.accounts a) [ none ↦ default | some v ↦ f v ]

module _ (B : Backend) where
  open B use {Trie, keccak256}

  -- EIP-161: no nonce, no balance and no code.
  abbrev pub view_empty : View → Bool
  view_empty v = v.nonce == 0 && is_zero v.balance && bytes_eq v.code_hash (keccak256 [])

  read_at {ℓ} :
      {A : Type ℓ} (s : StateDb Trie) (a : Bytes) (default : A) (f : View → A)
      (x : Option (StateObject Trie))
      → peek B s a ≡ x
      → (elim x [ none ↦ default | some o ↦ f (view_of B o) ]) ≡ read (observe B s) a default f
  read_at s a default f none h = sym (
      ap
        (λ (y : Option (StateObject Trie)). elim (Option.map (view_of B) y) [
          | none ↦ default
          | some v ↦ f v
        ])
        h)
  read_at s a default f (some o) h = sym (
      ap
        (λ (y : Option (StateObject Trie)). elim (Option.map (view_of B) y) [
          | none ↦ default
          | some v ↦ f v
        ])
        h)

  found-read {ℓ} :
      {A : Type ℓ} (s : StateDb Trie) (a : Bytes) (default : A) (g : StateObject Trie → A)
      (f : View → A)
      → ((o : StateObject Trie) → g o ≡ f (view_of B o))
      → (elim (get_state_object B s a).1 [ none ↦ default | some o ↦ g o ])
        ≡ read (observe B s) a default f
  found-read s a default g f same = elim (Option-cases (peek B s a)) [
    | inl absent ↦ rw (get_state_object-peek B s a, absent) (read_at s a default f none absent)
    | inr (o, present) ↦
        rw (get_state_object-peek B s a, present) (same o ∙ read_at s a default f (some o) present)
  ]

  with_getter-read {ℓ} :
      {A : Type ℓ} (s : StateDb Trie) (a : Bytes) (default : A)
      (method : StateObject Trie → StateObject Trie × A) (f : View → A)
      → ((o : StateObject Trie) → (method o).1 ≡ f (view_of B o))
      → (with_getter B s a default method).1 ≡ read (observe B s) a default f
  unfolding with_getter
  with_getter-read s a default method f same = elim (Option-cases (peek B s a)) [
    | inl absent ↦
        rw (get_state_object-peek B s a, with_getter)
          (rw absent (read_at s a default f none absent))
    | inr (o, present) ↦
        rw (get_state_object-peek B s a, with_getter)
          (rw present (same o ∙ read_at s a default f (some o) present))
  ]

  -- The getters of accounts return the field of the account as it is seen, and for an address
  -- without an account: balance and nonce 0, the zero hash, not suicided, not existing, empty.
  pub account_getters-read :
      (s : StateDb Trie) (a : Bytes)
      → ((get_balance B s a).1 ≡ read (observe B s) a (pos 0) (λ v. v.balance))
        × ((get_nonce B s a).1 ≡ read (observe B s) a 0 (λ v. v.nonce))
        × ((get_code_hash B s a).1
            ≡ read (observe B s) a zero_hash (λ v. bytes_to_hash v.code_hash))
        × ((has_suicided B s a).1 ≡ read (observe B s) a false (λ v. v.suicided))
        × ((exist B s a).1 ≡ read (observe B s) a false (λ v. true))
        × ((empty B s a).1 ≡ read (observe B s) a true view_empty)
  unfolding get_balance get_nonce get_code_hash has_suicided exist empty is_empty empty_code_hash
  account_getters-read s a = (
    found-read s a (pos 0) (λ o. o.account.balance) (λ v. v.balance) (λ o. refl),
    found-read s a 0 (λ o. o.account.nonce) (λ v. v.nonce) (λ o. refl),
    found-read s a zero_hash (λ o. bytes_to_hash o.account.code_hash)
        (λ v. bytes_to_hash v.code_hash) (λ o. refl),
    found-read s a false (λ o. o.suicided) (λ v. v.suicided) (λ o. refl),
    found-read s a false (λ o. true) (λ v. true) (λ o. refl),
    found-read s a true (is_empty B) view_empty (λ o. refl),
  )

  -- GetCode, GetState and GetPDXState return the code and the slots of the account as they are seen,
  -- cached or not, and nil, the zero hash and no bytes for an address without an account.
  pub storage_getters-read :
      (s : StateDb Trie) (a key : Bytes)
      → ((get_code B s a).1 ≡ read (observe B s) a none (λ v. v.code))
        × ((get_state B s a key).1 ≡ read (observe B s) a zero_hash (λ v. v.storage key))
        × ((get_pdx_state B s a key).1 ≡ read (observe B s) a [] (λ v. v.pdx_storage key))
  unfolding get_code get_state get_pdx_state
  storage_getters-read s a key = (
    with_getter-read s a none (object_code B) (λ v. v.code) (object_code-value B),
    with_getter-read s a zero_hash (λ o. object_get_state B o key) (λ v. v.storage key)
        (λ o. object_get_state-value B o key),
    with_getter-read s a [] (λ o. object_get_pdx_state B o key) (λ v. v.pdx_storage key)
        (λ o. object_get_pdx_state-value B o key),
  )
