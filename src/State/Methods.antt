-- ===== src/State/Methods.antt =====
-- What the setters of stateObject record: at most one journal entry, which undoes the change.
use advance_golang.Base.{ℕ, ◌≡◌, refl, sym, ap, ◌∙◌, ◌⊎◌, inl, inr, Option, some, arith}
use advance_golang.Base.{[], ◌∷◌, ◌++◌, length, Bool-cases}
use advance_golang.Base.Int.{ℤ, ◌+ℤ◌, ◌-ℤ◌, is_zero}
use advance_golang.Base.Maps.{Bytes}
use advance_golang.State.Backend.{Backend}
use advance_golang.State.Object.{
  StateObject, JournalEntry, balance_change, nonce_change, storage_change, pdx_storage_change,
  code_change, touch_change, Journal, dirty, append, set_balance, set_nonce, set_code, set_state,
  set_pdx_state, is_empty, object_get_state, object_get_pdx_state, object_code, touch,
  object_set_balance, object_add_balance, object_sub_balance, object_set_nonce, object_set_code,
  object_set_state, object_set_pdx_state,
}
use advance_golang.State.Reads.{
  object_code-value, object_code-SameView, object_get_state-value, object_get_state-SameView,
  object_get_pdx_state-value, object_get_pdx_state-SameView,
}
use advance_golang.State.Undo.{
  alter, undo, with_account, recode, view_of-set_state, view_of-set_pdx_state,
}
use advance_golang.State.View.{code_value, View, World, update, update_same, update-update, view_of}
use advance_golang.Types.{bytes_to_hash, bytes_to_hash_self, hash_length}

pub entries-append :
    {Trie : Type 0} (j : Journal Trie) (e : JournalEntry Trie)
    → (append j e).entries ≡ j.entries ++ (e ∷ [])
unfolding append dirty
entries-append j e = ground arith

module _ (B : Backend) where
  open B use {Trie}

  -- No entry, and no change that a caller can read.
  abbrev pub Silent : StateObject Trie → Journal Trie → StateObject Trie × Journal Trie → Type 0
  Silent o j r = (r.1.entries ≡ j.entries) × (view_of B r.0 ≡ view_of B o)

  -- One entry, which takes the account back.
  abbrev pub Noted :
      StateObject Trie → Journal Trie → StateObject Trie × Journal Trie → JournalEntry Trie → Type 0
  Noted o j r e =
      (r.1.entries ≡ j.entries ++ (e ∷ []))
      × ((w : World)
          → w.accounts o.address ≡ some (view_of B r.0)
          → undo B e w ≡ some (with_account B w o.address (some (view_of B o))))

  pub record Logged (o : StateObject Trie) (j : Journal Trie) (r : StateObject Trie × Journal Trie)
      : Type 0 where
    pub live : r.0.deleted ≡ o.deleted
    pub address : r.0.address ≡ o.address
    pub hashed : length r.0.account.code_hash ≡ hash_length
    pub log : Silent o j r ⊎ ((e : JournalEntry Trie) × Noted o j r e)

  -- An `alter` that puts the old view back.
  pub alter_back :
      (w : World) (a : Bytes) (g : View → View) (v v' : View)
      → w.accounts a ≡ some v'
      → g v' ≡ v
      → alter B w a g ≡ some (with_account B w a (some v))
  unfolding alter
  alter_back w a g v v' found back =
      rw (found, alter) (ap (λ (u : View). some (with_account B w a (some u))) back)

  -- A slot that is set and set back.
  storage_back :
      (v : View) (key value prev : Bytes)
      → v.storage key ≡ prev
      → (record v { storage = update (update v.storage key value) key prev }) ≡ v
  storage_back v key value prev h =
      ap (λ (f : Bytes → Bytes). record v { storage = f })
        (update-update v.storage key value prev ∙ update_same v.storage key prev h)

  pdx_storage_back :
      (v : View) (key value prev : Bytes)
      → v.pdx_storage key ≡ prev
      → (record v { pdx_storage = update (update v.pdx_storage key value) key prev }) ≡ v
  pdx_storage_back v key value prev h =
      ap (λ (f : Bytes → Bytes). record v { pdx_storage = f })
        (update-update v.pdx_storage key value prev ∙ update_same v.pdx_storage key prev h)

  module _ (o : StateObject Trie) (j : Journal Trie)
      (hashed : length o.account.code_hash ≡ hash_length) where
    -- A setter that appends an entry whose undoing is an `alter` back to the old view.
    altered-Logged :
        (o' : StateObject Trie) (e : JournalEntry Trie) (g : View → View)
        → o'.deleted ≡ o.deleted
        → o'.address ≡ o.address
        → length o'.account.code_hash ≡ hash_length
        → ((w : World) → undo B e w ≡ alter B w o.address g)
        → g (view_of B o') ≡ view_of B o
        → Logged o j (o', append j e)
    altered-Logged o' e g live address hashed' undoes back = record {
      live = live;
      address = address;
      hashed = hashed';
      log = inr (
        e,
        (
          entries-append j e,
          λ w found. undoes w ∙ alter_back w o.address g (view_of B o) (view_of B o') found back,
        ),
      );
    }

    silent-Logged : (j' : Journal Trie) → j'.entries ≡ j.entries → Logged o j (o, j')
    silent-Logged j' h = record {
      live = refl;
      address = refl;
      hashed = hashed;
      log = inl (h, refl);
    }

    touch-Logged : Logged o j (touch B o j)
    unfolding touch undo
    touch-Logged = record {
      live = refl;
      address = refl;
      hashed = hashed;
      log = inr (
        touch_change o.address,
        (
          unfold dirty in ground (arith, entries-append j (touch_change o.address)),
          λ w found.
              ap (λ (f : Bytes → Option View). some (record w { accounts = f }))
                (sym (update_same w.accounts o.address (some (view_of B o)) found)),
        ),
      );
    }

    pub object_set_balance-Logged : (amount : ℤ) → Logged o j (object_set_balance B o j amount)
    unfolding object_set_balance set_balance undo
    object_set_balance-Logged amount =
        altered-Logged (set_balance o amount) (balance_change o.address o.account.balance)
          (λ v. record v { balance = o.account.balance }) refl refl hashed (λ w. refl) refl

    pub object_set_nonce-Logged : (nonce : ℕ) → Logged o j (object_set_nonce B o j nonce)
    unfolding object_set_nonce set_nonce undo
    object_set_nonce-Logged nonce =
        altered-Logged (set_nonce o nonce) (nonce_change o.address o.account.nonce)
          (λ v. record v { nonce = o.account.nonce }) refl refl hashed (λ w. refl) refl

    pub object_sub_balance-Logged : (amount : ℤ) → Logged o j (object_sub_balance B o j amount)
    unfolding object_sub_balance
    object_sub_balance-Logged amount = elim (Bool-cases (is_zero amount)) [
      | inl nothing ↦ rw nothing (silent-Logged j refl)
      | inr change ↦ rw change (object_set_balance-Logged (o.account.balance -ℤ amount))
    ]

    pub object_add_balance-Logged : (amount : ℤ) → Logged o j (object_add_balance B o j amount)
    unfolding object_add_balance
    object_add_balance-Logged amount = elim (Bool-cases (is_zero amount)) [
      | inl nothing ↦ elim (Bool-cases (is_empty B o)) [
        | inl touched ↦ rw (nothing, touched) touch-Logged
        | inr quiet ↦ rw (nothing, quiet) (silent-Logged j refl)
      ]
      | inr change ↦ rw change (object_set_balance-Logged (o.account.balance +ℤ amount))
    ]

    pub object_set_state-Logged :
        (key value : Bytes) → Logged o j (object_set_state B o j key value)
    unfolding object_set_state
    object_set_state-Logged key value =
        let (same, live) = object_get_state-SameView B o key in
        let o1 = (object_get_state B o key).0 in
        let prev = (object_get_state B o key).1 in
        altered-Logged (set_state o1 key value) (storage_change o1.address key prev)
          (λ v. record v { storage = update v.storage key prev }) (unfold set_state in live)
          (unfold set_state in ap (λ (v : View). v.address) same)
          (unfold set_state in ap (λ (v : View). length v.code_hash) same ∙ hashed)
          (λ w.
            unfold undo in
            ap (λ (a : Bytes). alter B w a (λ v. record v { storage = update v.storage key prev }))
              (ap (λ (v : View). v.address) same))
          (ap (λ (v : View). record v { storage = update v.storage key prev })
              (view_of-set_state B o1 key value
                ∙ ap (λ (v : View). record v { storage = update v.storage key value }) same)
            ∙ storage_back (view_of B o) key value prev (sym (object_get_state-value B o key)))

    pub object_set_pdx_state-Logged :
        (key value : Bytes) → Logged o j (object_set_pdx_state B o j key value)
    unfolding object_set_pdx_state
    object_set_pdx_state-Logged key value =
        let (same, live) = object_get_pdx_state-SameView B o key in
        let o1 = (object_get_pdx_state B o key).0 in
        let prev = (object_get_pdx_state B o key).1 in
        altered-Logged (set_pdx_state o1 key value) (pdx_storage_change o1.address key prev)
          (λ v. record v { pdx_storage = update v.pdx_storage key prev })
          (unfold set_pdx_state in live) (unfold set_pdx_state in ap (λ (v : View). v.address) same)
          (unfold set_pdx_state in ap (λ (v : View). length v.code_hash) same ∙ hashed)
          (λ w.
            unfold undo in
            ap
              (λ (a : Bytes).
                alter B w a (λ v. record v { pdx_storage = update v.pdx_storage key prev }))
              (ap (λ (v : View). v.address) same))
          (ap (λ (v : View). record v { pdx_storage = update v.pdx_storage key prev })
              (view_of-set_pdx_state B o1 key value
                ∙ ap (λ (v : View). record v { pdx_storage = update v.pdx_storage key value }) same)
            ∙ pdx_storage_back (view_of B o) key value prev
                (sym (object_get_pdx_state-value B o key)))

    -- The code that was read, put back under its own hash.
    recode_back :
        (code : Option Bytes)
        → code ≡ code_value B o.addr_hash o.account.code_hash o.code
        → recode B code (bytes_to_hash o.account.code_hash) (view_of B o) ≡ view_of B o
    unfolding code_value
    recode_back code h =
        rw (bytes_to_hash_self o.account.code_hash hashed, h)
          (ap (λ (c : Option Bytes). record (view_of B o) { code = c }) (ground arith))

    pub object_set_code-Logged :
        (hash : Bytes) (code : Option Bytes)
        → length hash ≡ hash_length
        → Logged o j (object_set_code B o j hash code)
    unfolding object_set_code
    object_set_code-Logged hash code full =
        let (same, live) = object_code-SameView B o in
        let o1 = (object_code B o).0 in
        let prev = (object_code B o).1 in
        altered-Logged (set_code o1 hash code) (code_change o1.address prev o1.account.code_hash)
          (recode B prev (bytes_to_hash o1.account.code_hash)) (unfold set_code in live)
          (unfold set_code in ap (λ (v : View). v.address) same) (unfold set_code in full)
          (λ w.
            unfold undo in
            ap (λ (a : Bytes). alter B w a (recode B prev (bytes_to_hash o1.account.code_hash)))
              (ap (λ (v : View). v.address) same))
          (unfold set_code in
            ap (λ (v : View). recode B prev (bytes_to_hash v.code_hash) v) same
            ∙ recode_back prev (object_code-value B o))
