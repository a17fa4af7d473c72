-- ===== src/State/Accessors.antt =====
-- core/state/statedb.go: NewCopy, Error, Preimages, GetRefund, TrieRoot, GetSelectiveStateObjectRoot
-- and StorageTrie.
use advance_golang.Base.{ℕ, ◌≡◌, none, some, Option}
use advance_golang.Base.{List, Bool, true, false, arith}
use advance_golang.Base.Maps.{Bytes}
use advance_golang.State.Backend.{DbError, Backend}
use advance_golang.State.Commit.{update_trie, deep_copy}
use advance_golang.State.Db.{StateDb, new_state, get_state_object}
use advance_golang.State.View.{observe, get_state_object-peek, observe-get_state_object}

module _ {Trie : Type 0} where
  unfoldable pub new_copy : StateDb Trie → StateDb Trie
  new_copy s = new_state s.trie

  -- `Error`
  abbrev pub db_error : StateDb Trie → Option DbError
  db_error s = s.db_err

  -- `Preimages`
  abbrev pub all_preimages : StateDb Trie → List (Bytes × Bytes)
  all_preimages s = s.preimages

  abbrev pub get_refund : StateDb Trie → ℕ
  get_refund s = s.refund

module _ (B : Backend) where
  open B use {Trie, hash_of}

  unfoldable pub trie_root : StateDb Trie → Bytes
  trie_root s = hash_of s.trie

  -- `none` is a panic, as the trie of an object is nil until its first use; `some none` is the error
  -- that there is no such object.
  unfoldable pub get_selective_state_object_root :
      StateDb Trie → Bytes → StateDb Trie × Option (Option Bytes)
  get_selective_state_object_root s addr =
      let (s1, found) = get_state_object B s addr in
      (
        s1,
        elim found [
          | none ↦ some none
          | some o ↦ elim o.trie [ none ↦ none | some t ↦ some (some (hash_of t)) ]
        ],
      )

  -- `none` is the nil trie. The copy that is written to the trie is dropped.
  unfoldable pub storage_trie : StateDb Trie → Bytes → StateDb Trie × Option Trie
  storage_trie s addr =
      let (s1, found) = get_state_object B s addr in
      (s1, elim found [ none ↦ none | some o ↦ some (update_trie B (deep_copy B o)).1 ])

  abbrev pub is_missing {ℓ} : {A : Type ℓ} → Option A → Bool
  is_missing none = true
  is_missing (some a) = false

  -- The error that there is no such object.
  abbrev pub is_not_found : Option (Option Bytes) → Bool
  is_not_found none = false
  is_not_found (some none) = true
  is_not_found (some (some root)) = false

  -- StorageTrie and GetSelectiveStateObjectRoot change nothing that callers can read; the one returns
  -- nil and the other an error exactly where no account is seen.
  pub storage_accessors-observe :
      (s : StateDb Trie) (a : Bytes)
      → (observe B (storage_trie s a).0 ≡ observe B s)
        × (observe B (get_selective_state_object_root s a).0 ≡ observe B s)
        × (is_missing (storage_trie s a).1 ≡ is_missing ((observe B s).accounts a))
        × (is_not_found (get_selective_state_object_root s a).1
            ≡ is_missing ((observe B s).accounts a))
  unfolding storage_trie get_selective_state_object_root
  storage_accessors-observe s a = (
    observe-get_state_object B s a,
    observe-get_state_object B s a,
    ground (arith, get_state_object-peek B s a),
    ground (arith, get_state_object-peek B s a),
  )
