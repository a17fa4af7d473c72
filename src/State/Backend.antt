-- ===== src/State/Backend.antt =====
-- What core/state takes from elsewhere: the trie and the database behind the interfaces of
-- core/state/database.go, the hash of package crypto, and the codec of accounts.
use advance_golang.Base.{ℕ, ◌≡◌, Option, length}
use advance_golang.Base.Int.{ℤ}
use advance_golang.Base.Maps.{Bytes}
use advance_golang.Rlp.Result.{Error}
use advance_golang.Types.{hash_length}

-- `backend` is an error value that a trie or the database returns; the others are those that the
-- package makes of an error.
pub data DbError : Type 0 where
  backend : ℕ → DbError
  bad_slot : Error → DbError
  no_storage_trie : DbError → DbError
  no_code : Bytes → DbError → DbError

-- `Account`, with its pointers not nil.
pub record Account : Type 0 where
  pub nonce : ℕ
  pub balance : ℤ
  pub root : Bytes
  pub code_hash : Bytes

-- `Account` as it comes from a literal or from the decoder: Balance and CodeHash may be nil.
pub record RawAccount : Type 0 where
  pub nonce : ℕ
  pub balance : Option ℤ
  pub root : Bytes
  pub code_hash : Option Bytes

-- `try_get`, `try_update`, `try_delete` and `hash_of` are the methods of Trie; the writing ones
-- return the new trie. A result slice with an error is a pair, as in Go. `keccak256` has 32 bytes
-- by its type. `decode_account` and `encode_account` are rlp.DecodeBytes into an Account and
-- rlp.EncodeToBytes of one; `none` is an error.
pub record Backend : Type 1 where
  pub Trie : Type 0
  pub try_get : Trie → Bytes → Bytes × Option DbError
  pub try_update : Trie → Bytes → Bytes → Trie × Option DbError
  pub try_delete : Trie → Bytes → Trie × Option DbError
  pub hash_of : Trie → Bytes
  pub open_storage_trie : Bytes → Bytes → Trie × Option DbError
  pub contract_code : Bytes → Bytes → Option Bytes × Option DbError
  pub keccak256 : Bytes → Bytes
  pub length-keccak256 : (b : Bytes) → length (keccak256 b) ≡ hash_length
  pub decode_account : Bytes → Option RawAccount
  pub encode_account : Account → Option Bytes
