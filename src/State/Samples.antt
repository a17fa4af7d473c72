-- ===== src/State/Samples.antt =====
-- A concrete trie and database, for the runs.
use advance_golang.Base.{none, some, List, [], ◌∷◌, length}
use advance_golang.Base.Maps.{Bytes, lookup, insert, delete}
use advance_golang.State.Backend.{Backend}
use advance_golang.State.Db.{StateDb, new_state}
use advance_golang.Types.{bytes_to_hash, length-bytes_to_hash, zero_hash}
use mathlib.Core.Option

-- A map for a trie, the padded bytes for their hash, and accounts whose nonce is the length of their encoding.
abbrev pub in_memory : Backend
in_memory = record {
  Trie = List (Bytes × Bytes);
  try_get = λ t key. (Option.get_or (lookup key t) [], none);
  try_update = λ t key value. (insert key value t, none);
  try_delete = λ t key. (delete key t, none);
  hash_of = λ t. zero_hash;
  open_storage_trie = λ hash root. ([], none);
  contract_code = λ hash code_hash. (none, none);
  keccak256 = bytes_to_hash;
  length-keccak256 = length-bytes_to_hash;
  decode_account = λ enc.
      some (record { nonce = length enc; balance = none; root = zero_hash; code_hash = none });
  encode_account = λ a. some (0 ∷ []);
}

abbrev pub genesis : StateDb (List (Bytes × Bytes))
genesis = new_state []
