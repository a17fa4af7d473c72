-- ===== src/Types/Runs.antt =====
-- Concrete runs of SetBytes and of blocks, and the theorems at concrete inputs.
use advance_golang.Base.{◌≡◌, refl, [], ◌∷◌}
use advance_golang.Base.{none, some, replicate}
use advance_golang.Base.Maps.{Bytes}
use advance_golang.Rlp.Encode.Pieces.{sum}
use advance_golang.Rlp.Encode.{non_negative}
use advance_golang.Types.{set_bytes, zero_hash, zero_address}
use advance_golang.Types.Block.{
  Header, Block, new_block_with_header, with_seal, set_signature, header_hash, block_hash,
  block_size,
}
use advance_golang.Types.Block.Seal.{block_hash-set_signature, block_size-received}

-- A longer input is cropped from the left, a shorter one is padded on the left.
cropped : set_bytes (0 ∷ 0 ∷ []) (1 ∷ 2 ∷ 3 ∷ []) ≡ 2 ∷ 3 ∷ []
unfolding set_bytes
cropped = refl

padded : set_bytes (0 ∷ 0 ∷ []) (1 ∷ []) ≡ 0 ∷ 1 ∷ []
unfolding set_bytes
padded = refl

-- A header without a time, and a block of it. The checksum of bytes stands for their hash.
abbrev header : Header
header = record {
  parent_hash = zero_hash;
  uncle_hash = zero_hash;
  coinbase = zero_address;
  reward_address = zero_address;
  root = zero_hash;
  tx_hash = zero_hash;
  receipt_hash = zero_hash;
  difficulty = some (non_negative (2 ∷ []));
  number = some (non_negative (1 ∷ 0 ∷ []));
  gas_limit = 1000;
  gas_used = 0;
  time = none;
  extra = 7 ∷ [];
  mix_digest = zero_hash;
  nonce = replicate 8 0;
  signature = [];
  multi_sign_normal = [];
  multi_sign_commit = [];
}

abbrev block : Block
block = new_block_with_header header

abbrev checksum : Bytes → Bytes
checksum b = sum b ∷ []

block_hash-set_signature_example :
    ((block_hash checksum (new_block_with_header header)).0 ≡ header_hash checksum header)
    × ((block_hash checksum (with_seal block header)).0 ≡ header_hash checksum header)
    × ((block_hash checksum (set_signature (9 ∷ []) (block_hash checksum block).1)).0
        ≡ (block_hash checksum block).0)
    × ((block_hash checksum (set_signature (9 ∷ []) (with_seal block header))).0
        ≡ header_hash checksum (record header { signature = 9 ∷ [] }))
block_hash-set_signature_example = block_hash-set_signature checksum header block (9 ∷ [])

block_size-received_example :
    ((block_size block).0 ≡ (block_size (set_signature (9 ∷ []) block)).0)
    × ((block_size (new_block_with_header header)).0 ≡ 3)
    × ((block_size (with_seal block header)).0 ≡ 3)
unfolding new_block_with_header set_signature
block_size-received_example =
    block_size-received block (set_signature (9 ∷ []) block) header refl refl refl refl
