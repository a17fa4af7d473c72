-- ===== src/Hex/Padding.antt =====
-- common/bytes.go: LeftPadBytes and RightPadBytes, and common/types.go: BytesToHash against them.
use advance_golang.Base.{ℕ, ◌-◌, ◌≤◌, ◌≡◌, arith}
use advance_golang.Base.{
  leb, if◌then◌else◌, length, replicate, take-replicate, length-append, length-replicate,
}
use advance_golang.Base.Maps.{Bytes}
use advance_golang.Hex.{left_pad_bytes, right_pad_bytes}
use advance_golang.Types.{bytes_to_hash, set_bytes, hash_length}

-- Both paddings make a slice that is shorter than the length have that length, and leave a longer
-- one as it is.
pub length-pad_bytes :
    (slice : Bytes) (l : ℕ)
    → (length (left_pad_bytes slice l) ≡ (if leb l (length slice) then length slice else l))
      × (length (right_pad_bytes slice l) ≡ (if leb l (length slice) then length slice else l))
unfolding left_pad_bytes right_pad_bytes
length-pad_bytes slice l = ground (
  arith,
  length-append (replicate (l - length slice) 0) slice,
  length-append slice (replicate (l - length slice) 0),
  length-replicate {A = ℕ} (l - length slice) 0,
)

-- BytesToHash is LeftPadBytes to 32 bytes; given that there are 32 bytes at most.
pub bytes_to_hash-left_pad_bytes :
    (b : Bytes) → length b ≤ hash_length → bytes_to_hash b ≡ left_pad_bytes b hash_length
unfolding bytes_to_hash left_pad_bytes set_bytes
bytes_to_hash-left_pad_bytes b h =
    ground (arith, take-replicate {A = ℕ} (hash_length - length b) hash_length 0)
