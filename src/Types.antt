-- ===== src/Types.antt =====
-- common/types.go: hashes and addresses, as byte strings of fixed lengths.
mod Runs
pub mod Block
use advance_golang.Base.{ℕ, zero, suc, ◌+◌, ◌-◌, ◌≤◌, ◌≡◌, refl, ◌∙◌, arith}
use advance_golang.Base.{ltb, if◌then◌else◌, [], ◌∷◌, ◌++◌, length, take, drop, replicate}
use advance_golang.Base.{length-append, length-take, length-drop, length-replicate}
use advance_golang.Base.Maps.{Bytes}
use native.Mathlib.Nat.{sub_self}

-- HashLength and AddressLength
abbrev pub hash_length : ℕ
hash_length = 32

abbrev pub address_length : ℕ
address_length = 20

-- SetBytes on an array `h`: the bytes are cropped from the left to the length of the array, and
-- copied to its end.
unfoldable pub set_bytes : Bytes → Bytes → Bytes
set_bytes h b =
    let cropped = if ltb (length h) (length b) then drop (length b - length h) b else b in
    take (length h - length cropped) h ++ cropped

-- `Hash{}` and `Address{}`
abbrev pub zero_hash : Bytes
zero_hash = replicate hash_length 0

abbrev pub zero_address : Bytes
zero_address = replicate address_length 0

unfoldable pub bytes_to_hash : Bytes → Bytes
unfolding set_bytes
bytes_to_hash b = set_bytes zero_hash b

unfoldable pub bytes_to_address : Bytes → Bytes
unfolding set_bytes
bytes_to_address b = set_bytes zero_address b

-- Whatever the input, the array keeps its length.
pub length-set_bytes : (h b : Bytes) → length (set_bytes h b) ≡ length h
unfolding set_bytes
length-set_bytes h b = ground (
  arith,
  length-append (take (length h - length b) h) b,
  length-append (take (length h - length (drop (length b - length h) b)) h)
      (drop (length b - length h) b),
  length-take (length h - length b) h,
  length-take (length h - length (drop (length b - length h) b)) h,
  length-drop (length b - length h) b,
)

-- A hash has 32 bytes, whatever it is made of.
pub length-bytes_to_hash : (b : Bytes) → length (bytes_to_hash b) ≡ hash_length
unfolding bytes_to_hash
length-bytes_to_hash b = length-set_bytes zero_hash b ∙ length-replicate {A = ℕ} hash_length 0

-- A hash is its own hash.
pub bytes_to_hash_self : (b : Bytes) → length b ≡ hash_length → bytes_to_hash b ≡ b
unfolding bytes_to_hash set_bytes
bytes_to_hash_self b h = ground arith
