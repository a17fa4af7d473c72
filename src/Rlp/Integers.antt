-- ===== src/Rlp/Integers.antt =====
-- rlp/raw.go: ListSize and AppendUint64 against the encoding that the writers produce.
use advance_golang.Base.{ℕ, ◌^◌, ◌<◌, ◌≡◌, arith}
use advance_golang.Base.{length, ◌++◌, length-append}
use advance_golang.Base.Maps.{Bytes}
use advance_golang.Rlp.Encode.{Values, sequence}
use advance_golang.Rlp.Encode.Spec.{uint_encoding, encoding, payload}
use advance_golang.Rlp.Head.{putint, puthead, list_size, append_uint64, length-puthead}

-- AppendUint64 appends the encoding of the number that EncodeToBytes gives; given that the number
-- is a uint64.
pub append_uint64-encoding :
    (b : Bytes) (i : ℕ) → i < 2 ^ 64 → append_uint64 b i ≡ b ++ uint_encoding i
unfolding append_uint64 uint_encoding putint
append_uint64-encoding b i h = ground arith

-- ListSize of the payload's length is the length of the list's encoding; given that this length is
-- a uint64.
pub list_size-payload :
    (vs : Values)
    → length (encoding (sequence vs)) < 2 ^ 64
    → list_size (length (payload vs)) ≡ length (encoding (sequence vs))
unfolding list_size encoding
list_size-payload vs h =
    let n = length (payload vs) in
    let head = puthead 0xC0 0xF7 n in
    let whole = length-append head (payload vs) in
    let fits : n < 2 ^ 64 = omega (arith, whole) in
    omega (arith, whole, length-puthead 0xC0 0xF7 n fits)
