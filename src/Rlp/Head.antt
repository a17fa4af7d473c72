-- ===== src/Rlp/Head.antt =====
-- rlp/encode.go: the integers and headers of the encoding (intsize, putint, headsize, puthead), and
-- rlp/raw.go: ListSize and AppendUint64. A function that writes into a buffer returns the bytes
-- that it writes; the count that it returns in Go is their number.
use advance_golang.Base.{ℕ, zero, suc, ◌+◌, ◌*◌, ◌/◌, ◌%◌, ◌^◌, ◌≤◌, ◌<◌, ◌≡◌, ap, ◌∙◌, arith}
use advance_golang.Base.{ltb, ◌==◌, if◌then◌else◌, [], ◌∷◌, ◌++◌, length, length-append, All}
use advance_golang.Base.Maps.{Bytes}
use native.Mathlib.Nat.{pow-suc}

-- `byte(i)`
abbrev pub byte : ℕ → ℕ
byte i = i % 256

abbrev pub IsByte : ℕ → Type 0
IsByte b = b < 256

-- `for size = 1; ; size++ { if i >>= 8; i == 0 { return size } }`, in rounds left. A uint64 needs
-- at most eight rounds.
intsize_loop : ℕ → ℕ → ℕ → ℕ
intsize_loop zero size i = size
intsize_loop (suc rounds) size i =
    let rest = intsize_loop rounds (size + 1) (i / 256) in if i / 256 == 0 then size else rest

unfoldable pub intsize : ℕ → ℕ
unfolding intsize_loop
intsize i = intsize_loop 8 1 i

unfoldable pub putint : ℕ → Bytes
putint i =
    if ltb i (2 ^ 8)
    then byte i ∷ []
    else if ltb i (2 ^ 16)
    then byte (i / 2 ^ 8) ∷ byte i ∷ []
    else if ltb i (2 ^ 24)
    then byte (i / 2 ^ 16) ∷ byte (i / 2 ^ 8) ∷ byte i ∷ []
    else if ltb i (2 ^ 32)
    then byte (i / 2 ^ 24) ∷ byte (i / 2 ^ 16) ∷ byte (i / 2 ^ 8) ∷ byte i ∷ []
    else if ltb i (2 ^ 40)
    then byte (i / 2 ^ 32) ∷ byte (i / 2 ^ 24) ∷ byte (i / 2 ^ 16) ∷ byte (i / 2 ^ 8) ∷ byte i ∷ []
    else if ltb i (2 ^ 48)
    then byte (i / 2 ^ 40)
      ∷ byte (i / 2 ^ 32)
      ∷ byte (i / 2 ^ 24)
      ∷ byte (i / 2 ^ 16)
      ∷ byte (i / 2 ^ 8)
      ∷ byte i
      ∷ []
    else if ltb i (2 ^ 56)
    then byte (i / 2 ^ 48)
      ∷ byte (i / 2 ^ 40)
      ∷ byte (i / 2 ^ 32)
      ∷ byte (i / 2 ^ 24)
      ∷ byte (i / 2 ^ 16)
      ∷ byte (i / 2 ^ 8)
      ∷ byte i
      ∷ []
    else byte (i / 2 ^ 56)
      ∷ byte (i / 2 ^ 48)
      ∷ byte (i / 2 ^ 40)
      ∷ byte (i / 2 ^ 32)
      ∷ byte (i / 2 ^ 24)
      ∷ byte (i / 2 ^ 16)
      ∷ byte (i / 2 ^ 8)
      ∷ byte i
      ∷ []

unfoldable pub headsize : ℕ → ℕ
headsize size = if ltb size 56 then 1 else 1 + intsize size

unfoldable pub puthead : ℕ → ℕ → ℕ → Bytes
puthead smalltag largetag size =
    if ltb size 56
    then byte (smalltag + size) ∷ []
    else byte (largetag + length (putint size)) ∷ putint size

unfoldable pub list_size : ℕ → ℕ
list_size content_size = (headsize content_size + content_size) % 2 ^ 64

unfoldable pub append_uint64 : Bytes → ℕ → Bytes
append_uint64 b i =
    if i == 0
    then b ++ (0x80 ∷ [])
    else if ltb i 128
    then b ++ (byte i ∷ [])
    else if ltb i (2 ^ 8)
    then b ++ (0x81 ∷ byte i ∷ [])
    else if ltb i (2 ^ 16)
    then b ++ (0x82 ∷ byte (i / 2 ^ 8) ∷ byte i ∷ [])
    else if ltb i (2 ^ 24)
    then b ++ (0x83 ∷ byte (i / 2 ^ 16) ∷ byte (i / 2 ^ 8) ∷ byte i ∷ [])
    else if ltb i (2 ^ 32)
    then b ++ (0x84 ∷ byte (i / 2 ^ 24) ∷ byte (i / 2 ^ 16) ∷ byte (i / 2 ^ 8) ∷ byte i ∷ [])
    else if ltb i (2 ^ 40)
    then b
      ++ (0x85
          ∷ byte (i / 2 ^ 32)
          ∷ byte (i / 2 ^ 24)
          ∷ byte (i / 2 ^ 16)
          ∷ byte (i / 2 ^ 8)
          ∷ byte i
          ∷ [])
    else if ltb i (2 ^ 48)
    then b
      ++ (0x86
          ∷ byte (i / 2 ^ 40)
          ∷ byte (i / 2 ^ 32)
          ∷ byte (i / 2 ^ 24)
          ∷ byte (i / 2 ^ 16)
          ∷ byte (i / 2 ^ 8)
          ∷ byte i
          ∷ [])
    else if ltb i (2 ^ 56)
    then b
      ++ (0x87
          ∷ byte (i / 2 ^ 48)
          ∷ byte (i / 2 ^ 40)
          ∷ byte (i / 2 ^ 32)
          ∷ byte (i / 2 ^ 24)
          ∷ byte (i / 2 ^ 16)
          ∷ byte (i / 2 ^ 8)
          ∷ byte i
          ∷ [])
    else b
      ++ (0x88
          ∷ byte (i / 2 ^ 56)
          ∷ byte (i / 2 ^ 48)
          ∷ byte (i / 2 ^ 40)
          ∷ byte (i / 2 ^ 32)
          ∷ byte (i / 2 ^ 24)
          ∷ byte (i / 2 ^ 16)
          ∷ byte (i / 2 ^ 8)
          ∷ byte i
          ∷ [])

-- The number that a big-endian byte string spells.
unfoldable pub big_endian : Bytes → ℕ
big_endian [] = 0
big_endian (b ∷ bs) = b * 256 ^ length bs + big_endian bs

the_suc : (n : ℕ) → n + 1 ≡ suc n
the_suc n = omega arith

-- A digit at the end is worth its value, and the digits before it are worth 256 times theirs.
pub big_endian-append : (b : Bytes) (d : ℕ) → big_endian (b ++ (d ∷ [])) ≡ big_endian b * 256 + d
unfolding big_endian
big_endian-append [] d = omega arith
big_endian-append (x ∷ b) d =
    let power : 256 ^ length (b ++ (d ∷ [])) ≡ 256 ^ length b * 256 =
      ap (λ (n : ℕ). 256 ^ n) (length-append b (d ∷ []) ∙ the_suc (length b))
      ∙ pow-suc 256 (length b) in
    rw (power, big_endian-append b d) (omega arith)

pub length-putint : (i : ℕ) → (1 ≤ length (putint i)) × (length (putint i) ≤ 8)
unfolding putint
length-putint i = ground arith

-- A number of `k + 1` bytes takes `k` more rounds.
intsize_loop_first : (r size i : ℕ) → 0 < r → i < 256 → intsize_loop r size i ≡ size
unfolding intsize_loop
intsize_loop_first zero size i hr h = absurd (omega arith)
intsize_loop_first (suc r) size i hr h = ground arith

intsize_loop_at :
    (k r size i : ℕ) → k < r → 256 ^ k ≤ i → i < 256 ^ suc k → intsize_loop r size i ≡ size + k
unfolding intsize_loop
intsize_loop_at zero r size i hr lo hi = intsize_loop_first r size i hr hi ∙ omega arith
intsize_loop_at k zero size i hr lo hi = absurd (omega arith)
intsize_loop_at (suc k) (suc r) size i hr lo hi =
    let lower : 256 ^ k * 256 ≤ i = rw pow-suc at lo in
    let upper : i < 256 ^ suc k * 256 = rw pow-suc at hi in
    ground (arith, intsize_loop_at k r (size + 1) (i / 256))

pub intsize_lem : (i : ℕ) → i < 2 ^ 64 → intsize i ≡ length (putint i)
unfolding intsize putint
intsize_lem i h = ground (
  arith,
  intsize_loop_first 8 1 i,
  intsize_loop_at 1 8 1 i,
  intsize_loop_at 2 8 1 i,
  intsize_loop_at 3 8 1 i,
  intsize_loop_at 4 8 1 i,
  intsize_loop_at 5 8 1 i,
  intsize_loop_at 6 8 1 i,
  intsize_loop_at 7 8 1 i,
)

pub big_endian-putint : (i : ℕ) → i < 2 ^ 64 → big_endian (putint i) ≡ i
unfolding putint big_endian
big_endian-putint i h = ground arith

pub putint-IsByte : (i : ℕ) → All IsByte (putint i)
unfolding putint
putint-IsByte i = ground arith

pub length-puthead :
    (small large size : ℕ) → size < 2 ^ 64 → length (puthead small large size) ≡ headsize size
unfolding puthead headsize
length-puthead small large size h = ground (arith, intsize_lem size h)
