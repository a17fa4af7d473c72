-- ===== src/Rlp/Raw/Canonical.antt =====
-- `Split` accepts one encoding of a content only: the one that the encoder writes.
use advance_golang.Base.{ℕ, zero, suc, ◌+◌, ◌-◌, ◌≤◌, ◌<◌, ◌≡◌, ◌≢◌, refl, arith}
use advance_golang.Base.{[], ◌∷◌, length, take, drop, All, length-take}
use advance_golang.Base.Maps.{Bytes}
use native.Mathlib.Numerals.{add-one}
use advance_golang.Rlp.Head.{IsByte, putint, puthead, big_endian}
use advance_golang.Rlp.Result.{ok}
use advance_golang.Rlp.Raw.{Kind, byte_kind, string_kind, list_kind, first, read_size, tag_of}

putint-big_endian :
    (b : Bytes)
    → All IsByte b
    → 1 ≤ length b
    → length b ≤ 8
    → first b ≢ 0
    → putint (big_endian b) ≡ b
unfolding putint big_endian
putint-big_endian [] h lo hi nz = absurd (omega arith)
putint-big_endian (a ∷ []) h lo hi nz = ground arith
putint-big_endian (a ∷ b ∷ []) h lo hi nz = ground arith
putint-big_endian (a ∷ b ∷ c ∷ []) h lo hi nz = ground arith
putint-big_endian (a ∷ b ∷ c ∷ d ∷ []) h lo hi nz = ground arith
putint-big_endian (a ∷ b ∷ c ∷ d ∷ e ∷ []) h lo hi nz = ground arith
putint-big_endian (a ∷ b ∷ c ∷ d ∷ e ∷ f ∷ []) h lo hi nz = ground arith
putint-big_endian (a ∷ b ∷ c ∷ d ∷ e ∷ f ∷ g ∷ []) h lo hi nz = ground arith
putint-big_endian (a ∷ b ∷ c ∷ d ∷ e ∷ f ∷ g ∷ i ∷ []) h lo hi nz = ground arith
putint-big_endian (a ∷ b ∷ c ∷ d ∷ e ∷ f ∷ g ∷ i ∷ j ∷ k) h lo hi nz = absurd (omega arith)

All-take : (n : ℕ) (b : Bytes) → All IsByte b → All IsByte (take n b)
All-take zero b h = tt
All-take (suc n) [] h = tt
All-take (suc n) (x ∷ b) h = (h.0, All-take n b h.1)

first-take : (n : ℕ) (b : Bytes) → 1 ≤ n → first (take n b) ≡ first b
first-take zero b h = absurd (omega arith)
first-take (suc n) [] h = refl
first-take (suc n) (x ∷ b) h = refl

-- The bytes of an accepted size are those that `putint` writes, and there is a need for them.
read_size_canonical :
    (b : Bytes) (slen s : ℕ)
    → All IsByte b
    → 1 ≤ slen
    → slen ≤ 8
    → read_size b slen ≡ ok s
    → (take slen b ≡ putint s) × (length (putint s) ≡ slen) × (56 ≤ s)
unfolding read_size
read_size_canonical b slen s bytes lo hi h =
    let long : length (take slen b) ≡ slen = ground (arith, length-take slen b) in
    let value : big_endian (take slen b) ≡ s = ground arith in
    let nonzero : first (take slen b) ≢ 0 = rw (first-take slen b lo) (λ e. ground arith) in
    let canonical : putint (big_endian (take slen b)) ≡ take slen b =
      putint-big_endian (take slen b) (All-take slen b bytes) (omega arith) (omega arith) nonzero in
    (cc, ground arith, ground arith)

-- The tag of a content of a kind and a size.
unfoldable pub tag : Kind → ℕ → Bytes
tag byte_kind cs = []
tag string_kind cs = puthead 0x80 0xB7 cs
tag list_kind cs = puthead 0xC0 0xF7 cs

take-add-one : (n x : ℕ) (b : Bytes) → take (n + 1) (x ∷ b) ≡ x ∷ take n b
take-add-one n x b = rw add-one

read_size_min : (b : Bytes) (slen : ℕ) {s : ℕ} → read_size b slen ≡ ok s → 56 ≤ s
unfolding read_size
read_size_min b slen h = ground arith

pub tag_of_canonical :
    (x : ℕ) (more : Bytes) (k : Kind) (ts cs : ℕ)
    → x < 256
    → All IsByte more
    → tag_of x more ≡ ok (k, ts, cs)
    → take ts (x ∷ more) ≡ tag k cs
unfolding tag_of tag puthead
tag_of_canonical x more k ts cs hx bytes h = ground (
  arith,
  read_size_canonical more (x - 0xB7) cs bytes,
  read_size_canonical more (x - 0xF7) cs bytes,
  take-add-one (x - 0xB7) x more,
  take-add-one (x - 0xF7) x more,
  take-add-one 0 x more,
)

-- A single byte below 128 is not accepted as a string with a header.
pub tag_of_single :
    (x : ℕ) (more : Bytes) (ts cs : ℕ)
    → tag_of x more ≡ ok (string_kind, ts, cs)
    → ts + cs ≤ suc (length more)
    → cs ≡ 1
    → 128 ≤ first (take cs (drop ts (x ∷ more)))
unfolding tag_of
tag_of_single x [] ts cs h within one =
    ground (arith, read_size_min [] (x - 0xB7), read_size_min [] (x - 0xF7))
tag_of_single x (y ∷ more) ts cs h within one =
    let size : ts ≡ 1 =
      ground (arith, read_size_min (y ∷ more) (x - 0xB7), read_size_min (y ∷ more) (x - 0xF7)) in
    rw (size, one)
      (ground (arith, read_size_min (y ∷ more) (x - 0xB7), read_size_min (y ∷ more) (x - 0xF7)))

pub tag_of_byte :
    (x : ℕ) (more : Bytes) (ts cs : ℕ)
    → tag_of x more ≡ ok (byte_kind, ts, cs)
    → (ts ≡ 0) × (cs ≡ 1) × (x < 128)
unfolding tag_of
tag_of_byte x more ts cs h =
    ground (arith, read_size_min more (x - 0xB7), read_size_min more (x - 0xF7))
