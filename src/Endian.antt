-- ===== src/Endian.antt =====
-- common/bytes.go: the conversions between integers and byte slices. Of the standard library:
-- binary.BigEndian and binary.Write of an int64.
use advance_golang.Base.{
  ℕ, zero, suc, ◌+◌, ◌-◌, ◌*◌, ◌/◌, ◌%◌, ◌^◌, ◌<◌, ◌≡◌, refl, ap, ◌∙◌, Option, none, some, [], ◌∷◌,
  ◌++◌, length, length-append, take, take-append-length, ltb, if◌then◌else◌, append-nil, sym, false,
  arith,
}
use advance_golang.Base.Int.{ℤ, pos, negsuc}
use advance_golang.Base.Maps.{Bytes}
use native.Mathlib.Nat.{pow-suc}
use advance_golang.Rlp.Head.{big_endian, big_endian-append}

-- The last bytes of a number, the most significant one first.
unfoldable pub put_bytes : ℕ → ℕ → Bytes
put_bytes zero n = []
put_bytes (suc k) n = put_bytes k (n / 256) ++ (n % 256 ∷ [])

unfoldable pub uint64_to_byte : ℕ → Bytes
uint64_to_byte n = put_bytes 8 n

-- `binary.BigEndian.Uint64`: `none` is the panic on fewer than eight bytes.
unfoldable pub byte_to_uint64 : Bytes → Option ℕ
byte_to_uint64 b = if ltb (length b) 8 then none else some (big_endian (take 8 b))

-- The bits of an int64.
unfoldable pub int64_bits : ℤ → ℕ
int64_bits (pos n) = n
int64_bits (negsuc n) = 2 ^ 64 - (n + 1)

unfoldable pub int64_of_bits : ℕ → ℤ
int64_of_bits n = if ltb n (2 ^ 63) then pos n else negsuc (2 ^ 64 - n - 1)

unfoldable pub int_to_hex : ℤ → Bytes
int_to_hex num = put_bytes 8 (int64_bits num)

-- `binary.Read` leaves the 0 in place where it does not find eight bytes.
unfoldable pub bytes_to_int : Bytes → ℤ
bytes_to_int b = if ltb (length b) 8 then pos 0 else int64_of_bits (big_endian (take 8 b))

-- The loop of BytesToUint32, from the byte at `i`. A shift by 64 or more leaves 0, as the remainder
-- does.
unfoldable pub sum_bytes : ℕ → ℕ → Bytes → ℕ
sum_bytes sum i [] = sum
sum_bytes sum i (b ∷ bs) = sum_bytes ((sum + b * 2 ^ (8 * i) % 2 ^ 32) % 2 ^ 32) (suc i) bs

unfoldable pub bytes_to_uint32 : Bytes → ℕ
bytes_to_uint32 array = sum_bytes 0 0 array

length-put_bytes : (k n : ℕ) → length (put_bytes k n) ≡ k
unfolding put_bytes
length-put_bytes zero n = refl
length-put_bytes (suc k) n =
    let rest = length-append (put_bytes k (n / 256)) (n % 256 ∷ []) in
    omega (arith, rest, length-put_bytes k (n / 256))

below_pow : (k n : ℕ) → n < 256 ^ suc k → n / 256 < 256 ^ k
below_pow k n h = let power : 256 ^ suc k ≡ 256 ^ k * 256 = pow-suc 256 k in omega (arith, power)

big_endian-put_bytes : (k n : ℕ) → n < 256 ^ k → big_endian (put_bytes k n) ≡ n
unfolding put_bytes big_endian
big_endian-put_bytes zero n h = omega arith
big_endian-put_bytes (suc k) n h =
    big_endian-append (put_bytes k (n / 256)) (n % 256)
    ∙ omega (arith, big_endian-put_bytes k (n / 256) (below_pow k n h))

taken : (n : ℕ) (rest : Bytes) → take 8 (put_bytes 8 n ++ rest) ≡ put_bytes 8 n
taken n rest =
    ap (λ k. take k (put_bytes 8 n ++ rest)) (sym (length-put_bytes 8 n))
    ∙ take-append-length (put_bytes 8 n) rest

long_enough : (n : ℕ) (rest : Bytes) → ltb (length (put_bytes 8 n ++ rest)) 8 ≡ false
long_enough n rest = ground (arith, length-append (put_bytes 8 n) rest, length-put_bytes 8 n)

-- ByteToUint64 reads the number that Uint64ToByte has written, whatever follows the eight bytes;
-- given that it is a uint64.
pub byte_to_uint64-uint64_to_byte :
    (n : ℕ) (rest : Bytes) → n < 2 ^ 64 → byte_to_uint64 (uint64_to_byte n ++ rest) ≡ some n
unfolding byte_to_uint64 uint64_to_byte
byte_to_uint64-uint64_to_byte n rest h =
    rw (long_enough n rest, taken n rest) (ap some (big_endian-put_bytes 8 n (omega arith)))

abbrev pub IsInt64 : ℤ → Type 0
IsInt64 (pos n) = n < 2 ^ 63
IsInt64 (negsuc n) = n < 2 ^ 63

int64_bits-bound : (num : ℤ) → IsInt64 num → int64_bits num < 256 ^ 8
unfolding int64_bits
int64_bits-bound (pos n) h = omega arith
int64_bits-bound (negsuc n) h = omega arith

int64_of_bits-int64_bits : (num : ℤ) → IsInt64 num → int64_of_bits (int64_bits num) ≡ num
unfolding int64_bits int64_of_bits
int64_of_bits-int64_bits (pos n) h = ground arith
int64_of_bits-int64_bits (negsuc n) h = ground arith

-- BytesToInt reads the number that IntToHex has written, given that it is an int64.
pub bytes_to_int-int_to_hex : (num : ℤ) → IsInt64 num → bytes_to_int (int_to_hex num) ≡ num
unfolding bytes_to_int int_to_hex
bytes_to_int-int_to_hex num h =
    let b = put_bytes 8 (int64_bits num) in
    let whole : b ++ [] ≡ b = append-nil b in
    let cut = rw whole at (taken (int64_bits num) []) in
    let long = rw whole at (long_enough (int64_bits num) []) in
    rw (long, cut)
      (ap int64_of_bits (big_endian-put_bytes 8 (int64_bits num) (int64_bits-bound num h))
        ∙ int64_of_bits-int64_bits num h)
