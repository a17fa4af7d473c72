-- ===== src/Rlp/Raw/RoundTrip.antt =====
-- What `split` makes of the output of `puthead` and `encodeString`.
use advance_golang.Base.{ℕ, suc, ◌+◌, ◌^◌, ◌≤◌, ◌<◌, ◌≡◌, ◌≢◌, refl, arith}
use advance_golang.Base.{ltb, [], ◌∷◌, ◌++◌}
use advance_golang.Base.{length, drop, length-append, take-append-length, drop-append-length}
use advance_golang.Base.{append_assoc, Bool-cases, ltb→lt, inl, inr}
use advance_golang.Base.Maps.{Bytes}
use advance_golang.Rlp.Head.{byte, putint, puthead, length-putint, big_endian-putint}
use advance_golang.Rlp.Result.{ok}
use advance_golang.Rlp.Raw.{
  Kind, byte_kind, string_kind, list_kind, first, read_size, tag_of, check_content, read_kind,
  split,
}

first-putint : (i : ℕ) (more : Bytes) → 56 ≤ i → i < 2 ^ 64 → first (putint i ++ more) ≢ 0
unfolding putint
first-putint i more lo hi = ground arith

-- `readSize` reads back what `putint` wrote, for the sizes that have a length of their own.
pub read_size-putint :
    (size : ℕ) (more : Bytes)
    → 56 ≤ size
    → size < 2 ^ 64
    → read_size (putint size ++ more) (length (putint size)) ≡ ok size
unfolding read_size
read_size-putint size more lo hi = rw take-append-length (
    rw (big_endian-putint size hi)
      (ground (arith, length-append (putint size) more, first-putint size more)))

-- The content of a value with a known head.
check_content-append :
    (head content rest : Bytes) (k : Kind)
    → check_content (head ++ (content ++ rest)) (k, length head, length content)
      ≡ ok (k, length head, length content)
unfolding check_content
check_content-append head content rest k =
    ground (arith, length-append head (content ++ rest), length-append content rest)

drop-append-append :
    (head content rest : Bytes)
    → drop (length head + length content) (head ++ (content ++ rest)) ≡ rest
drop-append-append head content rest =
    rw (← length-append head content, ← append_assoc head content rest)
      (drop-append-length (head ++ content) rest)

-- Once the tag is read, `Split` cuts the content out.
split_of_tag :
    (b : ℕ) (tag content rest : Bytes) (k : Kind)
    → tag_of b (tag ++ (content ++ rest)) ≡ ok (k, suc (length tag), length content)
    → split (b ∷ (tag ++ (content ++ rest))) ≡ ok (k, content, rest)
unfolding split read_kind
split_of_tag b tag content rest k h =
    rw (h, check_content-append (b ∷ tag) content rest k)
      (rw (drop-append-length tag (content ++ rest), take-append-length content rest)
        (rw (drop-append-append (b ∷ tag) content rest)))

pub split_byte : (b : ℕ) (rest : Bytes) → b < 128 → split (b ∷ rest) ≡ ok (byte_kind, b ∷ [], rest)
unfolding split read_kind tag_of check_content
split_byte b rest h = ground arith

tag_of-short_string :
    (s rest : Bytes)
    → length s < 56
    → (length s ≡ 1 → 128 ≤ first s)
    → tag_of (byte (0x80 + length s)) (s ++ rest) ≡ ok (string_kind, 1, length s)
unfolding tag_of
tag_of-short_string [] rest h canon = ground arith
tag_of-short_string (x ∷ []) rest h canon = ground (arith, canon refl)
tag_of-short_string (x ∷ y ∷ s) rest h canon = ground arith

tag_of-long_string :
    (size : ℕ) (more : Bytes)
    → 56 ≤ size
    → size < 2 ^ 64
    → tag_of (byte (0xB7 + length (putint size))) (putint size ++ more)
      ≡ ok (string_kind, suc (length (putint size)), size)
unfolding tag_of
tag_of-long_string size more lo hi = ground (arith, length-putint size, read_size-putint size more)

tag_of-short_list :
    (size : ℕ) (more : Bytes)
    → size < 56
    → tag_of (byte (0xC0 + size)) more ≡ ok (list_kind, 1, size)
unfolding tag_of
tag_of-short_list size more h = ground arith

tag_of-long_list :
    (size : ℕ) (more : Bytes)
    → 56 ≤ size
    → size < 2 ^ 64
    → tag_of (byte (0xF7 + length (putint size))) (putint size ++ more)
      ≡ ok (list_kind, suc (length (putint size)), size)
unfolding tag_of
tag_of-long_list size more lo hi = ground (arith, length-putint size, read_size-putint size more)

-- A string header, its string, and what follows.
pub split-puthead_string :
    (s rest : Bytes)
    → length s < 2 ^ 64
    → (length s ≡ 1 → 128 ≤ first s)
    → split (puthead 0x80 0xB7 (length s) ++ (s ++ rest)) ≡ ok (string_kind, s, rest)
unfolding puthead
split-puthead_string s rest h canon = elim (Bool-cases (ltb (length s) 56)) [
  | inl short ↦
      rw short
        (split_of_tag _ [] s rest string_kind (tag_of-short_string s rest (ltb→lt _ _ short) canon))
  | inr long ↦ rw long (
      split_of_tag _ (putint (length s)) s rest string_kind
        (tag_of-long_string (length s) (s ++ rest) (ground arith) h))
]

-- A list header, the list's payload, and what follows.
pub split-puthead_list :
    (payload rest : Bytes)
    → length payload < 2 ^ 64
    → split (puthead 0xC0 0xF7 (length payload) ++ (payload ++ rest))
      ≡ ok (list_kind, payload, rest)
unfolding puthead
split-puthead_list payload rest h = elim (Bool-cases (ltb (length payload) 56)) [
  | inl short ↦ rw short (
      split_of_tag _ [] payload rest list_kind
        (tag_of-short_list (length payload) (payload ++ rest) (ltb→lt _ _ short)))
  | inr long ↦ rw long (
      split_of_tag _ (putint (length payload)) payload rest list_kind
        (tag_of-long_list (length payload) (payload ++ rest) (ground arith) h))
]
