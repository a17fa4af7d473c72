-- ===== src/Rlp/Encode/Unique.antt =====
-- rlp/raw.go accepts only what rlp/encode.go writes.
use advance_golang.Base.{ℕ, suc, ◌+◌, ◌≤◌, ◌<◌, ◌≡◌, arith}
use advance_golang.Base.{false, leb, ◌==◌, ◌&&◌}
use advance_golang.Base.{[], ◌∷◌, ◌++◌, length, take, drop, All, take-append-drop, length-take}
use advance_golang.Base.{length-drop, append_assoc}
use advance_golang.Base.Maps.{Bytes}
use advance_golang.Rlp.Head.{IsByte, puthead}
use advance_golang.Rlp.Result.{ok, >>=-eq-ok}
use advance_golang.Rlp.Raw.{
  Kind, byte_kind, string_kind, list_kind, first, tag_of, check_content, read_kind, split,
}
use advance_golang.Rlp.Raw.Bounds.{read_kind_bounds, drop-drop}
use advance_golang.Rlp.Raw.Canonical.{tag, tag_of_canonical, tag_of_single, tag_of_byte}
use advance_golang.Rlp.Encode.Spec.{string_encoding}

-- The encoding of a content of a kind.
unfoldable pub reencode : Kind → Bytes → Bytes
reencode byte_kind c = string_encoding c
reencode string_kind c = string_encoding c
reencode list_kind c = puthead 0xC0 0xF7 (length c) ++ c

read_kind_tag :
    (x : ℕ) (more : Bytes) (k : Kind) (ts cs : ℕ)
    → read_kind (x ∷ more) ≡ ok (k, ts, cs)
    → tag_of x more ≡ ok (k, ts, cs)
unfolding read_kind check_content
read_kind_tag x more k ts cs h =
    let (head, read, checked) = >>=-eq-ok (tag_of x more) _ h in ground arith

content_size :
    (x : ℕ) (more : Bytes) (ts cs : ℕ)
    → ts + cs ≤ suc (length more)
    → length (take cs (drop ts (x ∷ more))) ≡ cs
content_size x more ts cs h =
    length-take cs (drop ts (x ∷ more)) (omega (arith, length-drop ts (x ∷ more)))

-- The tag and the content make the encoding of the content.
tag-reencode :
    (x : ℕ) (more : Bytes) (k : Kind) (ts cs : ℕ)
    → x < 256
    → All IsByte more
    → tag_of x more ≡ ok (k, ts, cs)
    → ts + cs ≤ suc (length more)
    → take ts (x ∷ more) ++ take cs (drop ts (x ∷ more)) ≡ reencode k (take cs (drop ts (x ∷ more)))
unfolding reencode string_encoding tag
tag-reencode x more byte_kind ts cs hx bytes h within =
    let (start, one, small) = tag_of_byte x more ts cs h in rw (start, one) (ground arith)
tag-reencode x more string_kind ts cs hx bytes h within =
    let whole = content_size x more ts cs within in
    let several : (length (take cs (drop ts (x ∷ more))) == 1
          && leb (first (take cs (drop ts (x ∷ more)))) 0x7F)
        ≡ false =
      ground (arith, tag_of_single x more ts cs h within) in
    rw several (rw (tag_of_canonical x more string_kind ts cs hx bytes h, whole))
tag-reencode x more list_kind ts cs hx bytes h within =
    rw (tag_of_canonical x more list_kind ts cs hx bytes h, content_size x more ts cs within)

-- An input that Split accepts is the encoding of the content that it returns, and the rest; given
-- that the input's elements are bytes.
pub split-reencode :
    (b : Bytes) (k : Kind) (content rest : Bytes)
    → All IsByte b
    → split b ≡ ok (k, content, rest)
    → b ≡ reencode k content ++ rest
unfolding split
split-reencode [] k content rest bytes h = unfold read_kind in cc
split-reencode (x ∷ more) k content rest bytes h =
    let (head, read, cut) = >>=-eq-ok (read_kind (x ∷ more)) _ h in
    let (progress, within) = read_kind_bounds (x ∷ more) head.0 head.1 head.2 read in
    let parts =
      tag-reencode x more head.0 head.1 head.2 bytes.0 bytes.1
        (read_kind_tag x more head.0 head.1 head.2 read) within in
    let kind_eq : head.0 ≡ k = cc in
    let content_eq : take head.2 (drop head.1 (x ∷ more)) ≡ content = cc in
    let rest_eq : drop (head.1 + head.2) (x ∷ more) ≡ rest = cc in
    rw (← kind_eq, ← content_eq, ← rest_eq, ← parts, drop-drop head.1 head.2 (x ∷ more))
      (rw (append_assoc, take-append-drop, take-append-drop))
