-- ===== src/Rlp/Raw.antt =====
-- rlp/raw.go: readSize, readKind, Split, SplitString, SplitList and CountValues, over byte lists.
pub mod RoundTrip
pub mod Bounds
pub mod Canonical
use advance_golang.Base.{ℕ, zero, suc, ◌+◌, ◌-◌, Bool, true, false, ◌&&◌, ◌||◌}
use advance_golang.Base.{Option, none, some, ltb, ◌==◌, if◌then◌else◌, [], ◌∷◌, length, take, drop}
use advance_golang.Base.Maps.{Bytes}
use advance_golang.Rlp.Head.{big_endian}
use advance_golang.Rlp.Result.{unexpected_eof, canon_size, value_too_large}
use advance_golang.Rlp.Result.{expected_string, expected_list, Result, ok, err, ◌>>=◌}

-- `Byte`, `String` and `List`
pub data Kind : Type 0 where
  byte_kind string_kind list_kind : Kind

unfoldable pub is_list : Kind → Bool
is_list list_kind = true
is_list byte_kind = false
is_list string_kind = false

-- `b[0]`; every caller has seen that there is one.
abbrev pub first : Bytes → ℕ
first [] = 0
first (b ∷ bs) = b

-- The switch on `slen` joins the first `slen` bytes, shifted into place. The shifted bytes have no
-- bit in common, so their bitwise or is their sum.
unfoldable pub read_size : Bytes → ℕ → Result ℕ
unfolding big_endian
read_size b slen =
    let s = big_endian (take slen b) in
    if ltb (length b) slen
    then err unexpected_eof
    else if ltb s 56 || first b == 0
    then err canon_size
    else ok s

-- The switch on the first byte: the kind, the tag's size and the content's size.
unfoldable pub tag_of : ℕ → Bytes → Result (Kind × ℕ × ℕ)
unfolding read_size
tag_of b more =
    if ltb b 0x80
    then ok (byte_kind, 0, 1)
    else if ltb b 0xB8
    then (if (b - 0x80 == 1 && ltb 0 (length more)) && ltb (first more) 128
        then err canon_size
        else ok (string_kind, 1, b - 0x80))
    else if ltb b 0xC0
    then (do size ← read_size more (b - 0xB7); ok (string_kind, b - 0xB7 + 1, size))
    else if ltb b 0xF8
    then ok (list_kind, 1, b - 0xC0)
    else (do size ← read_size more (b - 0xF7); ok (list_kind, b - 0xF7 + 1, size))

-- The last test of `readKind`. The tag lies within the input, so the difference does not wrap.
unfoldable pub check_content : Bytes → Kind × ℕ × ℕ → Result (Kind × ℕ × ℕ)
check_content buf (k, tagsize, contentsize) =
    if ltb (length buf - tagsize) contentsize
    then err value_too_large
    else ok (k, tagsize, contentsize)

unfoldable pub read_kind : Bytes → Result (Kind × ℕ × ℕ)
read_kind [] = err unexpected_eof
read_kind (b ∷ more) = do head ← tag_of b more; check_content (b ∷ more) head

-- The kind, the content `b[ts : ts+cs]`, and the rest `b[ts+cs:]`.
unfoldable pub split : Bytes → Result (Kind × Bytes × Bytes)
split b = do (k, ts, cs) ← read_kind b; ok (k, take cs (drop ts b), drop (ts + cs) b)

unfoldable pub split_string : Bytes → Result (Bytes × Bytes)
split_string b = do
  (k, content, rest) ← split b
  if is_list k then err expected_string else ok (content, rest)

unfoldable pub split_list : Bytes → Result (Bytes × Bytes)
split_list b = do
  (k, content, rest) ← split b
  if is_list k then ok (content, rest) else err expected_list

-- The loop of `CountValues`, in values left to read. Each value takes a byte at least, so the
-- length of the input is enough; where the count ran out the result is `none`.
unfoldable pub count_values_loop : ℕ → ℕ → Bytes → Option (Result ℕ)
count_values_loop fuel i [] = some (ok i)
count_values_loop zero i (b ∷ bs) = none
count_values_loop (suc fuel) i (b ∷ bs) = elim (read_kind (b ∷ bs)) [
  | ok (k, tagsize, size) ↦ count_values_loop fuel (i + 1) (drop (tagsize + size) (b ∷ bs))
  | err e ↦ some (err e)
]

unfoldable pub count_values : Bytes → Option (Result ℕ)
count_values b = count_values_loop (length b) 0 b
