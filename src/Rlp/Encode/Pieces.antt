-- ===== src/Rlp/Encode/Pieces.antt =====
-- rlp/encode.go: EncodeToReader and encReader, which hands the buffer out piece by piece.
pub mod Order
pub mod Slices
pub mod Found
pub mod Reads
pub mod Whole
use advance_golang.Base.{
  ℕ, zero, suc, ◌+◌, ◌-◌, Bool, true, false, Option, none, some, ltb, if◌then◌else◌, List, [], ◌∷◌,
  ◌++◌, length, take, drop, get_elem?,
}
use advance_golang.Base.Maps.{Bytes}
use advance_golang.Rlp.Encode.{ListHead, EncBuf, reset, size, Value, write_value}
use advance_golang.Rlp.Head.{puthead}
use advance_golang.Rlp.Result.{Result, ok, ◌>>=◌}

-- `buf` is nil at the end; a nil `piece` is `none`.
pub record EncReader : Type 0 where
  pub buf : Option EncBuf
  pub lhpos : ℕ
  pub strpos : ℕ
  pub piece : Option Bytes

-- The header at `lhpos`, after the string data before it.
unfoldable pub next_at_head : EncBuf → EncReader → ListHead → EncReader × Option Bytes
next_at_head w r head =
    if ltb r.strpos head.offset
    then (
      record r { strpos = head.offset },
      some (take (head.offset - r.strpos) (drop r.strpos w.str)),
    )
    else (record r { lhpos = suc r.lhpos }, some (puthead 0xC0 0xF7 head.size))

-- The string data after the last header.
unfoldable pub next_at_end : EncBuf → EncReader → EncReader × Option Bytes
next_at_end w r =
    if ltb r.strpos (length w.str)
    then (record r { strpos = length w.str }, some (drop r.strpos w.str))
    else (r, none)

unfoldable pub next_piece : EncBuf → EncReader → EncReader × Option Bytes
next_piece w r = elim (get_elem? w.lheads r.lhpos) [
  | some head ↦ next_at_head w r head
  | none ↦ next_at_end w r
]

unfoldable pub next : EncReader → EncReader × Option Bytes
next r = elim r.buf [
  | none ↦ (r, none)
  | some w ↦ elim r.piece [ some p ↦ (r, some p) | none ↦ next_piece w r ]
]

-- What Read puts into its slice, whether it returns io.EOF, and the reader after it.
pub record ReadResult : Type 0 where
  pub out : Bytes
  pub eof : Bool
  pub after : EncReader

-- A piece, and what the loop reads after it.
abbrev pub before : Bytes → Option ReadResult → Option ReadResult
before p none = none
before p (some x) = some (record x { out = p ++ x.out })

-- A round of the loop of `Read` that has a piece, with room for `n` bytes.
unfoldable pub copy_piece : ℕ → EncReader → Bytes → Option ReadResult → Option ReadResult
copy_piece n r p more =
    if ltb n (length p)
    then some (record { out = take n p; eof = false; after = record r { piece = some (drop n p) } })
    else before p more

-- The loop of `Read`, in rounds left: `none` where these run out.
unfoldable pub read_loop : ℕ → ℕ → EncReader → Option ReadResult
read_loop zero n r = none
read_loop (suc rounds) n r =
    let r1 = (next r).0 in
    elim (next r).1 [
      | none ↦
          some (record { out = []; eof = true; after = record r1 { buf = none; piece = none } })
      | some p ↦ copy_piece n r1 p (read_loop rounds (n - length p) (record r1 { piece = none }))
    ]

-- Each round takes a header or string data, but for the first and the last one.
unfoldable pub rounds_of : EncReader → ℕ
rounds_of r = elim r.buf [ none ↦ 1 | some w ↦ length w.lheads + length w.str + 3 ]

unfoldable pub read : ℕ → EncReader → Option ReadResult
read n r = read_loop (rounds_of r) n r

abbrev pub sum : List ℕ → ℕ
sum [] = 0
sum (n ∷ ns) = n + sum ns

-- Several calls of Read, with room for these numbers of bytes: all that they read.
unfoldable pub reads : List ℕ → EncReader → Option Bytes
reads [] r = some []
reads (n ∷ ns) r = elim (read n r) [
  | none ↦ none
  | some x ↦ elim (reads ns x.after) [ none ↦ none | some rest ↦ some (x.out ++ rest) ]
]

unfoldable pub encode_to_reader : Value → Result (ℕ × EncReader)
encode_to_reader v = do
  w ← write_value v reset
  ok (size w, record { buf = some w; lhpos = 0; strpos = 0; piece = none })
