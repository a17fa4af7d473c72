-- ===== src/Rlp/Encode/Pieces/Reads.antt =====
-- The calls of Read on the reader of a buffer give its bytes in order.
use advance_golang.Base.{
  ℕ, zero, suc, ◌+◌, ◌-◌, ◌≤◌, ◌<◌, ◌≡◌, refl, sym, ap, ◌∙◌, arith, true, false, Option, none, some,
  ltb, leb, ltb→lt, inl, inr, Bool-cases, Option-cases, List, [], ◌∷◌, ◌++◌, length, length-append,
  length-drop, take, drop,
}
use advance_golang.Base.Maps.{Bytes}
use advance_golang.Rlp.Encode.{EncBuf, copy_out}
use advance_golang.Rlp.Encode.Pieces.{
  EncReader, next, ReadResult, before, copy_piece, read_loop, rounds_of, read, reads, sum,
}
use advance_golang.Rlp.Encode.Pieces.Order.{Ordered}
use advance_golang.Rlp.Encode.Pieces.Slices.{
  take-append-less, drop-append-less, take-append-more, drop-append-more, take-add,
}
use mathlib.Core.Path.{subst}
use advance_golang.Rlp.Encode.Pieces.Found.{reader_at, left, next_piece-cases}

-- What a reader still gives out.
unfoldable pub HoldsAt : Bytes → Option EncBuf → Option Bytes → ℕ → ℕ → Type 0
HoldsAt rest none piece i s = rest ≡ []
HoldsAt rest (some w) none i s =
    Ordered s (drop i w.lheads) (length w.str) × (rest ≡ copy_out s (drop i w.lheads) w.str)
HoldsAt rest (some w) (some p) i s =
    Ordered s (drop i w.lheads) (length w.str)
    × (1 ≤ length p)
    × (rest ≡ p ++ copy_out s (drop i w.lheads) w.str)

unfoldable pub Holds : Bytes → EncReader → Type 0
Holds rest r = HoldsAt rest r.buf r.piece r.lhpos r.strpos

-- A call of Read with room for `n` bytes that takes them from what the reader holds.
unfoldable ReadsOf : ℕ → Bytes → Option ReadResult → Type 0
ReadsOf n rest none = ⊥
ReadsOf n rest (some x) =
    (x.out ≡ take n rest) × (x.eof ≡ leb (length rest) n) × Holds (drop n rest) x.after

leb_longer : (n : ℕ) (p rest : Bytes) → n < length p → leb (length (p ++ rest)) n ≡ false
leb_longer n p rest h = ground (arith, length-append p rest)

leb_shorter :
    (n : ℕ) (p rest : Bytes)
    → length p ≤ n
    → leb (length (p ++ rest)) n ≡ leb (length rest) (n - length p)
leb_shorter n p rest h = ground (arith, length-append p rest)

-- A piece that fits, and the rest into the room after it.
before-ReadsOf :
    (n : ℕ) (p rest : Bytes) (more : Option ReadResult)
    → length p ≤ n
    → ReadsOf (n - length p) rest more
    → ReadsOf n (p ++ rest) (before p more)
unfolding ReadsOf
before-ReadsOf n p rest none le h = absurd h
before-ReadsOf n p rest (some x) le h = (
  ap (◌++◌ p) h.0 ∙ sym (take-append-more n p rest le),
  h.1 ∙ sym (leb_shorter n p rest le),
  subst (λ b. Holds b x.after) (sym (drop-append-more n p rest le)) h.2,
)

copy_piece-ReadsOf :
    (n i s : ℕ) (w : EncBuf) (p : Bytes) (more : Option ReadResult)
    → 1 ≤ length p
    → Ordered s (drop i w.lheads) (length w.str)
    → ReadsOf (n - length p) (copy_out s (drop i w.lheads) w.str) more
    → ReadsOf n (p ++ copy_out s (drop i w.lheads) w.str) (copy_piece n (reader_at w i s) p more)
unfolding copy_piece HoldsAt Holds ReadsOf
copy_piece-ReadsOf n i s w p more some_byte ordered then = elim (Bool-cases (ltb n (length p))) [
  | inl less ↦
      let rest = copy_out s (drop i w.lheads) w.str in
      rw less (
        sym (take-append-less n p rest (ground arith)),
        sym (leb_longer n p rest (ground arith)),
        (
          ordered,
          omega (arith, length-drop n p, ltb→lt n (length p) less),
          drop-append-less n p rest (ground arith),
        ),
      )
  | inr more_room ↦ rw more_room (before-ReadsOf n p _ more (ground arith) then)
]

-- A round of the loop, out of what `next` returns and the rest of the loop.
abbrev round :
    ℕ → (ℕ → EncReader → Option ReadResult) → EncReader × Option Bytes → Option ReadResult
round n rest x = elim x.1 [
  | none ↦ some (record { out = []; eof = true; after = record x.0 { buf = none; piece = none } })
  | some p ↦ copy_piece n x.0 p (rest (n - length p) (record x.0 { piece = none }))
]

at_end-ReadsOf :
    (n i s : ℕ)
    → ReadsOf n [] (
        some (record {
          out = [];
          eof = true;
          after = record { buf = none; lhpos = i; strpos = s; piece = none };
        }))
unfolding ReadsOf Holds HoldsAt
at_end-ReadsOf zero i s = (refl, refl, refl)
at_end-ReadsOf (suc n) i s = (refl, ground arith, refl)

read_loop-ReadsOf :
    (w : EncBuf) (rounds n i s : ℕ)
    → Ordered s (drop i w.lheads) (length w.str)
    → left w i s < rounds
    → ReadsOf n (copy_out s (drop i w.lheads) w.str) (read_loop rounds n (reader_at w i s))
unfolding read_loop next
read_loop-ReadsOf w zero n i s h enough = absurd (omega arith)
read_loop-ReadsOf w (suc k) n i s h enough =
    let from : EncReader × Option Bytes → Type 0 =
      λ x. ReadsOf n (copy_out s (drop i w.lheads) w.str) (round n (read_loop k) x) in
    elim (next_piece-cases w i s h) [
      | inl x ↦ subst from (sym x.found) (
          rw x.parts (
            copy_piece-ReadsOf n x.i' x.s' w x.p _ x.some_byte x.ordered
              (read_loop-ReadsOf w k (n - length x.p) x.i' x.s' x.ordered (omega (arith, x.less)))))
      | inr x ↦ subst from (sym x.missing) (rw x.nothing (at_end-ReadsOf n i s))
    ]

-- The loop of a call that has a piece over from the call before.
read_loop-ReadsOf_piece :
    (w : EncBuf) (rounds n i s : ℕ) (p : Bytes)
    → Ordered s (drop i w.lheads) (length w.str)
    → 1 ≤ length p
    → left w i s + 1 < rounds
    → ReadsOf n
        (p ++ copy_out s (drop i w.lheads) w.str)
        (read_loop rounds n (record { buf = some w; lhpos = i; strpos = s; piece = some p }))
unfolding read_loop next copy_piece
read_loop-ReadsOf_piece w zero n i s p h some_byte enough = absurd (omega arith)
read_loop-ReadsOf_piece w (suc k) n i s p h some_byte enough =
    copy_piece-ReadsOf n i s w p _ some_byte h
      (read_loop-ReadsOf w k (n - length p) i s h (omega arith))

read-ReadsOf_at :
    (n : ℕ) (rest : Bytes) (buf : Option EncBuf) (piece : Option Bytes) (i s : ℕ)
    → HoldsAt rest buf piece i s
    → ReadsOf n rest (read n (record { buf = buf; lhpos = i; strpos = s; piece = piece }))
unfolding read rounds_of read_loop next HoldsAt
read-ReadsOf_at n rest none piece i s h = rw h (at_end-ReadsOf n i s)
read-ReadsOf_at n rest (some w) none i s h = rw h.1 (
    read_loop-ReadsOf w (length w.lheads + length w.str + 3) n i s h.0
      (omega (arith, length-drop i w.lheads)))
read-ReadsOf_at n rest (some w) (some p) i s h = rw h.2 (
    read_loop-ReadsOf_piece w (length w.lheads + length w.str + 3) n i s p h.0 h.1
      (omega (arith, length-drop i w.lheads)))

-- A call of Read takes what it has room for, and returns io.EOF exactly when nothing is left.
read-ReadsOf : (n : ℕ) (rest : Bytes) (r : EncReader) → Holds rest r → ReadsOf n rest (read n r)
unfolding Holds
read-ReadsOf n rest r h = read-ReadsOf_at n rest r.buf r.piece r.lhpos r.strpos h

pub reads-take :
    (ns : List ℕ) (rest : Bytes) (r : EncReader)
    → Holds rest r
    → reads ns r ≡ some (take (sum ns) rest)
unfolding reads ReadsOf
reads-take [] rest r h = refl
reads-take (n ∷ ns) rest r h =
    let one = read-ReadsOf n rest r h in
    elim (Option-cases (read n r)) [
      | inl stuck ↦ absurd (subst (ReadsOf n rest) stuck one)
      | inr (x, returned) ↦
          let got : ReadsOf n rest (some x) = subst (ReadsOf n rest) returned one in
          rw (returned, reads)
            (rw (reads-take ns (drop n rest) x.after got.2) (
              ap some
                (ap (◌++ take (sum ns) (drop n rest)) got.0 ∙ sym (take-add n (sum ns) rest))))
    ]
