-- ===== src/Rlp/Encode/Pieces/Found.antt =====
-- What `next` finds in a buffer, at a header and after the last one.
use advance_golang.Base.{
  ℕ, suc, ◌+◌, ◌-◌, ◌≤◌, ◌<◌, ◌≡◌, sym, ap, arith, none, some, ltb, ltb→lt, inl, inr, Bool-cases,
  Option-cases, List, [], ◌∷◌, ◌++◌, length, length-take, length-drop, take, drop, get_elem?,
  append-nil, ◌⊎◌,
}
use advance_golang.Base.Maps.{Bytes}
use advance_golang.Rlp.Encode.{ListHead, EncBuf, copy_out}
use advance_golang.Rlp.Encode.Pieces.{EncReader, next_piece, next_at_head, next_at_end}
use advance_golang.Rlp.Encode.Pieces.Order.{Ordered}
use advance_golang.Rlp.Encode.Pieces.Slices.{drop-get_elem?-some, drop-get_elem?-none, drop-all}
use advance_golang.Rlp.Head.{puthead}
use native.Mathlib.Nat.{sub_self}

abbrev pub reader_at : EncBuf → ℕ → ℕ → EncReader
reader_at w i s = record { buf = some w; lhpos = i; strpos = s; piece = none }

-- The headers and the string data that are left.
abbrev pub left : EncBuf → ℕ → ℕ → ℕ
left w i s = length (drop i w.lheads) + (length w.str - s)

-- What `next` finds in the buffer: a piece and the position after it.
pub record TakenPiece (w : EncBuf) (i s : ℕ) : Type 0 where
  pub i' : ℕ
  pub s' : ℕ
  pub p : Bytes
  pub found : next_piece w (reader_at w i s) ≡ (reader_at w i' s', some p)
  pub some_byte : 1 ≤ length p
  pub parts : copy_out s (drop i w.lheads) w.str ≡ p ++ copy_out s' (drop i' w.lheads) w.str
  pub ordered : Ordered s' (drop i' w.lheads) (length w.str)
  pub less : left w i' s' < left w i s

pub record NothingLeft (w : EncBuf) (i s : ℕ) : Type 0 where
  pub missing : next_piece w (reader_at w i s) ≡ (reader_at w i s, none)
  pub nothing : copy_out s (drop i w.lheads) w.str ≡ []

Ordered-within : (m : ℕ) (hs : List ListHead) (n : ℕ) → Ordered m hs n → m ≤ n
unfolding Ordered
Ordered-within m [] n h = h
Ordered-within m (x ∷ hs) n h = omega (arith, Ordered-within x.offset hs n h.1)

puthead-some_byte : (a b n : ℕ) → 1 ≤ length (puthead a b n)
unfolding puthead
puthead-some_byte a b n = ground arith

next_piece-at_end :
    (w : EncBuf) (i s : ℕ) → get_elem? w.lheads i ≡ none → TakenPiece w i s ⊎ NothingLeft w i s
unfolding next_piece next_at_end copy_out Ordered
next_piece-at_end w i s missing =
    let gone : drop i w.lheads ≡ [] = drop-get_elem?-none w.lheads i missing in
    elim (Bool-cases (ltb s (length w.str))) [
      | inl more ↦ inl record {
        i' = i;
        s' = length w.str;
        p = drop s w.str;
        found = rw (missing, next_piece) (rw (more, next_at_end));
        some_byte = omega (arith, length-drop s w.str, ltb→lt s (length w.str) more);
        parts = rw gone (rw (drop-all (length w.str) w.str (omega arith)) (sym (append-nil _)));
        ordered = rw gone (omega arith);
        less = omega (arith, ltb→lt s (length w.str) more);
      }
      | inr done ↦ inr record {
        missing = rw (missing, next_piece) (rw (done, next_at_end));
        nothing = rw gone (drop-all s w.str (ground arith));
      }
    ]

next_piece-at_head :
    (w : EncBuf) (i s : ℕ) (head : ListHead)
    → get_elem? w.lheads i ≡ some head
    → Ordered s (drop i w.lheads) (length w.str)
    → TakenPiece w i s
unfolding next_piece next_at_head copy_out Ordered
next_piece-at_head w i s head found h =
    let split : drop i w.lheads ≡ head ∷ drop (suc i) w.lheads =
      drop-get_elem?-some w.lheads i head found in
    let h' : Ordered s (head ∷ drop (suc i) w.lheads) (length w.str) = rw split at h in
    let within = Ordered-within head.offset _ _ h'.1 in
    elim (Bool-cases (ltb s head.offset)) [
      | inl more ↦ record {
        i' = i;
        s' = head.offset;
        p = take (head.offset - s) (drop s w.str);
        found = rw (found, next_piece) (rw (more, next_at_head));
        some_byte = omega (
          arith,
          ltb→lt s head.offset more,
          length-drop s w.str,
          length-take (head.offset - s) (drop s w.str) (omega (arith, length-drop s w.str)),
        );
        parts = rw split (rw (sub_self head.offset));
        ordered = rw split (omega arith, h'.1);
        less = omega (arith, ltb→lt s head.offset more);
      }
      | inr done ↦
          let same : head.offset ≡ s = ground arith in
          record {
            i' = suc i;
            s' = s;
            p = puthead 0xC0 0xF7 head.size;
            found = rw (found, next_piece) (rw (done, next_at_head));
            some_byte = puthead-some_byte 0xC0 0xF7 head.size;
            parts = rw split (rw (same, sub_self s));
            ordered = rw same at h'.1;
            less = omega (arith, ap length split);
          }
    ]

pub next_piece-cases :
    (w : EncBuf) (i s : ℕ)
    → Ordered s (drop i w.lheads) (length w.str)
    → TakenPiece w i s ⊎ NothingLeft w i s
next_piece-cases w i s h = elim (Option-cases (get_elem? w.lheads i)) [
  | inl missing ↦ next_piece-at_end w i s missing
  | inr (head, found) ↦ inl (next_piece-at_head w i s head found h)
]
