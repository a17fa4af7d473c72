-- ===== src/Rlp/Encode/Pieces/Order.antt =====
-- The headers of a buffer stand in the order of their offsets, within the string data.
use advance_golang.Base.{
  ℕ, ◌+◌, ◌≤◌, ◌≡◌, List, [], ◌∷◌, ◌++◌, length, length-append, append_assoc, arith,
}
use advance_golang.Rlp.Encode.{
  ListHead, Value, text, uint, boolean, big, raw, sequence, Values, nil, cons,
}
use advance_golang.Rlp.Encode.Layout.{body, bodies, heads, heads_of_all}
use mathlib.Core.Path.{subst}

unfoldable pub Ordered : ℕ → List ListHead → ℕ → Type 0
Ordered m [] n = m ≤ n
Ordered m (h ∷ hs) n = (m ≤ h.offset) × Ordered h.offset hs n

pub Ordered-le : (l m : ℕ) (hs : List ListHead) (n : ℕ) → l ≤ m → Ordered m hs n → Ordered l hs n
unfolding Ordered
Ordered-le l m [] n le h = omega arith
Ordered-le l m (x ∷ hs) n le h = (omega arith, h.1)

mutual
  unfolding Ordered heads heads_of_all body bodies

  heads-Ordered :
      (v : Value) (pos : ℕ) (hs : List ListHead) (n : ℕ)
      → Ordered (pos + length (body v)) hs n
      → Ordered pos (heads v pos ++ hs) n
  heads-Ordered (text b) pos hs n h = Ordered-le _ _ hs n (omega arith) h
  heads-Ordered (uint i) pos hs n h = Ordered-le _ _ hs n (omega arith) h
  heads-Ordered (boolean b) pos hs n h = Ordered-le _ _ hs n (omega arith) h
  heads-Ordered (big i) pos hs n h = Ordered-le _ _ hs n (omega arith) h
  heads-Ordered (raw b) pos hs n h = Ordered-le _ _ hs n (omega arith) h
  heads-Ordered (sequence vs) pos hs n h = (omega arith, heads_of_all-Ordered vs pos hs n h)

  heads_of_all-Ordered :
      (vs : Values) (pos : ℕ) (hs : List ListHead) (n : ℕ)
      → Ordered (pos + length (bodies vs)) hs n
      → Ordered pos (heads_of_all vs pos ++ hs) n
  heads_of_all-Ordered nil pos hs n h = Ordered-le _ _ hs n (omega arith) h
  heads_of_all-Ordered (cons v vs) pos hs n h =
      let total : pos + length (body v ++ bodies vs) ≡ pos + length (body v) + length (bodies vs) =
        omega (arith, length-append (body v) (bodies vs)) in
      rw (append_assoc (heads v pos)) (
        heads-Ordered v pos (heads_of_all vs (pos + length (body v)) ++ hs) n (
          heads_of_all-Ordered vs (pos + length (body v)) hs n
            (subst (λ k. Ordered k hs n) total h)))

pub heads-Ordered_all : (v : Value) → Ordered 0 (heads v 0 ++ []) (length (body v))
unfolding Ordered
heads-Ordered_all v = heads-Ordered v 0 [] (length (body v)) (omega arith)
