-- ===== src/Rlp/Encode/Layout.antt =====
-- What the writers leave in the buffer: string data and list headers, and how `toBytes` merges them.
use advance_golang.Base.{ℕ, ◌+◌, ◌-◌, ◌≤◌, ◌≡◌, sym, ap, ◌∙◌, arith}
use advance_golang.Base.{List, [], ◌∷◌, ◌++◌, length, take, drop, All, All-append}
use advance_golang.Base.{length-append, drop-append-length, append_assoc}
use advance_golang.Base.Maps.{Bytes}
use advance_golang.Rlp.Head.{puthead, headsize, length-puthead}
use advance_golang.Rlp.Encode.{
  ListHead, copy_out, Value, text, uint, boolean, big, raw, sequence, Values, nil, cons,
}
use advance_golang.Rlp.Encode.Spec.{
  string_encoding, uint_encoding, big_encoding, boolean_encoding, encoding, payload, Fits, AllFit,
}
use native.Mathlib.Nat.{suc-add, add-zero, sub_self}

unfoldable mutual
  -- The string data of a value.
  pub body : Value → Bytes
  body (text b) = string_encoding b
  body (uint i) = uint_encoding i
  body (boolean b) = boolean_encoding b
  body (big i) = big_encoding i
  body (raw b) = b
  body (sequence vs) = bodies vs

  pub bodies : Values → Bytes
  bodies nil = []
  bodies (cons v vs) = body v ++ bodies vs

unfoldable mutual
  -- The finished headers of a value whose string data starts at `pos`.
  pub heads : Value → ℕ → List ListHead
  heads (text b) pos = []
  heads (uint i) pos = []
  heads (boolean b) pos = []
  heads (big i) pos = []
  heads (raw b) pos = []
  heads (sequence vs) pos =
      record { offset = pos; size = length (payload vs) } ∷ heads_of_all vs pos

  pub heads_of_all : Values → ℕ → List ListHead
  heads_of_all nil pos = []
  heads_of_all (cons v vs) pos = heads v pos ++ heads_of_all vs (pos + length (body v))

unfoldable mutual
  -- The bytes that the headers of a value take.
  pub headers_size : Value → ℕ
  headers_size (text b) = 0
  headers_size (uint i) = 0
  headers_size (boolean b) = 0
  headers_size (big i) = 0
  headers_size (raw b) = 0
  headers_size (sequence vs) = headsize (length (payload vs)) + headers_size_of_all vs

  pub headers_size_of_all : Values → ℕ
  headers_size_of_all nil = 0
  headers_size_of_all (cons v vs) = headers_size v + headers_size_of_all vs

mutual
  unfolding encoding payload body bodies headers_size headers_size_of_all

  pub length-encoding :
      (v : Value) → Fits v → length (encoding v) ≡ length (body v) + headers_size v
  length-encoding (text b) h = omega arith
  length-encoding (uint i) h = omega arith
  length-encoding (boolean b) h = omega arith
  length-encoding (big i) h = omega arith
  length-encoding (raw b) h = omega arith
  length-encoding (sequence vs) h = omega (
    arith,
    length-append (puthead 0xC0 0xF7 (length (payload vs))) (payload vs),
    length-puthead 0xC0 0xF7 (length (payload vs)) h.0,
    length-payload vs h.1,
  )

  length-payload :
      (vs : Values) → AllFit vs → length (payload vs) ≡ length (bodies vs) + headers_size_of_all vs
  length-payload nil h = omega arith
  length-payload (cons v vs) h = omega (
    arith,
    length-append (encoding v) (payload vs),
    length-append (body v) (bodies vs),
    length-encoding v h.0,
    length-payload vs h.1,
  )

pub length-payload-bodies :
    (vs : Values) → AllFit vs → length (payload vs) ≡ length (bodies vs) + headers_size_of_all vs
length-payload-bodies vs h = length-payload vs h

abbrev From : ℕ → List ListHead → Type 0
From m = All (λ h. m ≤ h.offset)

From-le : (m n : ℕ) (hs : List ListHead) → m ≤ n → From n hs → From m hs
From-le m n [] le h = tt
From-le m n (x ∷ hs) le h = (omega arith, From-le m n hs le h.1)

mutual
  unfolding heads heads_of_all

  heads-From : (v : Value) (pos : ℕ) → From pos (heads v pos)
  heads-From (text b) pos = tt
  heads-From (uint i) pos = tt
  heads-From (boolean b) pos = tt
  heads-From (big i) pos = tt
  heads-From (raw b) pos = tt
  heads-From (sequence vs) pos = (omega arith, heads_of_all-From vs pos)

  heads_of_all-From : (vs : Values) (pos : ℕ) → From pos (heads_of_all vs pos)
  heads_of_all-From nil pos = tt
  heads_of_all-From (cons v vs) pos =
      All-append _ (heads v pos) _ (heads-From v pos)
        (From-le pos _ _ (omega arith) (heads_of_all-From vs (pos + length (body v))))

take-append_add :
    (mid post : Bytes) (k : ℕ) → take (length mid + k) (mid ++ post) ≡ mid ++ take k post
take-append_add [] post k = ap (λ (n : ℕ). take n post) (omega arith)
take-append_add (x ∷ mid) post k = rw suc-add (ap (◌∷◌ x) (take-append_add mid post k))

drop_past : (pre mid post : Bytes) → drop (length pre + length mid) (pre ++ (mid ++ post)) ≡ post
drop_past pre mid post =
    rw (← length-append pre mid, ← append_assoc pre mid post) (drop-append-length (pre ++ mid) post)

-- String data that no header precedes is copied as it is.
copy_out-skip :
    (pre mid post : Bytes) (hs : List ListHead)
    → From (length pre + length mid) hs
    → copy_out (length pre) hs (pre ++ (mid ++ post))
      ≡ mid ++ copy_out (length pre + length mid) hs (pre ++ (mid ++ post))
unfolding copy_out
copy_out-skip pre mid post [] h = rw (drop-append-length pre (mid ++ post), drop_past pre mid post)
copy_out-skip pre mid post (x ∷ hs) h =
    let gap : ℕ = x.offset - (length pre + length mid) in
    let distance : x.offset - length pre ≡ length mid + gap = omega arith in
    rw (drop-append-length pre (mid ++ post), drop_past pre mid post, distance)
      (rw (take-append_add mid post gap) (append_assoc mid (take gap post) _))

mutual
  unfolding copy_out encoding payload body bodies heads heads_of_all

  -- With the headers of a value in front, its encoding comes out.
  pub copy_out-encoding :
      (v : Value) (pre post : Bytes) (hs : List ListHead)
      → From (length pre + length (body v)) hs
      → copy_out (length pre) (heads v (length pre) ++ hs) (pre ++ (body v ++ post))
        ≡ encoding v ++ copy_out (length pre + length (body v)) hs (pre ++ (body v ++ post))
  copy_out-encoding (text b) pre post hs h = copy_out-skip pre (string_encoding b) post hs h
  copy_out-encoding (uint i) pre post hs h = copy_out-skip pre (uint_encoding i) post hs h
  copy_out-encoding (boolean b) pre post hs h = copy_out-skip pre (boolean_encoding b) post hs h
  copy_out-encoding (big i) pre post hs h = copy_out-skip pre (big_encoding i) post hs h
  copy_out-encoding (raw b) pre post hs h = copy_out-skip pre b post hs h
  copy_out-encoding (sequence vs) pre post hs h =
      rw (sub_self (length pre), copy_out-payload vs pre post hs h)
        (sym (append_assoc (puthead 0xC0 0xF7 (length (payload vs))) (payload vs) _))

  copy_out-payload :
      (vs : Values) (pre post : Bytes) (hs : List ListHead)
      → From (length pre + length (bodies vs)) hs
      → copy_out (length pre) (heads_of_all vs (length pre) ++ hs) (pre ++ (bodies vs ++ post))
        ≡ payload vs ++ copy_out (length pre + length (bodies vs)) hs (pre ++ (bodies vs ++ post))
  copy_out-payload nil pre post hs h = rw add-zero
  copy_out-payload (cons v vs) pre post hs h =
      let later : List ListHead = heads_of_all vs (length pre + length (body v)) in
      let total : length pre + length (body v ++ bodies vs)
          ≡ length pre + length (body v) + length (bodies vs) =
        omega (arith, length-append (body v) (bodies vs)) in
      let h' : From (length pre + length (body v) + length (bodies vs)) hs = rw total at h in
      let ih = copy_out-payload vs (pre ++ body v) post hs (rw length-append h') in
      let ih' =
        rw (length-append pre (body v), append_assoc pre (body v) (bodies vs ++ post)) at ih in
      rw (total, append_assoc (heads v (length pre)) later hs)
        (rw (append_assoc (body v) (bodies vs) post, append_assoc (encoding v) (payload vs) _)
          (copy_out-encoding v pre (bodies vs ++ post) (later ++ hs) (
              All-append _ later hs (heads_of_all-From vs (length pre + length (body v)))
                (From-le _ _ hs (omega arith) h'))
            ∙ ap (◌++◌ (encoding v)) ih'))
