-- ===== src/Rlp/Encode/Refine.antt =====
-- The buffer with deferred headers implements the recursive encoding.
use advance_golang.Base.{ℕ, ◌+◌, ◌-◌, ◌≡◌, refl, ap, ◌∙◌, arith}
use advance_golang.Base.{Bool, true, false, if◌then◌else◌}
use advance_golang.Base.{
  List, [], ◌∷◌, ◌++◌, length, length-append, drop-append-length, append-nil, append_assoc,
}
use advance_golang.Base.{Bool-cases, inl, inr}
use advance_golang.Base.Maps.{Bytes}
use advance_golang.Rlp.Head.{byte, putint, puthead, headsize}
use advance_golang.Rlp.Result.{ok, err, negative_big_int}
use advance_golang.Rlp.Encode.{
  ListHead, EncBuf, reset, size, write, encode_string_header, encode_string, list, update,
  header_at, list_end, copy_out, to_bytes, BigInt, negative, non_negative, Value, text, uint,
  boolean, big, raw, sequence, Values, nil, cons, write_uint, write_bool, write_big_int,
  write_value, write_values, encode_to_bytes,
}
use advance_golang.Rlp.Encode.Spec.{
  string_encoding, uint_encoding, big_encoding, boolean_encoding, encoding, payload, is_negative,
  has_negative, any_negative, Fits, AllFit,
}
use advance_golang.Rlp.Encode.Layout.{
  body, bodies, heads, heads_of_all, headers_size, headers_size_of_all, length-payload-bodies,
  copy_out-encoding,
}
use native.Mathlib.Nat.{add-zero, zero-add, add_assoc}

-- The buffer after string data, headers and header bytes are added at its end.
abbrev pub extend : EncBuf → Bytes → List ListHead → ℕ → EncBuf
extend w b hs n = record { str = w.str ++ b; lheads = w.lheads ++ hs; lhsize = w.lhsize + n }

extend-nil : (w : EncBuf) (b : Bytes) → write w b ≡ extend w b [] 0
unfolding write
extend-nil w b = rw (append-nil, add-zero)

encode_string-string_encoding :
    (w : EncBuf) (b : Bytes) → encode_string w b ≡ extend w (string_encoding b) [] 0
unfolding encode_string encode_string_header string_encoding puthead write
encode_string-string_encoding w b = ground (
  arith,
  append-nil w.lheads,
  append_assoc w.str (byte (0x80 + length b) ∷ []) b,
  append_assoc w.str (byte (0xB7 + length (putint (length b))) ∷ putint (length b)) b,
)

write_uint-uint_encoding : (w : EncBuf) (i : ℕ) → write_uint w i ≡ extend w (uint_encoding i) [] 0
unfolding write_uint uint_encoding write
write_uint-uint_encoding w i = ground (arith, append-nil w.lheads)

-- The header that `list` appended is the one that `listEnd` finishes.
header_at-append :
    (old : List ListHead) (h : ListHead) (more : List ListHead)
    → header_at ((old ++ (h ∷ [])) ++ more) (length old) ≡ h
unfolding header_at
header_at-append [] h more = refl
header_at-append (x ∷ old) h more = header_at-append old h more

update-append :
    (old : List ListHead) (h : ListHead) (more : List ListHead) (f : ListHead → ListHead)
    → update ((old ++ (h ∷ [])) ++ more) (length old) f ≡ old ++ (f h ∷ more)
unfolding update
update-append [] h more f = refl
update-append (x ∷ old) h more f = ap (◌∷◌ x) (update-append old h more f)

list_end-list :
    (w : EncBuf) (vs : Values)
    → AllFit vs
    → list_end
        (extend (list w).1 (bodies vs) (heads_of_all vs (length w.str)) (headers_size_of_all vs))
        (list w).0
      ≡ extend w
          (body (sequence vs))
          (heads (sequence vs) (length w.str))
          (headers_size (sequence vs))
unfolding list_end list size body heads headers_size headsize
list_end-list w vs fit =
    let measured : length (w.str ++ bodies vs)
          + (w.lhsize + headers_size_of_all vs)
          - length w.str
          - w.lhsize
        ≡ length (payload vs) =
      omega (arith, length-append w.str (bodies vs), length-payload-bodies vs fit) in
    rw
      (header_at-append w.lheads (record { offset = length w.str; size = w.lhsize })
        (heads_of_all vs (length w.str)))
      (rw (measured, update-append) (ground arith))

extend_nothing : (w : EncBuf) → w ≡ extend w [] [] 0
extend_nothing w = rw (append-nil, append-nil, add-zero)

extend-extend :
    (w : EncBuf) (b b' : Bytes) (hs hs' : List ListHead) (n n' : ℕ)
    → extend (extend w b hs n) b' hs' n' ≡ extend w (b ++ b') (hs ++ hs') (n + n')
extend-extend w b b' hs hs' n n' = rw (append_assoc, append_assoc, add_assoc)

write_bool-boolean_encoding :
    (w : EncBuf) (b : Bool) → write_bool w b ≡ extend w (boolean_encoding b) [] 0
unfolding write_bool boolean_encoding
write_bool-boolean_encoding w true = extend-nil w _
write_bool-boolean_encoding w false = extend-nil w _

write_big_int-big_encoding :
    (w : EncBuf) (i : BigInt)
    → write_big_int w i
      ≡ (if is_negative i then err negative_big_int else ok (extend w (big_encoding i) [] 0))
unfolding write_big_int big_encoding is_negative
write_big_int-big_encoding w (negative b) = refl
write_big_int-big_encoding w (non_negative []) = ap ok (extend-nil w _)
write_big_int-big_encoding w (non_negative (b ∷ bs)) =
    ap ok (encode_string-string_encoding w (b ∷ bs))

mutual
  unfolding write_value write_values has_negative any_negative body bodies heads heads_of_all
      headers_size headers_size_of_all list

  -- The writers add the value's string data and headers to the buffer, or refuse a negative number.
  pub write_value-extend :
      (v : Value) (w : EncBuf)
      → Fits v
      → write_value v w ≡ (
          if has_negative v
          then err negative_big_int
          else ok (extend w (body v) (heads v (length w.str)) (headers_size v)))
  write_value-extend (text b) w fit = ap ok (encode_string-string_encoding w b)
  write_value-extend (uint i) w fit = ap ok (write_uint-uint_encoding w i)
  write_value-extend (boolean b) w fit = ap ok (write_bool-boolean_encoding w b)
  write_value-extend (big i) w fit = write_big_int-big_encoding w i
  write_value-extend (raw b) w fit = ap ok (extend-nil w b)
  write_value-extend (sequence vs) w fit = elim (Bool-cases (any_negative vs)) [
    | inl bad ↦ rw (write_values-extend vs (list w).1 fit.1, bad)
    | inr good ↦
        rw (write_values-extend vs (list w).1 fit.1, good) (ap ok (list_end-list w vs fit.1))
  ]

  write_values-extend :
      (vs : Values) (w : EncBuf)
      → AllFit vs
      → write_values vs w ≡ (
          if any_negative vs
          then err negative_big_int
          else ok (extend w (bodies vs) (heads_of_all vs (length w.str)) (headers_size_of_all vs)))
  write_values-extend nil w fit = ap ok (extend_nothing w)
  write_values-extend (cons v vs) w fit = elim (Bool-cases (has_negative v)) [
    | inl bad ↦ rw (write_value-extend v w fit.0, bad)
    | inr good ↦
        let w' = extend w (body v) (heads v (length w.str)) (headers_size v) in
        rw (write_value-extend v w fit.0, good)
          (write_values-extend vs w' fit.1
            ∙ rw (length-append w.str (body v)) (
                ap (λ (t : EncBuf). if any_negative vs then err negative_big_int else ok t)
                  (extend-extend w (body v) (bodies vs) (heads v (length w.str))
                    (heads_of_all vs (length w.str + length (body v))) (headers_size v)
                    (headers_size_of_all vs))))
  ]

pub to_bytes-encoding :
    (v : Value) → to_bytes (extend reset (body v) (heads v 0) (headers_size v)) ≡ encoding v
unfolding to_bytes copy_out
to_bytes-encoding v =
    let merged = copy_out-encoding v [] [] [] tt in
    let drained = rw (zero-add, drop-append-length (body v) []) at merged in
    rw (append-nil (encoding v), append-nil (body v), append-nil (heads v 0)) at drained

-- EncodeToBytes returns the recursive encoding of the value, whose list headers the buffer defers
-- and fills in later, and fails exactly when a negative integer stands in the value; given that the
-- payload of every list has a length below 2^64.
pub encode_to_bytes-encoding :
    (v : Value)
    → Fits v
    → encode_to_bytes v ≡ (if has_negative v then err negative_big_int else ok (encoding v))
unfolding encode_to_bytes
encode_to_bytes-encoding v fit = elim (Bool-cases (has_negative v)) [
  | inl bad ↦ rw (write_value-extend v reset fit, bad)
  | inr good ↦ rw (write_value-extend v reset fit, good) (ap ok (to_bytes-encoding v))
]
