-- ===== src/Rlp/Stream/Shapes.antt =====
-- rlp/decode.go: the decoders that makeDecoder picks by a Go type, and DecodeBytes. A shape stands
-- for the type; a pointer has the shape of what it points to.
use advance_golang.Base.{ℕ, zero, suc, ◌&&◌}
use advance_golang.Base.{ltb, ◌==◌, if◌then◌else◌, [], ◌∷◌, length}
use advance_golang.Base.Maps.{Bytes}
use advance_golang.Rlp.Encode.{
  non_negative, Value, text, uint, boolean, big, raw, sequence, Values, nil, cons,
}
use advance_golang.Rlp.Raw.{byte_kind, string_kind, list_kind, first}
use advance_golang.Rlp.Stream.{
  Stream, eol, canon_int, canon_size, expected_string, too_few_elements, too_long, too_short,
  more_than_one_value, Outcome, fail, done, stuck, Reading, ◌>>=◌, reset, read_full, next_kind,
  read_bytes, read_raw, read_number, read_uint64, read_bool, enter_list, leave_list,
}

-- `uint_shape` has the bits of the type; `text_shape` is a string or a byte slice; `slice_shape` and
-- `array_shape` are a slice and an array of elements that are no bytes.
mutual
  pub data Shape : Type 0 where
    raw_shape : Shape
    big_shape : Shape
    uint_shape : (bits : ℕ) → Shape
    boolean_shape : Shape
    text_shape : Shape
    byte_array_shape : (len : ℕ) → Shape
    slice_shape : Shape → Shape
    array_shape : Shape → ℕ → Shape
    struct_shape : Shapes → Shape

  pub data Shapes : Type 0 where
    no_fields : Shapes
    field : Shape → Shapes → Shapes

abbrev pub to_value {κ} : {V : Type κ} → (V → Value) → Outcome V → Outcome Value
to_value f (fail e) = fail e
to_value f stuck = stuck
to_value f (done v) = done (f v)

abbrev pub and_then : {V : Type 0} → (V → Value) → Reading V → Reading Value
and_then f m s = ((m s).0, to_value f (m s).1)

-- No leading zero byte.
unfoldable pub to_big : Bytes → Outcome Value
to_big b = if ltb 0 (length b) && first b == 0 then fail canon_int else done (big (non_negative b))

unfoldable pub decode_big : Reading Value
decode_big = do b ← read_bytes; λ s. (s, to_big b)

-- `bv, _ := s.Uint()`
unfoldable pub ignoring_error : Outcome ℕ → ℕ
ignoring_error (fail e) = 0
ignoring_error stuck = 0
ignoring_error (done v) = v

unfoldable pub single_byte : ℕ → Reading Value
single_byte len s =
    let (s1, v) = read_uint64 s in
    if len == 0
    then (s, fail too_long)
    else if ltb 1 len
    then (s, fail too_short)
    else (s1, done (text (ignoring_error v ∷ [])))

unfoldable pub checked_array : ℕ → Bytes → Reading Value
checked_array size b s =
    (s, if size == 1 && ltb (first b) 128 then fail canon_size else done (text b))

unfoldable pub array_bytes : ℕ → ℕ → Reading Value
array_bytes len size s =
    let filled = (do b ← read_full len; checked_array size b) s in
    if ltb len size
    then (s, fail too_long)
    else if ltb size len
    then (s, fail too_short)
    else filled

unfoldable pub decode_byte_array : ℕ → Reading Value
decode_byte_array len = do
  (k, size) ← next_kind
  λ s. elim k [
    | byte_kind ↦ single_byte len s
    | string_kind ↦ array_bytes len size s
    | list_kind ↦ (s, fail expected_string)
  ]

unfoldable pub after_elem : Reading Values → Stream × Outcome Value → Stream × Outcome Values
after_elem next (s, fail eol) = (s, done nil)
after_elem next (s, fail e) = (s, fail e)
after_elem next (s, stuck) = (s, stuck)
after_elem next (s, done v) = (do vs ← next; λ t. (t, done (cons v vs))) s

-- The loop of `decodeSliceElems`, in rounds left: the end of the list ends it.
unfoldable pub slice_loop : ℕ → Reading Value → Reading Values
slice_loop zero elem s = (s, stuck)
slice_loop (suc rounds) elem s = after_elem (slice_loop rounds elem) (elem s)

-- A decoded element takes a byte at least, so the bytes that are left bound the rounds.
unfoldable pub slice_elems : Reading Value → Reading Values
slice_elems elem s = slice_loop (suc (length s.r)) elem s

unfoldable pub decode_slice : Reading Value → Reading Value
decode_slice elem = do
  size ← enter_list
  vs ← if size == 0 then (λ s. (s, done nil)) else slice_elems elem
  _ ← leave_list
  λ s. (s, done (sequence vs))

-- An element that is missing ends the list early.
unfoldable pub expected_elem : Outcome Value → Outcome Value
expected_elem (fail eol) = fail too_few_elements
expected_elem (fail e) = fail e
expected_elem stuck = stuck
expected_elem (done v) = done v

unfoldable pub required : Reading Value → Reading Value
required elem s = ((elem s).0, expected_elem (elem s).1)

unfoldable pub array_elems : Reading Value → ℕ → Reading Values
array_elems elem zero s = (s, done nil)
array_elems elem (suc n) s =
    (do v ← required elem; vs ← array_elems elem n; λ t. (t, done (cons v vs))) s

unfoldable pub in_list : Reading Values → Reading Value
in_list elems = do _ ← enter_list; vs ← elems; _ ← leave_list; λ s. (s, done (sequence vs))

unfoldable mutual
  pub decode_value : Shape → Reading Value
  decode_value raw_shape = and_then raw read_raw
  decode_value big_shape = decode_big
  decode_value (uint_shape bits) = and_then uint (read_number bits)
  decode_value boolean_shape = and_then boolean read_bool
  decode_value text_shape = and_then text read_bytes
  decode_value (byte_array_shape len) = decode_byte_array len
  decode_value (slice_shape elem) = decode_slice (decode_value elem)
  decode_value (array_shape elem len) = in_list (array_elems (decode_value elem) len)
  decode_value (struct_shape fields) = in_list (decode_fields fields)

  pub decode_fields : Shapes → Reading Values
  decode_fields no_fields s = (s, done nil)
  decode_fields (field shape shapes) s =
      (do v ← required (decode_value shape); vs ← decode_fields shapes; λ t. (t, done (cons v vs)))
        s

-- The input must hold one value and no more.
unfoldable pub only_value : Stream × Outcome Value → Outcome Value
only_value (s, fail e) = fail e
only_value (s, stuck) = stuck
only_value (s, done v) = if ltb 0 (length s.r) then fail more_than_one_value else done v

unfoldable pub decode_bytes : Shape → Bytes → Outcome Value
decode_bytes shape b = only_value (decode_value shape (reset b (length b)))
