-- ===== src/Rlp/Stream/RoundTrip.antt =====
-- rlp/decode.go: DecodeBytes gives back the value that EncodeToBytes has written.
use advance_golang.Base.{ℕ, ◌≤◌, ◌≡◌, refl, sym, ap, ◌∙◌, arith}
use advance_golang.Base.{
  [], ◌++◌, length, length-append, drop-append-length, if◌then◌else◌, append-nil, ltb,
}
use mathlib.Core.Path.{subst}
use advance_golang.Base.Maps.{Bytes}
use advance_golang.Rlp.Encode.{Value, text, uint, boolean, raw, Values}
use advance_golang.Rlp.Result.{ok}
use advance_golang.Rlp.Encode.{encode_to_bytes}
use advance_golang.Rlp.Encode.Refine.{encode_to_bytes-encoding}
use advance_golang.Rlp.Encode.Spec.{encoding}
use advance_golang.Rlp.Encode.RoundTrip.{count-le-length}
use advance_golang.Rlp.Stream.{
  Stream, more_than_one_value, Outcome, fail, done, Reading, reset, next_kind, read_raw, read_bytes,
  read_number, read_bool,
}
use advance_golang.Rlp.Stream.Shapes.{
  Shape, raw_shape, big_shape, uint_shape, boolean_shape, text_shape, byte_array_shape, slice_shape,
  array_shape, struct_shape, Shapes, to_value, and_then, required, array_elems, decode_byte_array,
  decode_value, decode_fields, decode_bytes, only_value,
}
use advance_golang.Rlp.Stream.Steps.{Room}
use advance_golang.Rlp.Stream.Reads.{Reads, Ends, next_kind-Ends, bind-Ends}
use advance_golang.Rlp.Stream.Strings.{read_bytes-Ends, read_bytes-Reads}
use advance_golang.Rlp.Stream.Numbers.{
  read_number-Ends, read_number-Reads, read_bool-Ends, read_bool-Reads,
}
use advance_golang.Rlp.Stream.Arrays.{
  decode_big-Ends, decode_big-Reads, decode_byte_array-Ends, decode_byte_array-Reads,
}
use advance_golang.Rlp.Stream.Lists.{
  ReadsAll, in_list-Reads, in_list-Ends, decode_slice-Ends, both-ReadsAll,
}
use advance_golang.Rlp.Stream.Elements.{
  Each, decode_slice-Reads, required-Reads, array_elems-ReadsAll, none-ReadsAll,
}
use advance_golang.Rlp.Stream.Typed.{
  Typed, typed_big, typed_uint, typed_boolean, typed_text, typed_byte_array, typed_slice,
  typed_array, typed_struct, AllTyped, no_elements, element, FieldsTyped, fields_end, next_field,
  AllTyped-Readable, fitting,
}

and_then-Reads :
    {A : Type 0} (f : A → Value) (m : Reading A) (v : A) (code : Bytes)
    → Reads m v code
    → Reads (and_then f m) (f v) code
and_then-Reads {A} f m v code reads s more fresh here room =
    let got = reads s more fresh here room in
    record {
      after = got.after;
      run = ap (λ (p : Stream × Outcome A). (p.0, to_value f p.1)) got.run;
      ate = got.ate;
      again = got.again;
    }

and_then-Ends : {A : Type 0} (f : A → Value) (m : Reading A) → Ends m → Ends (and_then f m)
and_then-Ends {A} f m ends s fresh over =
    ap (λ (p : Stream × Outcome A). (p.0, to_value f p.1)) (ends s fresh over)

read_raw-Ends : Ends read_raw
unfolding read_raw
read_raw-Ends = bind-Ends next_kind _ next_kind-Ends

-- Every decoder begins with the kind of the value, so it reports the end of the list.
pub decode_value-Ends : (shape : Shape) → Ends (decode_value shape)
unfolding decode_value
decode_value-Ends raw_shape = and_then-Ends raw read_raw read_raw-Ends
decode_value-Ends big_shape = decode_big-Ends
decode_value-Ends (uint_shape bits) = and_then-Ends uint (read_number bits) (read_number-Ends bits)
decode_value-Ends boolean_shape = and_then-Ends boolean read_bool read_bool-Ends
decode_value-Ends text_shape = and_then-Ends text read_bytes read_bytes-Ends
decode_value-Ends (byte_array_shape len) = decode_byte_array-Ends len
decode_value-Ends (slice_shape elem) = decode_slice-Ends (decode_value elem)
decode_value-Ends (array_shape elem len) = in_list-Ends (array_elems (decode_value elem) len)
decode_value-Ends (struct_shape shapes) = in_list-Ends (decode_fields shapes)

mutual
  unfolding decode_value encoding

  value_reads :
      (shape : Shape) (v : Value) → Typed shape v → Reads (decode_value shape) v (encoding v)
  value_reads _ _ (typed_big b h lead) = decode_big-Reads b h lead
  value_reads _ _ (typed_uint bits i h fits) =
      and_then-Reads uint (read_number bits) i (encoding (uint i)) (read_number-Reads bits i h fits)
  value_reads _ _ (typed_boolean b) =
      and_then-Reads boolean read_bool b (encoding (boolean b)) (read_bool-Reads b)
  value_reads _ _ (typed_text b h) =
      and_then-Reads text read_bytes b (encoding (text b)) (read_bytes-Reads b h)
  value_reads _ _ (typed_byte_array len b same h nonzero) =
      subst (λ (n : ℕ). Reads (decode_byte_array n) (text b) (encoding (text b))) same
        (decode_byte_array-Reads b h nonzero)
  value_reads _ _ (typed_slice elem vs all h) =
      decode_slice-Reads (decode_value elem) vs (decode_value-Ends elem) (all_read elem vs all)
        (count-le-length vs (AllTyped-Readable elem vs all)) h
  value_reads _ _ (typed_array elem len vs same all h) =
      in_list-Reads (array_elems (decode_value elem) len) vs
        (subst (λ (n : ℕ). ReadsAll (array_elems (decode_value elem) n) vs) same
          (array_elems-ReadsAll (decode_value elem) vs (all_read elem vs all)))
        h
  value_reads _ _ (typed_struct shapes vs all h) =
      in_list-Reads (decode_fields shapes) vs (fields_read shapes vs all) h

  all_read : (elem : Shape) (vs : Values) → AllTyped elem vs → Each (decode_value elem) vs
  all_read _ _ (no_elements elem) = tt
  all_read _ _ (element elem v vs one all) = (value_reads elem v one, all_read elem vs all)

  fields_read :
      (shapes : Shapes) (vs : Values) → FieldsTyped shapes vs → ReadsAll (decode_fields shapes) vs
  fields_read _ _ fields_end = none-ReadsAll
  fields_read _ _ (next_field shape shapes v vs one all) =
      both-ReadsAll (required (decode_value shape)) (decode_fields shapes) v vs
        (required-Reads (decode_value shape) v (encoding v) (value_reads shape v one))
        (fields_read shapes vs all)

reset-Room : (b : Bytes) (n : ℕ) → n ≤ length b → Room (reset b (length b)) n
unfolding reset
reset-Room b n le = record { fits = tt; allowed = λ h. ground arith }

pub decode_bytes-append :
    (shape : Shape) (v : Value) (rest : Bytes)
    → Typed shape v
    → decode_bytes shape (encoding v ++ rest)
      ≡ (if ltb 0 (length rest) then fail more_than_one_value else done v)
unfolding decode_bytes only_value reset
decode_bytes-append shape v rest typed =
    let b = encoding v ++ rest in
    let le : length (encoding v) ≤ length b = omega (arith, length-append (encoding v) rest) in
    let got =
      value_reads shape v typed (reset b (length b)) rest refl refl
        (reset-Room b (length (encoding v)) le) in
    let used : got.after.r ≡ rest = got.ate.input ∙ drop-append-length (encoding v) rest in
    ap only_value got.run ∙ rw used refl

pub encode_to_bytes-Typed :
    (shape : Shape) (v : Value) → Typed shape v → encode_to_bytes v ≡ ok (encoding v)
encode_to_bytes-Typed shape v typed =
    let (fit, good) = fitting shape v typed in encode_to_bytes-encoding v fit ∙ rw good refl

pub decode_bytes-encoding :
    (shape : Shape) (v : Value) → Typed shape v → decode_bytes shape (encoding v) ≡ done v
decode_bytes-encoding shape v typed =
    ap (decode_bytes shape) (sym (append-nil (encoding v))) ∙ decode_bytes-append shape v [] typed
