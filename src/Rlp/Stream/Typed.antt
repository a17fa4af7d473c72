-- ===== src/Rlp/Stream/Typed.antt =====
-- The values of the Go types that a shape stands for.
use advance_golang.Base.{ℕ, ◌/◌, ◌^◌, ◌≤◌, ◌<◌, ◌≡◌, ◌≢◌, refl, Bool, false, ◌&&◌}
use advance_golang.Base.{[], ◌∷◌, length, ltb, ◌==◌}
use advance_golang.Base.Maps.{Bytes}
use advance_golang.Rlp.Head.{putint}
use advance_golang.Rlp.Raw.{first}
use advance_golang.Rlp.Encode.{
  non_negative, Value, text, uint, boolean, big, sequence, Values, nil, cons,
}
use advance_golang.Rlp.Encode.Spec.{payload, is_negative, has_negative, any_negative, Fits, AllFit}
use advance_golang.Rlp.Encode.RoundTrip.{count, Readable, AllReadable}
use advance_golang.Rlp.Stream.Shapes.{
  Shape, big_shape, uint_shape, boolean_shape, text_shape, byte_array_shape, slice_shape,
  array_shape, struct_shape, Shapes, no_fields, field,
}

-- A Go value of a type that has this shape, as the decoders give it back: an unsigned integer within
-- the type's bits, a big.Int that is not negative and has no leading zero byte, a byte array other than
-- the single byte 0, which decodeByteArray refuses, and lengths that are uint64s.
mutual
  pub data Typed : Shape → Value → Type 0 where
    typed_big :
        (b : Bytes)
        → length b < 2 ^ 64
        → (ltb 0 (length b) && first b == 0) ≡ false
        → Typed big_shape (big (non_negative b))
    typed_uint :
        (bits i : ℕ) → i < 2 ^ 64 → length (putint i) ≤ bits / 8 → Typed (uint_shape bits) (uint i)
    typed_boolean : (b : Bool) → Typed boolean_shape (boolean b)
    typed_text : (b : Bytes) → length b < 2 ^ 64 → Typed text_shape (text b)
    typed_byte_array :
        (len : ℕ) (b : Bytes)
        → length b ≡ len
        → length b < 2 ^ 64
        → b ≢ 0 ∷ []
        → Typed (byte_array_shape len) (text b)
    typed_slice :
        (elem : Shape) (vs : Values)
        → AllTyped elem vs
        → length (payload vs) < 2 ^ 64
        → Typed (slice_shape elem) (sequence vs)
    typed_array :
        (elem : Shape) (len : ℕ) (vs : Values)
        → count vs ≡ len
        → AllTyped elem vs
        → length (payload vs) < 2 ^ 64
        → Typed (array_shape elem len) (sequence vs)
    typed_struct :
        (shapes : Shapes) (vs : Values)
        → FieldsTyped shapes vs
        → length (payload vs) < 2 ^ 64
        → Typed (struct_shape shapes) (sequence vs)

  pub data AllTyped : Shape → Values → Type 0 where
    no_elements : (elem : Shape) → AllTyped elem nil
    element :
        (elem : Shape) (v : Value) (vs : Values)
        → Typed elem v
        → AllTyped elem vs
        → AllTyped elem (cons v vs)

  pub data FieldsTyped : Shapes → Values → Type 0 where
    fields_end : FieldsTyped no_fields nil
    next_field :
        (shape : Shape) (shapes : Shapes) (v : Value) (vs : Values)
        → Typed shape v
        → FieldsTyped shapes vs
        → FieldsTyped (field shape shapes) (cons v vs)

Typed-Readable : (shape : Shape) (v : Value) → Typed shape v → Readable v
Typed-Readable _ _ (typed_big b h lead) = h
Typed-Readable _ _ (typed_uint bits i h fits) = h
Typed-Readable _ _ (typed_boolean b) = tt
Typed-Readable _ _ (typed_text b h) = h
Typed-Readable _ _ (typed_byte_array len b same h nonzero) = h
Typed-Readable _ _ (typed_slice elem vs all h) = h
Typed-Readable _ _ (typed_array elem len vs same all h) = h
Typed-Readable _ _ (typed_struct shapes vs all h) = h

pub AllTyped-Readable : (elem : Shape) (vs : Values) → AllTyped elem vs → AllReadable vs
AllTyped-Readable _ _ (no_elements elem) = tt
AllTyped-Readable _ _ (element elem v vs one all) =
    (Typed-Readable elem v one, AllTyped-Readable elem vs all)

mutual
  unfolding has_negative is_negative

  pub fitting : (shape : Shape) (v : Value) → Typed shape v → Fits v × (has_negative v ≡ false)
  fitting _ _ (typed_big b h lead) = (tt, refl)
  fitting _ _ (typed_uint bits i h fits) = (tt, refl)
  fitting _ _ (typed_boolean b) = (tt, refl)
  fitting _ _ (typed_text b h) = (tt, refl)
  fitting _ _ (typed_byte_array len b same h nonzero) = (tt, refl)
  fitting _ _ (typed_slice elem vs all h) =
      let (fit, good) = all_fitting elem vs all in ((h, fit), good)
  fitting _ _ (typed_array elem len vs same all h) =
      let (fit, good) = all_fitting elem vs all in ((h, fit), good)
  fitting _ _ (typed_struct shapes vs all h) =
      let (fit, good) = fields_fitting shapes vs all in ((h, fit), good)

  all_fitting :
      (elem : Shape) (vs : Values) → AllTyped elem vs → AllFit vs × (any_negative vs ≡ false)
  all_fitting _ _ (no_elements elem) = (tt, refl)
  all_fitting _ _ (element elem v vs one all) =
      let (fit, good) = fitting elem v one in
      let (fits, goods) = all_fitting elem vs all in ((fit, fits), rw (good, goods) refl)

  fields_fitting :
      (shapes : Shapes) (vs : Values)
      → FieldsTyped shapes vs
      → AllFit vs × (any_negative vs ≡ false)
  fields_fitting _ _ fields_end = (tt, refl)
  fields_fitting _ _ (next_field shape shapes v vs one all) =
      let (fit, good) = fitting shape v one in
      let (fits, goods) = fields_fitting shapes vs all in ((fit, fits), rw (good, goods) refl)
