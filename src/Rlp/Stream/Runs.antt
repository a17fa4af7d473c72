-- ===== src/Rlp/Stream/Runs.antt =====
-- The theorems on the stream decoder at concrete inputs, and runs of the decoders.
use advance_golang.Base.{◌+◌, ◌≤◌, ◌≡◌, refl, arith, true, none, some, [], ◌∷◌, length}
use advance_golang.Base.Maps.{Bytes}
use advance_golang.Rlp.Raw.{byte_kind}
use advance_golang.Rlp.Encode.{non_negative, text, uint, boolean, big, sequence, Values, nil, cons}
use advance_golang.Rlp.Stream.{Stream, reset, stuck}
use advance_golang.Rlp.Stream.Shapes.{
  big_shape, uint_shape, boolean_shape, byte_array_shape, slice_shape, Shapes, no_fields, field,
  decode_byte_array, slice_loop, decode_value, text_shape,
}
use advance_golang.Rlp.Stream.Typed.{Typed}
use advance_golang.Rlp.Stream.Limit.{decode_value-limit}
use advance_golang.Rlp.Stream.ZeroByte.{slice_loop-ZeroKept}

abbrev seven : Bytes
seven = 7 ∷ []

abbrev sample_fields : Shapes
sample_fields =
    field (uint_shape 64)
      (field big_shape (field (byte_array_shape 2) (field (slice_shape boolean_shape) no_fields)))

abbrev sample_values : Values
sample_values = cons (uint 300) (
    cons (big (non_negative (1 ∷ 0 ∷ [])))
      (cons (text (9 ∷ 8 ∷ [])) (cons (sequence (cons (boolean true) nil)) nil)))

abbrev at_zero : Stream
at_zero = record {
  r = 5 ∷ [];
  remaining = 1;
  limited = true;
  kind = some byte_kind;
  size = 0;
  byteval = 0;
  kinderr = none;
  stack = record { pos = 1; size = 2 } ∷ [];
}

slice_loop-ZeroKept_example : slice_loop 9 (decode_byte_array 1) at_zero ≡ (at_zero, stuck)
slice_loop-ZeroKept_example = slice_loop-ZeroKept 9 at_zero (refl, refl, refl)

-- The limit ends inside the list.
abbrev long_input : Bytes
long_input = 0xC4 ∷ 0x83 ∷ 1 ∷ 2 ∷ 3 ∷ []

decode_value-limit_example :
    length long_input ≤ length (decode_value (slice_shape text_shape) (reset long_input 3)).0.r + 3
decode_value-limit_example = decode_value-limit (slice_shape text_shape) long_input 3 (omega arith)
