-- ===== src/Rlp/Encode/Pieces/Whole.antt =====
-- EncodeToReader and the calls of Read after it, together.
use advance_golang.Base.{ℕ, ◌≡◌, sym, ap, arith, false, none, some, List, length, take, append-nil}
use advance_golang.Rlp.Encode.{EncBuf, reset, size, Value, to_bytes}
use advance_golang.Rlp.Encode.Layout.{body, heads, headers_size, length-encoding}
use advance_golang.Rlp.Encode.Pieces.{EncReader, reads, sum, encode_to_reader}
use advance_golang.Rlp.Encode.Pieces.Order.{Ordered, heads-Ordered_all}
use advance_golang.Rlp.Encode.Pieces.Reads.{Holds, HoldsAt, reads-take}
use advance_golang.Rlp.Encode.Refine.{extend, write_value-extend, to_bytes-encoding}
use advance_golang.Rlp.Encode.Spec.{encoding, has_negative, Fits}
use advance_golang.Rlp.Result.{ok}
use mathlib.Core.Path.{subst}

-- The buffer of a value, and the reader of it before the first call.
abbrev written : Value → EncBuf
written v = extend reset (body v) (heads v 0) (headers_size v)

abbrev reader : Value → EncReader
reader v = record { buf = some (written v); lhpos = 0; strpos = 0; piece = none }

reader-Holds : (v : Value) → Holds (encoding v) (reader v)
unfolding Holds HoldsAt to_bytes
reader-Holds v = (
  subst (λ hs. Ordered 0 hs (length (body v))) (append-nil (heads v 0)) (heads-Ordered_all v),
  sym (to_bytes-encoding v),
)

-- EncodeToReader returns the length of the encoding of a value without negative integers, and a
-- reader whose calls of Read, into slices of any lengths, give the bytes of the encoding in order,
-- each of them in finitely many rounds; given that the payload of every list has a length below 2^64.
pub encode_to_reader-reads :
    (v : Value) (ns : List ℕ)
    → Fits v
    → has_negative v ≡ false
    → (r : EncReader) × (encode_to_reader v ≡ ok (length (encoding v), r))
      × (reads ns r ≡ some (take (sum ns) (encoding v)))
unfolding encode_to_reader size
encode_to_reader-reads v ns fit good = (
  reader v,
  rw (write_value-extend v reset fit, good)
      (ap (λ (n : ℕ). ok (n, reader v)) (omega (arith, length-encoding v fit))),
  reads-take ns (encoding v) (reader v) (reader-Holds v),
)
