-- ===== src/Rlp/Stream/ZeroByte.antt =====
-- rlp/decode.go: decodeByteArray on the byte 0, whose kind stays.
use advance_golang.Base.{ℕ, zero, suc, ◌≡◌, refl, ap, ◌∙◌, some, none}
use advance_golang.Base.{[], ◌∷◌, Option}
use advance_golang.Rlp.Raw.{Kind, byte_kind}
use advance_golang.Rlp.Encode.{text, Values, cons}
use advance_golang.Rlp.Stream.{
  Stream, canon_int, Outcome, fail, done, stuck, continue, known_or_read, kept_kind, next_kind,
  read_number, read_uint64,
}
use advance_golang.Rlp.Stream.Shapes.{
  single_byte, ignoring_error, decode_byte_array, after_elem, slice_loop,
}
use advance_golang.Rlp.Stream.Steps.{bind_done}

-- The byte 0 has been read as a kind, and it is not decoded yet.
abbrev pub ZeroKept : Stream → Type 0
ZeroKept s = (s.kind ≡ some byte_kind) × (s.kinderr ≡ none) × (s.byteval ≡ 0)

zero_kind : (s : Stream) → ZeroKept s → next_kind s ≡ (s, done (byte_kind, s.size))
unfolding next_kind known_or_read kept_kind
zero_kind s (kept, fine, value) = ap (λ (k : Option Kind). known_or_read k s) kept ∙ rw fine refl

zero_uint : (s : Stream) → ZeroKept s → read_uint64 s ≡ (s, fail canon_int)
unfolding read_uint64 read_number
zero_uint s z = bind_done next_kind _ s s (byte_kind, s.size) (zero_kind s z) ∙ rw z.2 refl

-- The error of Uint is dropped, and nothing is consumed.
zero_array : (s : Stream) → ZeroKept s → decode_byte_array 1 s ≡ (s, done (text (0 ∷ [])))
unfolding decode_byte_array single_byte ignoring_error
zero_array s z =
    bind_done next_kind _ s s (byte_kind, s.size) (zero_kind s z) ∙ rw (zero_uint s z) refl

-- The loop of decodeSliceElems over arrays of one byte does not end on the byte 0: it runs out of
-- its rounds however many there are, and the stream stays as it is; given that Kind has just read
-- the byte.
pub slice_loop-ZeroKept :
    (rounds : ℕ) (s : Stream) → ZeroKept s → slice_loop rounds (decode_byte_array 1) s ≡ (s, stuck)
unfolding slice_loop after_elem
slice_loop-ZeroKept zero s z = refl
slice_loop-ZeroKept (suc rounds) s z =
    ap (after_elem (slice_loop rounds (decode_byte_array 1))) (zero_array s z)
    ∙ ap (λ (p : Stream × Outcome Values). continue p (λ vs t. (t, done (cons (text (0 ∷ [])) vs))))
        (slice_loop-ZeroKept rounds s z)
