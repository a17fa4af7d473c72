-- ===== src/Rlp/Stream/Arrays.antt =====
-- rlp/decode.go: decodeBigInt and decodeByteArray on what the encoder writes.
use advance_golang.Base.{
  ℕ, zero, suc, ◌^◌, ◌<◌, ◌≡◌, ◌≢◌, refl, sym, ap, ◌∙◌, arith, true, false, ◌&&◌, none, some,
}
use advance_golang.Base.{[], ◌∷◌, ◌++◌, length, Bool-cases, inl, inr, ltb, leb, ◌==◌}
use mathlib.Core.Path.{subst}
use advance_golang.Base.Maps.{Bytes}
use advance_golang.Rlp.Head.{puthead}
use advance_golang.Rlp.Raw.{byte_kind, string_kind, first}
use advance_golang.Rlp.Encode.{non_negative, text, big}
use advance_golang.Rlp.Encode.Spec.{string_encoding, big_encoding}
use advance_golang.Rlp.Stream.{
  Stream, done, rearm, next_kind, known_or_read, kept_kind, read_bytes, read_full, read_number,
  read_uint64,
}
use advance_golang.Rlp.Stream.Shapes.{
  to_big, decode_big, ignoring_error, single_byte, checked_array, array_bytes, decode_byte_array,
}
use advance_golang.Rlp.Stream.Steps.{bind_done, eaten}
use advance_golang.Rlp.Stream.Kinds.{HeadOf}
use advance_golang.Rlp.Stream.Headers.{next_kind-puthead_string, next_kind_byte}
use advance_golang.Rlp.Stream.Reads.{
  Reads, Ends, next_kind-Ends, bind-Ends, recode, by_parts, content_full, content-Ate,
}
use advance_golang.Rlp.Stream.Strings.{
  read_bytes-Ends, string_encoding_single, string_encoding_long, single, read_bytes-Reads,
}

pub decode_big-Ends : Ends decode_big
unfolding decode_big
decode_big-Ends = bind-Ends read_bytes _ read_bytes-Ends

big_encoding_string : (b : Bytes) → big_encoding (non_negative b) ≡ string_encoding b
unfolding big_encoding string_encoding puthead
big_encoding_string [] = refl
big_encoding_string (x ∷ b) = refl

-- A big.Int has no leading zero byte.
pub decode_big-Reads :
    (b : Bytes)
    → length b < 2 ^ 64
    → (ltb 0 (length b) && first b == 0) ≡ false
    → Reads decode_big (big (non_negative b)) (big_encoding (non_negative b))
unfolding decode_big to_big
decode_big-Reads b h lead =
    recode decode_big (big (non_negative b)) (big_encoding (non_negative b)) (string_encoding b)
      (big_encoding_string b)
      (λ s more fresh here room.
        let got = read_bytes-Reads b h s more fresh here room in
        record {
          after = got.after;
          run = bind_done read_bytes _ s got.after b got.run ∙ rw lead refl;
          ate = got.ate;
          again = got.again;
        })

pub decode_byte_array-Ends : (len : ℕ) → Ends (decode_byte_array len)
unfolding decode_byte_array
decode_byte_array-Ends len = bind-Ends next_kind _ next_kind-Ends

-- Kind gives what it keeps.
next_kind_kept :
    (t : Stream) {k : advance_golang.Rlp.Raw.Kind}
    → t.kind ≡ some k
    → t.kinderr ≡ none
    → next_kind t ≡ (t, done (k, t.size))
unfolding next_kind known_or_read kept_kind
next_kind_kept t kept fine = ap (λ k. known_or_read k t) kept ∙ rw fine refl

read_uint64_kept :
    (s t : Stream) (x : ℕ)
    → HeadOf byte_kind 0 1 s t
    → t.byteval ≡ x
    → 0 < x
    → read_uint64 t ≡ (rearm t, done x)
unfolding read_uint64 read_number
read_uint64_kept s t x head byteval pos =
    let value : (t.byteval == 0) ≡ false = rw byteval (ground arith) in
    bind_done next_kind _ t t (byte_kind, t.size) (next_kind_kept t head.kept head.fine)
    ∙ rw (value, byteval) refl

array_single : (x : ℕ) → 0 < x → x < 128 → Reads (decode_byte_array 1) (text (x ∷ [])) (x ∷ [])
unfolding decode_byte_array single_byte ignoring_error
array_single x lo hi s more fresh here room =
    let (t, head, byteval) = next_kind_byte s x more fresh hi here room in
    record {
      after = rearm t;
      run =
          bind_done next_kind _ s t (byte_kind, 0) head.run
          ∙ rw (read_uint64_kept s t x head byteval lo) refl;
      ate = record {
        input = head.ate.input;
        limit = head.ate.limit;
        left = head.ate.left;
        stack = head.ate.stack;
      };
      again = refl;
    }

array_long :
    (b : Bytes)
    → length b < 2 ^ 64
    → (length b == 1 && ltb (first b) 128) ≡ false
    → Reads (decode_byte_array (length b)) (text b) (puthead 0x80 0xB7 (length b) ++ b)
unfolding decode_byte_array array_bytes
array_long b h several =
    let code = puthead 0x80 0xB7 (length b) in
    by_parts (decode_byte_array (length b)) (text b) code b (λ s more fresh here room.
      let (t, head) = next_kind-puthead_string s (length b) (b ++ more) fresh h here room in
      let full = content_full s t code b more string_kind head here room in
      let same : ltb (length b) (length b) ≡ false = ground arith in
      record {
        after = eaten (length b) t;
        run =
            bind_done next_kind _ s t (string_kind, length b) head.run
            ∙ rw same (
                bind_done (read_full (length b)) _ t (eaten (length b) t) b full
                ∙ (unfold checked_array in rw several refl));
        ate = content-Ate s t code b more string_kind head here room;
        again = unfold eaten in refl;
      })

first_nonzero :
    (b : Bytes) → b ≢ 0 ∷ [] → (length b == 1 && leb (first b) 0x7F) ≡ true → 0 < first b
first_nonzero [] nonzero small = ground arith
first_nonzero (x ∷ y ∷ b) nonzero small = ground arith
first_nonzero (zero ∷ []) nonzero small = absurd (nonzero refl)
first_nonzero (suc x ∷ []) nonzero small = omega arith

-- A byte array is read back, save the one byte 0.
pub decode_byte_array-Reads :
    (b : Bytes)
    → length b < 2 ^ 64
    → b ≢ 0 ∷ []
    → Reads (decode_byte_array (length b)) (text b) (string_encoding b)
decode_byte_array-Reads b h nonzero = elim (Bool-cases (length b == 1 && leb (first b) 0x7F)) [
  | inl small ↦
      recode (decode_byte_array (length b)) (text b) (string_encoding b) b
        (string_encoding_single b small)
        (subst (λ (c : Bytes). Reads (decode_byte_array (length c)) (text c) c)
          (sym (single b small))
          (array_single (first b) (first_nonzero b nonzero small) (ground arith)))
  | inr large ↦
      recode (decode_byte_array (length b)) (text b) (string_encoding b)
        (puthead 0x80 0xB7 (length b) ++ b) (string_encoding_long b large)
        (array_long b h (ground arith))
]
