-- ===== src/Rlp/Stream/Strings.antt =====
-- rlp/decode.go: Bytes on what the encoder writes.
use advance_golang.Base.{ℕ, ◌+◌, ◌^◌, ◌<◌, ◌≡◌, refl, sym, ◌∙◌, arith, true, false, ◌&&◌}
use advance_golang.Base.{Bool-cases, inl, inr, none, ltb, leb, ◌==◌}
use advance_golang.Base.{[], ◌∷◌, ◌++◌, length}
use mathlib.Core.Path.{subst}
use advance_golang.Base.Maps.{Bytes}
use advance_golang.Rlp.Head.{puthead}
use advance_golang.Rlp.Raw.{byte_kind, string_kind, first}
use advance_golang.Rlp.Encode.Spec.{string_encoding}
use advance_golang.Rlp.Stream.{Stream, rearm, next_kind, no_single, read_full, read_bytes}
use advance_golang.Rlp.Stream.Steps.{Room, bind_done, eaten}
use advance_golang.Rlp.Stream.Headers.{next_kind-puthead_string, next_kind_byte}
use advance_golang.Rlp.Stream.Reads.{
  Got, Reads, Ends, next_kind-Ends, bind-Ends, recode, by_parts, content_full, content-Ate,
}

pub read_bytes-Ends : Ends read_bytes
unfolding read_bytes
read_bytes-Ends = bind-Ends next_kind _ next_kind-Ends

-- Bytes reads back a string that is no byte of its own.
read_bytes_long :
    (s : Stream) (b more : Bytes)
    → (length b == 1 && ltb (first b) 128) ≡ false
    → length b < 2 ^ 64
    → s.kind ≡ none
    → s.r ≡ puthead 0x80 0xB7 (length b) ++ (b ++ more)
    → Room s (length (puthead 0x80 0xB7 (length b)) + length b)
    → Got read_bytes s b (length (puthead 0x80 0xB7 (length b)) + length b)
unfolding read_bytes
read_bytes_long s b more several h fresh here room =
    let code = puthead 0x80 0xB7 (length b) in
    let (t, head) = next_kind-puthead_string s (length b) (b ++ more) fresh h here room in
    let full = content_full s t code b more string_kind head here room in
    record {
      after = eaten (length b) t;
      run =
          bind_done next_kind _ s t (string_kind, length b) head.run
          ∙ bind_done (read_full (length b)) no_single t (eaten (length b) t) b full
          ∙ (unfold no_single in rw several refl);
      ate = content-Ate s t code b more string_kind head here room;
      again = unfold eaten in refl;
    }

read_bytes_single :
    (s : Stream) (x : ℕ) (more : Bytes)
    → x < 128
    → s.kind ≡ none
    → s.r ≡ x ∷ more
    → Room s 1
    → Got read_bytes s (x ∷ []) 1
unfolding read_bytes
read_bytes_single s x more h fresh here room =
    let (t, head, byteval) = next_kind_byte s x more fresh h here room in
    record {
      after = rearm t;
      run = bind_done next_kind _ s t (byte_kind, 0) head.run ∙ rw byteval refl;
      ate = record {
        input = head.ate.input;
        limit = head.ate.limit;
        left = head.ate.left;
        stack = head.ate.stack;
      };
      again = refl;
    }

pub single : (b : Bytes) → (length b == 1 && leb (first b) 0x7F) ≡ true → b ≡ first b ∷ []
single [] h = ground arith
single (x ∷ []) h = refl
single (x ∷ y ∷ b) h = ground arith

pub string_encoding_single :
    (b : Bytes) → (length b == 1 && leb (first b) 0x7F) ≡ true → string_encoding b ≡ b
unfolding string_encoding
string_encoding_single b small = rw small (sym (single b small))

pub string_encoding_long :
    (b : Bytes)
    → (length b == 1 && leb (first b) 0x7F) ≡ false
    → string_encoding b ≡ puthead 0x80 0xB7 (length b) ++ b
unfolding string_encoding
string_encoding_long b large = rw large refl

read_bytes_byte : (x : ℕ) → x < 128 → Reads read_bytes (x ∷ []) (x ∷ [])
read_bytes_byte x h s more fresh here room = read_bytes_single s x more h fresh here room

pub read_bytes-Reads : (b : Bytes) → length b < 2 ^ 64 → Reads read_bytes b (string_encoding b)
read_bytes-Reads b h = elim (Bool-cases (length b == 1 && leb (first b) 0x7F)) [
  | inl small ↦ recode read_bytes b (string_encoding b) b (string_encoding_single b small) (
      subst (λ (c : Bytes). Reads read_bytes c c) (sym (single b small))
        (read_bytes_byte (first b) (ground arith)))
  | inr large ↦
      let code = puthead 0x80 0xB7 (length b) in
      recode read_bytes b (string_encoding b) (code ++ b) (string_encoding_long b large) (
        by_parts read_bytes b code b
          (λ s more fresh here room. read_bytes_long s b more (ground arith) h fresh here room))
]
