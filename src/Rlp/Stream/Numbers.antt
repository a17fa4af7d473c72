-- ===== src/Rlp/Stream/Numbers.antt =====
-- rlp/decode.go: Uint and Bool on what the encoder writes.
use advance_golang.Base.{
  ℕ, ◌+◌, ◌/◌, ◌^◌, ◌≤◌, ◌<◌, ◌≡◌, refl, sym, ap, ◌∙◌, arith, Bool, true, false,
}
use advance_golang.Base.{Bool-cases, inl, inr, none, ltb, ◌==◌}
use advance_golang.Base.{[], ◌∷◌, ◌++◌, length}
use mathlib.Core.Path.{subst}
use advance_golang.Base.Maps.{Bytes}
use advance_golang.Rlp.Head.{putint, puthead, length-putint}
use advance_golang.Rlp.Raw.{byte_kind, string_kind}
use advance_golang.Rlp.Encode.Spec.{uint_encoding, boolean_encoding}
use advance_golang.Rlp.Stream.{
  Stream, Outcome, done, rearm, next_kind, read_uint, read_number, string_uint, checked_uint,
  to_bool, read_bool,
}
use advance_golang.Rlp.Stream.Steps.{Room, Ate, bind_done, eaten}
use advance_golang.Rlp.Stream.Sizes.{read_uint-putint}
use advance_golang.Rlp.Stream.Headers.{next_kind-puthead_string, next_kind_byte}
use advance_golang.Rlp.Stream.Reads.{
  Got, Reads, Ends, next_kind-Ends, bind-Ends, recode, by_parts, content-Room, content_next,
  content-Ate,
}

pub read_number-Ends : (bits : ℕ) → Ends (read_number bits)
unfolding read_number
read_number-Ends bits = bind-Ends next_kind _ next_kind-Ends

-- A number that has bytes of its own.
string_uint_large :
    (s : Stream) (bits i : ℕ) (more : Bytes)
    → 128 ≤ i
    → i < 2 ^ 64
    → length (putint i) ≤ bits / 8
    → s.r ≡ putint i ++ more
    → Room s (length (putint i))
    → string_uint bits (length (putint i)) s ≡ (eaten (length (putint i)) s, done i)
unfolding string_uint checked_uint
string_uint_large s bits i more lo hi fits here room =
    let big : ltb 0 (length (putint i)) ≡ true = ground (arith, length-putint i) in
    let value : checked_uint (length (putint i)) (done i) ≡ done i =
      ground (arith, length-putint i) in
    rw (read_uint-putint s i more (omega arith) hi here room) (ground arith)

read_number_zero :
    (s : Stream) (bits : ℕ) (more : Bytes)
    → s.kind ≡ none
    → s.r ≡ 0x80 ∷ more
    → Room s 1
    → Got (read_number bits) s 0 1
unfolding read_number
read_number_zero s bits more fresh here room =
    let code : puthead 0x80 0xB7 0 ≡ 0x80 ∷ [] = unfold puthead in refl in
    let start : s.r ≡ puthead 0x80 0xB7 0 ++ more =
      here ∙ ap (λ (c : Bytes). c ++ more) (sym code) in
    let room1 : Room s (length (puthead 0x80 0xB7 0) + 0) =
      subst (λ (c : Bytes). Room s (length c + 0)) (sym code) room in
    let (t, head) = next_kind-puthead_string s 0 more fresh (omega arith) start room1 in
    let ate : Ate 1 s t = subst (λ (c : Bytes). Ate (length c) s t) code head.ate in
    let none_left : ltb (bits / 8) 0 ≡ false = ground arith in
    record {
      after = rearm t;
      run =
          bind_done next_kind _ s t (string_kind, 0) head.run
          ∙ (unfold string_uint checked_uint read_uint in rw none_left refl);
      ate = record { input = ate.input; limit = ate.limit; left = ate.left; stack = ate.stack };
      again = refl;
    }

read_number_byte :
    (s : Stream) (bits i : ℕ) (more : Bytes)
    → 0 < i
    → i < 128
    → s.kind ≡ none
    → s.r ≡ i ∷ more
    → Room s 1
    → Got (read_number bits) s i 1
unfolding read_number
read_number_byte s bits i more lo hi fresh here room =
    let (t, head, byteval) = next_kind_byte s i more fresh hi here room in
    let value : (t.byteval == 0) ≡ false = rw byteval (ground arith) in
    record {
      after = rearm t;
      run = bind_done next_kind _ s t (byte_kind, 0) head.run ∙ rw (value, byteval) refl;
      ate = record {
        input = head.ate.input;
        limit = head.ate.limit;
        left = head.ate.left;
        stack = head.ate.stack;
      };
      again = refl;
    }

read_number_large :
    (s : Stream) (bits i : ℕ) (more : Bytes)
    → 128 ≤ i
    → i < 2 ^ 64
    → length (putint i) ≤ bits / 8
    → s.kind ≡ none
    → s.r ≡ puthead 0x80 0xB7 (length (putint i)) ++ (putint i ++ more)
    → Room s (length (puthead 0x80 0xB7 (length (putint i))) + length (putint i))
    → Got
        (read_number bits)
        s
        i
        (length (puthead 0x80 0xB7 (length (putint i))) + length (putint i))
unfolding read_number
read_number_large s bits i more lo hi fits fresh here room =
    let b = putint i in
    let code = puthead 0x80 0xB7 (length b) in
    let small : length b < 2 ^ 64 = omega (arith, length-putint i) in
    let (t, head) = next_kind-puthead_string s (length b) (b ++ more) fresh small here room in
    let next = content_next s t code b more string_kind head here room in
    let roomt = content-Room s t code b more string_kind head here room in
    record {
      after = eaten (length b) t;
      run =
          bind_done next_kind _ s t (string_kind, length b) head.run
          ∙ string_uint_large t bits i more lo hi fits next roomt;
      ate = content-Ate s t code b more string_kind head here room;
      again = unfold eaten in refl;
    }

data Range (i : ℕ) : Type 0 where
  is_zero : i ≡ 0 → Range i
  is_byte : 0 < i → i < 128 → Range i
  is_large : 128 ≤ i → Range i

range : (i : ℕ) → Range i
range i = elim (Bool-cases (ltb i 128)) [
  | inr large ↦ is_large (ground arith)
  | inl small ↦ elim (Bool-cases (i == 0)) [
    | inl zero_value ↦ is_zero (ground arith)
    | inr other ↦ is_byte (ground arith) (ground arith)
  ]
]

uint_encoding_byte : (i : ℕ) → 0 < i → i < 128 → uint_encoding i ≡ i ∷ []
unfolding uint_encoding
uint_encoding_byte i lo hi = ground arith

uint_encoding_large :
    (i : ℕ) → 128 ≤ i → uint_encoding i ≡ puthead 0x80 0xB7 (length (putint i)) ++ putint i
unfolding uint_encoding puthead
uint_encoding_large i lo = ground (arith, length-putint i)

-- Uint reads back a number of no more bytes than the type has.
pub read_number-Reads :
    (bits i : ℕ)
    → i < 2 ^ 64
    → length (putint i) ≤ bits / 8
    → Reads (read_number bits) i (uint_encoding i)
read_number-Reads bits i hi fits = elim (range i) [
  | is_zero z ↦
      subst (λ (n : ℕ). Reads (read_number bits) n (uint_encoding n)) (sym z)
        (unfold uint_encoding in
          λ s more fresh here room. read_number_zero s bits more fresh here room)
  | is_byte lo small ↦
      recode (read_number bits) i (uint_encoding i) (i ∷ []) (uint_encoding_byte i lo small)
        (λ s more fresh here room. read_number_byte s bits i more lo small fresh here room)
  | is_large lo ↦
      let code = puthead 0x80 0xB7 (length (putint i)) in
      recode (read_number bits) i (uint_encoding i) (code ++ putint i) (uint_encoding_large i lo) (
        by_parts (read_number bits) i code (putint i)
          (λ s more fresh here room. read_number_large s bits i more lo hi fits fresh here room))
]

pub read_bool-Ends : Ends read_bool
unfolding read_bool
read_bool-Ends = bind-Ends (read_number 8) _ (read_number-Ends 8)

bit : Bool → ℕ
bit true = 1
bit false = 0

boolean_encoding_uint : (b : Bool) → boolean_encoding b ≡ uint_encoding (bit b)
unfolding boolean_encoding uint_encoding bit
boolean_encoding_uint true = refl
boolean_encoding_uint false = refl

to_bool-bit : (b : Bool) → to_bool (bit b) ≡ done b
unfolding to_bool bit
to_bool-bit true = refl
to_bool-bit false = refl

putint-bit : (b : Bool) → length (putint (bit b)) ≤ 8 / 8
unfolding putint bit
putint-bit true = omega arith
putint-bit false = omega arith

bit_bound : (b : Bool) → bit b < 2 ^ 64
unfolding bit
bit_bound true = omega arith
bit_bound false = omega arith

pub read_bool-Reads : (b : Bool) → Reads read_bool b (boolean_encoding b)
unfolding read_bool
read_bool-Reads b =
    recode read_bool b (boolean_encoding b) (uint_encoding (bit b)) (boolean_encoding_uint b)
      (λ s more fresh here room.
        let got = read_number-Reads 8 (bit b) (bit_bound b) (putint-bit b) s more fresh here room in
        record {
          after = got.after;
          run =
              bind_done (read_number 8) _ s got.after (bit b) got.run
              ∙ ap (λ (v : Outcome Bool). (got.after, v)) (to_bool-bit b);
          ate = got.ate;
          again = got.again;
        })
