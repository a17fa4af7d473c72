-- ===== src/Rlp/Stream/Headers.antt =====
-- rlp/decode.go: readKind on the headers that `puthead` writes.
use advance_golang.Base.{ℕ, ◌+◌, ◌-◌, ◌^◌, ◌≤◌, ◌<◌, ◌≡◌, refl, ap, ◌∙◌}
use advance_golang.Base.{Bool-cases, inl, inr, none, some, arith, ltb, ltb→lt}
use advance_golang.Base.{[], ◌∷◌, ◌++◌, length, drop}
use mathlib.Core.Path.{subst}
use advance_golang.Base.Maps.{Bytes}
use advance_golang.Rlp.Head.{byte, putint, puthead, length-putint}
use advance_golang.Rlp.Raw.{Kind, byte_kind, string_kind, list_kind}
use advance_golang.Rlp.Stream.{
  Stream, Outcome, done, read_uint, long_size, kind_of_byte, kind_after, read_kind,
}
use advance_golang.Rlp.Stream.Steps.{
  Room, Ate, Room-le, Room-Ate, Ate-add, eaten, eaten-Ate, read_byte-Room,
}
use advance_golang.Rlp.Stream.Sizes.{read_uint-putint}
use advance_golang.Rlp.Stream.Kinds.{HeadOf, kept-HeadOf, read_kind-HeadOf}

-- The stream once the first byte of a header is behind.
abbrev tagged : Stream → Stream
tagged s = record (eaten 1 (record s { kinderr = none })) { byteval = 0 }

tagged-Ate : (s : Stream) → Room s 1 → Ate 1 s (tagged s)
unfolding eaten
tagged-Ate s room =
    let ate = eaten-Ate s 1 room in
    record { input = ate.input; limit = ate.limit; left = ate.left; stack = ate.stack }

read_kind_of :
    (s : Stream) (b : ℕ) (more : Bytes)
    → Room s 1
    → s.r ≡ b ∷ more
    → read_kind (record s { kinderr = none }) ≡ kind_of_byte b (tagged s)
unfolding read_kind kind_after
read_kind_of s b more room here =
    let s1 : Stream = record s { kinderr = none } in
    let room1 : Room s1 1 = record { fits = room.fits; allowed = room.allowed } in
    ap (λ (p : Stream × Outcome ℕ). kind_after s.stack p) (read_byte-Room s1 b more room1 here)

kind_of_string_tag :
    (n : ℕ) (s : Stream) → n < 56 → kind_of_byte (byte (0x80 + n)) s ≡ (s, (string_kind, n, none))
unfolding kind_of_byte
kind_of_string_tag n s h = ground arith

kind_of_list_tag :
    (n : ℕ) (s : Stream) → n < 56 → kind_of_byte (byte (0xC0 + n)) s ≡ (s, (list_kind, n, none))
unfolding kind_of_byte
kind_of_list_tag n s h = ground arith

kind_of_long_string :
    (l n : ℕ) (s t : Stream)
    → 1 ≤ l
    → l ≤ 8
    → 56 ≤ n
    → read_uint l s ≡ (t, done n)
    → kind_of_byte (byte (0xB7 + l)) s ≡ (t, (string_kind, n, none))
unfolding kind_of_byte long_size
kind_of_long_string l n s t lo hi long run =
    let tag : byte (0xB7 + l) ≡ 0xB7 + l = omega arith in
    let size : 0xB7 + l - 0xB7 ≡ l = omega arith in rw (tag, size, run) (ground arith)

kind_of_long_list :
    (l n : ℕ) (s t : Stream)
    → 1 ≤ l
    → l ≤ 8
    → 56 ≤ n
    → read_uint l s ≡ (t, done n)
    → kind_of_byte (byte (0xF7 + l)) s ≡ (t, (list_kind, n, none))
unfolding kind_of_byte long_size
kind_of_long_list l n s t lo hi long run =
    let tag : byte (0xF7 + l) ≡ 0xF7 + l = omega arith in
    let size : 0xF7 + l - 0xF7 ≡ l = omega arith in rw (tag, size, run) (ground arith)

module _ (s : Stream) (n : ℕ) (more : Bytes) (k : Kind) (small large : ℕ)
    (short_tag : (u : Stream) → n < 56 → kind_of_byte (byte (small + n)) u ≡ (u, (k, n, none)))
    (long_tag : (l : ℕ) (u t : Stream)
      → 1 ≤ l
      → l ≤ 8
      → 56 ≤ n
      → read_uint l u ≡ (t, done n)
      → kind_of_byte (byte (large + l)) u ≡ (t, (k, n, none)))
    (fresh : s.kind ≡ none) (uint64 : n < 2 ^ 64) where
  head_short :
      n < 56 → s.r ≡ byte (small + n) ∷ more → Room s (1 + n) → (t : Stream) × HeadOf k n 1 s t
  head_short short here room =
      let room1 = Room-le s 1 (1 + n) (omega arith) room in
      read_kind-HeadOf s n 1 k (tagged s) fresh (omega arith) room
        (read_kind_of s (byte (small + n)) more room1 here ∙ short_tag (tagged s) short)
        (tagged-Ate s room1)

  head_long :
      56 ≤ n
      → s.r ≡ byte (large + length (putint n)) ∷ (putint n ++ more)
      → Room s (1 + length (putint n) + n)
      → (t : Stream) × HeadOf k n (1 + length (putint n)) s t
  unfolding eaten
  head_long long here room =
      let l = length (putint n) in
      let bounds = length-putint n in
      let room1 = Room-le s 1 (1 + l + n) (omega arith) room in
      let room2 = Room-le s (1 + l) (1 + l + n) (omega arith) room in
      let u = tagged s in
      let after : u.r ≡ putint n ++ more = ap (drop 1) here in
      let roomu = Room-Ate s u u 1 l room2 (tagged-Ate s room1) in
      let uint = read_uint-putint u n more (omega arith) uint64 after roomu in
      read_kind-HeadOf s n (1 + l) k (eaten l u) fresh (omega arith) room
        (read_kind_of s (byte (large + l)) (putint n ++ more) room1 here
          ∙ long_tag l u (eaten l u) bounds.0 bounds.1 long uint)
        (Ate-add s u (eaten l u) 1 l room2 (tagged-Ate s room1) (eaten-Ate u l roomu))

  head_put :
      s.r ≡ puthead small large n ++ more
      → Room s (length (puthead small large n) + n)
      → (t : Stream) × HeadOf k n (length (puthead small large n)) s t
  head_put here room = elim (Bool-cases (ltb n 56)) [
    | inl short ↦
        let p : puthead small large n ≡ byte (small + n) ∷ [] = unfold puthead in rw short refl in
        rw p (
          head_short (ltb→lt n 56 short) (here ∙ ap (λ (b : Bytes). b ++ more) p)
            (subst (λ (b : Bytes). Room s (length b + n)) p room))
    | inr long ↦
        let p : puthead small large n ≡ byte (large + length (putint n)) ∷ putint n =
          unfold puthead in rw long refl in
        let q : length (puthead small large n) ≡ 1 + length (putint n) = rw p (omega arith) in
        rw q (
          head_long (ground arith) (here ∙ ap (λ (b : Bytes). b ++ more) p)
            (subst (λ (h : ℕ). Room s (h + n)) q room))
  ]

-- Kind reads the header of a string and of a list that puthead wrote.
pub next_kind-puthead_string :
    (s : Stream) (n : ℕ) (more : Bytes)
    → s.kind ≡ none
    → n < 2 ^ 64
    → s.r ≡ puthead 0x80 0xB7 n ++ more
    → Room s (length (puthead 0x80 0xB7 n) + n)
    → (t : Stream) × HeadOf string_kind n (length (puthead 0x80 0xB7 n)) s t
next_kind-puthead_string s n more fresh h here room =
    head_put s n more string_kind 0x80 0xB7 (λ u lt. kind_of_string_tag n u lt)
      (λ l u t. kind_of_long_string l n u t) fresh h here room

pub next_kind-puthead_list :
    (s : Stream) (n : ℕ) (more : Bytes)
    → s.kind ≡ none
    → n < 2 ^ 64
    → s.r ≡ puthead 0xC0 0xF7 n ++ more
    → Room s (length (puthead 0xC0 0xF7 n) + n)
    → (t : Stream) × HeadOf list_kind n (length (puthead 0xC0 0xF7 n)) s t
next_kind-puthead_list s n more fresh h here room =
    head_put s n more list_kind 0xC0 0xF7 (λ u lt. kind_of_list_tag n u lt)
      (λ l u t. kind_of_long_list l n u t) fresh h here room

kind_of_single :
    (b : ℕ) (s : Stream)
    → b < 128
    → kind_of_byte b s ≡ (record s { byteval = b }, (byte_kind, 0, none))
unfolding kind_of_byte
kind_of_single b s h = ground arith

-- Kind on a byte that is its own encoding keeps the byte.
pub next_kind_byte :
    (s : Stream) (b : ℕ) (more : Bytes)
    → s.kind ≡ none
    → b < 128
    → s.r ≡ b ∷ more
    → Room s 1
    → (t : Stream) × HeadOf byte_kind 0 1 s t × (t.byteval ≡ b)
next_kind_byte s b more fresh h here room =
    let a = tagged-Ate s room in
    let u : Stream = record (tagged s) { byteval = b } in
    let head =
      kept-HeadOf s 0 1 byte_kind u fresh (omega arith) room
        (read_kind_of s b more room here ∙ kind_of_single b (tagged s) h)
        (record { input = a.input; limit = a.limit; left = a.left; stack = a.stack }) in
    (record u { kind = some byte_kind; size = 0; kinderr = none }, head, refl)
