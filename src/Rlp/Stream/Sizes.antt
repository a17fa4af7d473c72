-- ===== src/Rlp/Stream/Sizes.antt =====
-- rlp/decode.go: readUint on what putint writes.
use advance_golang.Base.{ℕ, zero, suc, ◌^◌, ◌≤◌, ◌<◌, ◌≡◌, ◌≢◌, refl, ap, ◌∙◌}
use advance_golang.Base.{Bool-cases, inl, inr, arith, ◌==◌}
use advance_golang.Base.{append-nil, [], ◌∷◌, ◌++◌, length, take, length-append, take-append-length}
use advance_golang.Base.Maps.{Bytes}
use advance_golang.Rlp.Head.{putint, length-putint, big_endian-putint}
use advance_golang.Rlp.Raw.{first}
use advance_golang.Rlp.Stream.{Stream, done, ◌>>=◌, read_full, canonical, read_uint}
use advance_golang.Rlp.Stream.Steps.{Room, bind_done, eaten, read_full-Room, read_byte-Room}

first-putint : (i : ℕ) (more : Bytes) → 0 < i → i < 2 ^ 64 → first (putint i ++ more) ≢ 0
unfolding putint
first-putint i more lo hi = ground arith

putint_small : (i : ℕ) → length (putint i) ≡ 1 → i < 2 ^ 64 → putint i ≡ i ∷ []
unfolding putint
putint_small i e h = ground arith

read_uint_long :
    (n : ℕ) (s : Stream) → 2 ≤ n → read_uint n s ≡ (do buf ← read_full n; canonical buf) s
unfolding read_uint
read_uint_long zero s h = absurd (omega arith)
read_uint_long (suc zero) s h = absurd (omega arith)
read_uint_long (suc (suc n)) s h = refl

-- readUint reads back what putint wrote.
pub read_uint-putint :
    (s : Stream) (i : ℕ) (more : Bytes)
    → 0 < i
    → i < 2 ^ 64
    → s.r ≡ putint i ++ more
    → Room s (length (putint i))
    → read_uint (length (putint i)) s ≡ (eaten (length (putint i)) s, done i)
unfolding canonical
read_uint-putint s i more lo hi here room = elim (Bool-cases (length (putint i) == 1)) [
  | inl one ↦
      let single : length (putint i) ≡ 1 = ground arith in
      let head : s.r ≡ i ∷ more = here ∙ ap (λ (b : Bytes). b ++ more) (putint_small i single hi) in
      rw single (unfold read_uint in read_byte-Room s i more (rw (← single) room) head)
  | inr several ↦
      let n = length (putint i) in
      let two : 2 ≤ n = ground (arith, length-putint i) in
      let le : n ≤ length s.r = rw here (omega (arith, length-append (putint i) more)) in
      let same : take n s.r ≡ putint i = rw here (take-append-length (putint i) more) in
      read_uint_long n s two
      ∙ bind_done (read_full n) canonical s (eaten n s) (take n s.r) (read_full-Room s n room le)
      ∙ rw (same, canonical, big_endian-putint i hi)
          (ground (arith, append-nil (putint i), first-putint i [] lo hi))
]
