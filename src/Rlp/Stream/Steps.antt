-- ===== src/Rlp/Stream/Steps.antt =====
-- What the reading steps of Stream do where there is room for what they read.
use advance_golang.Base.{
  ℕ, ◌+◌, ◌-◌, ◌^◌, ◌≤◌, ◌<◌, ◌≡◌, refl, sym, ap, ◌∙◌, true, false, none, arith,
}
use advance_golang.Base.{if◌then◌else◌, List, [], ◌∷◌, length, take, drop, Bool-cases, inl, inr}
use advance_golang.Base.Maps.{Bytes}
use advance_golang.Rlp.Raw.Bounds.{drop-drop}
use advance_golang.Rlp.Stream.{
  ListPos, Stream, StreamError, Outcome, fail, done, Reading, continue, ◌>>=◌, overflows, moved,
  take_remaining, will_read, next_byte, next_bytes, read_byte, read_full,
}

-- A step that succeeds hands its value and its stream to the next one, and an error ends the steps.
module _ {κ ℓ} {A : Type κ} {B : Type ℓ} (m : Reading A) (f : A → Reading B) (s t : Stream) where
  pub bind_done : (v : A) → m s ≡ (t, done v) → (m >>= f) s ≡ f v t
  bind_done v e = ap (λ (p : Stream × Outcome A). continue p f) e

  pub bind_fail : (x : StreamError) → m s ≡ (t, fail x) → (m >>= f) s ≡ (t, fail x)
  bind_fail x e = ap (λ (p : Stream × Outcome A). continue p f) e

-- The innermost list has `n` bytes left, and its size is a uint64.
abbrev pub Fits : List ListPos → ℕ → Type 0
Fits [] n = Unit {0}
Fits (tos ∷ outer) n = (tos.pos + n ≤ tos.size) × (tos.size < 2 ^ 64)

-- There is room for `n` bytes: in the innermost list and below the limit.
pub record Room (s : Stream) (n : ℕ) : Type 0 where
  pub fits : Fits s.stack n
  pub allowed : s.limited ≡ true → n ≤ s.remaining

-- The stream after `n` bytes: only what bounds the reading is fixed.
pub record Ate (n : ℕ) (s t : Stream) : Type 0 where
  pub input : t.r ≡ drop n s.r
  pub limit : t.limited ≡ s.limited
  pub left : s.limited ≡ true → t.remaining + n ≡ s.remaining
  pub stack : t.stack ≡ moved s.stack n

pub Fits-moved : (ps : List ListPos) (m n : ℕ) → Fits ps (m + n) → Fits (moved ps m) n
unfolding moved
Fits-moved [] m n h = tt
Fits-moved (p ∷ ps) m n h = omega arith

pub Fits-le : (ps : List ListPos) (m n : ℕ) → m ≤ n → Fits ps n → Fits ps m
Fits-le [] m n le h = tt
Fits-le (p ∷ ps) m n le h = omega arith

pub moved-moved :
    (ps : List ListPos) (m n : ℕ) → Fits ps (m + n) → moved (moved ps m) n ≡ moved ps (m + n)
unfolding moved
moved-moved [] m n h = refl
moved-moved (p ∷ ps) m n h = ap (λ (q : ℕ). record p { pos = q } ∷ ps) (omega arith)

pub Room-le : (s : Stream) (m n : ℕ) → m ≤ n → Room s n → Room s m
Room-le s m n le room = record {
  fits = Fits-le s.stack m n le room.fits;
  allowed = λ h. omega (arith, room.allowed h);
}

module _ (s t u : Stream) (m n : ℕ) where
  pub Room-Ate : Room s (m + n) → Ate m s t → Room t n
  Room-Ate room ate = record {
    fits = rw ate.stack (Fits-moved s.stack m n room.fits);
    allowed = λ h.
        let was : s.limited ≡ true = sym ate.limit ∙ h in
        omega (arith, ate.left was, room.allowed was);
  }

  pub Ate-add : Room s (m + n) → Ate m s t → Ate n t u → Ate (m + n) s u
  Ate-add room a b = record {
    input = b.input ∙ ap (drop n) a.input ∙ sym (drop-drop m n s.r);
    limit = b.limit ∙ a.limit;
    left = λ h. omega (arith, a.left h, b.left (a.limit ∙ h));
    stack =
        b.stack
        ∙ ap (λ (ps : List ListPos). moved ps n) a.stack
        ∙ moved-moved s.stack m n room.fits;
  }

-- The stream that `willRead` leaves, and then the bytes are gone.
unfoldable pub eaten : ℕ → Stream → Stream
eaten n s = record s {
  r = drop n s.r;
  kind = none;
  remaining = if s.limited then s.remaining - n else s.remaining;
  stack = moved s.stack n;
}

pub eaten-Ate : (s : Stream) (n : ℕ) → Room s n → Ate n s (eaten n s)
unfolding eaten
eaten-Ate s n room = record {
  input = refl;
  limit = refl;
  left = λ h. rw h (omega (arith, room.allowed h));
  stack = refl;
}

overflows-Fits : (ps : List ListPos) (n : ℕ) → Fits ps n → overflows ps n ≡ false
unfolding overflows
overflows-Fits [] n h = refl
overflows-Fits (p ∷ ps) n h = ground arith

will_read-Room :
    (s : Stream) (n : ℕ) → Room s n → will_read n s ≡ (record (eaten n s) { r = s.r }, done tt)
unfolding will_read take_remaining eaten
will_read-Room s n room = elim (Bool-cases s.limited) [
  | inl bounded ↦
      let le : n ≤ s.remaining = room.allowed bounded in
      ground (arith, overflows-Fits s.stack n room.fits)
  | inr free ↦ ground (arith, overflows-Fits s.stack n room.fits)
]

pub read_full-Room :
    (s : Stream) (n : ℕ)
    → Room s n
    → n ≤ length s.r
    → read_full n s ≡ (eaten n s, done (take n s.r))
unfolding read_full
read_full-Room s n room le =
    bind_done (will_read n) (λ _. next_bytes n) s (record (eaten n s) { r = s.r }) tt
      (will_read-Room s n room)
    ∙ (unfold next_bytes eaten in ground arith)

pub read_byte-Room :
    (s : Stream) (b : ℕ) (more : Bytes)
    → Room s 1
    → s.r ≡ b ∷ more
    → read_byte s ≡ (eaten 1 s, done b)
unfolding read_byte
read_byte-Room s b more room here =
    bind_done (will_read 1) (λ _. next_byte) s (record (eaten 1 s) { r = s.r }) tt
      (will_read-Room s 1 room)
    ∙ (unfold next_byte eaten in ground arith)
