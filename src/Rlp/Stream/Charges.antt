-- ===== src/Rlp/Stream/Charges.antt =====
-- rlp/decode.go: the bytes that willRead charges, and the readers up to Kind.
use advance_golang.Base.{
  ℕ, zero, suc, ◌+◌, ◌-◌, ◌≤◌, ◌≡◌, refl, ap, ◌∙◌, arith, Bool, true, false, none, some,
}
use advance_golang.Base.{
  Option, Bool-cases, ◌⊎◌, inl, inr, ltb, if◌then◌else◌, List, [], ◌∷◌, length, length-drop,
}
use advance_golang.Base.Maps.{Bytes}
use advance_golang.Rlp.Raw.{Kind, byte_kind, string_kind, list_kind}
use advance_golang.Rlp.Stream.{
  ListPos, Stream, StreamError, Outcome, fail, done, stuck, Reading, continue, ◌>>=◌,
  take_remaining, will_read, next_byte, next_bytes, read_byte, read_full, canonical, read_uint,
  kind_of_byte, kind_after, read_kind, keep_kind, kept_kind, at_end, known_or_read, next_kind,
}

-- What has been read since `s` is taken from what remained.
pub record Spent (s t : Stream) : Type 0 where
  pub limit : t.limited ≡ s.limited
  pub charge : s.limited ≡ true → length s.r + t.remaining ≤ length t.r + s.remaining

-- The reader takes all that it reads from what remains, also when it fails.
abbrev pub Charges {κ} : {A : Type κ} → Reading A → Type 0
Charges m = (s : Stream) → Spent s (m s).0

pub Spent-refl : (s : Stream) → Spent s s
Spent-refl s = record { limit = refl; charge = λ h. omega arith }

pub Spent-trans : (s t u : Stream) → Spent s t → Spent t u → Spent s u
Spent-trans s t u a b = record {
  limit = b.limit ∙ a.limit;
  charge = λ h. omega (arith, a.charge h, b.charge (a.limit ∙ h));
}

module _ {κ ℓ} {A : Type κ} {B : Type ℓ} where
  continue-Spent :
      (s : Stream) (p : Stream × Outcome A) (f : A → Reading B)
      → Spent s p.0
      → ((v : A) → Charges (f v))
      → Spent s (continue p f).0
  continue-Spent s (t, fail e) f a b = a
  continue-Spent s (t, stuck) f a b = a
  continue-Spent s (t, done v) f a b = Spent-trans s t (f v t).0 a (b v t)

  pub bind-Charges :
      (m : Reading A) (f : A → Reading B)
      → Charges m
      → ((v : A) → Charges (f v))
      → Charges (m >>= f)
  bind-Charges m f a b s = continue-Spent s (m s) f (a s) b

-- `n` bytes are charged, or nothing.
will_read_cases :
    (n : ℕ) (s : Stream)
    → ((will_read n s).0.limited ≡ s.limited)
      × ((will_read n s).0.r ≡ s.r)
      × ((will_read n s).1 ≡ done tt
          → s.limited ≡ true
          → (will_read n s).0.remaining + n ≤ s.remaining)
      × (s.limited ≡ true → (will_read n s).0.remaining ≤ s.remaining)
unfolding will_read take_remaining
will_read_cases n s = elim (Bool-cases s.limited) [
  | inl bounded ↦ ground arith
  | inr free ↦ ground arith
]

-- A read of at most `n` bytes.
record Takes {κ} {A : Type κ} (n : ℕ) (s : Stream) (p : Stream × Outcome A) : Type κ where
  limit : p.0.limited ≡ s.limited
  same : p.0.remaining ≡ s.remaining
  bytes : length s.r ≤ length p.0.r + n

charged {κ} :
    {A : Type κ} (n : ℕ) (s : Stream) (p : Stream × Outcome (Unit {0})) (f : Unit {0} → Reading A)
    → p.0.limited ≡ s.limited
    → p.0.r ≡ s.r
    → (p.1 ≡ done tt → s.limited ≡ true → p.0.remaining + n ≤ s.remaining)
    → (s.limited ≡ true → p.0.remaining ≤ s.remaining)
    → ((u : Stream) → Takes n u (f tt u))
    → Spent s (continue p f).0
charged n s (t, fail e) f lim same paid less takes = record {
  limit = lim;
  charge = λ h. rw same (omega (arith, less h));
}
charged n s (t, stuck) f lim same paid less takes = record {
  limit = lim;
  charge = λ h. rw same (omega (arith, less h));
}
charged n s (t, done tt) f lim same paid less takes =
    let after = takes t in
    record {
      limit = after.limit ∙ lim;
      charge = λ h.
          let size : length t.r ≡ length s.r = ap length same in
          omega (arith, paid refl h, after.same, after.bytes);
    }

next_bytes-Takes : (n : ℕ) (u : Stream) → Takes n u (next_bytes n u)
unfolding next_bytes
next_bytes-Takes n u = elim (Bool-cases (ltb (length u.r) n)) [
  | inl short ↦ record {
    limit = rw short refl;
    same = rw short refl;
    bytes = rw short (ground arith);
  }
  | inr long ↦ record {
    limit = rw long refl;
    same = rw long refl;
    bytes = rw long (ground (arith, length-drop n u.r));
  }
]

bytes_cases : (b : Bytes) → (b ≡ []) ⊎ ((x : ℕ) × (more : Bytes) × (b ≡ x ∷ more))
bytes_cases [] = inl refl
bytes_cases (x ∷ more) = inr (x, more, refl)

next_byte-Takes : (u : Stream) → Takes 1 u (next_byte u)
unfolding next_byte
next_byte-Takes u = elim (bytes_cases u.r) [
  | inl ended ↦ record {
    limit = rw ended refl;
    same = rw ended refl;
    bytes = rw ended (omega arith);
  }
  | inr (x, more, e) ↦ record { limit = rw e refl; same = rw e refl; bytes = rw e (omega arith) }
]

pub read_full-Charges : (n : ℕ) → Charges (read_full n)
unfolding read_full
read_full-Charges n s =
    let w = will_read_cases n s in
    charged n s (will_read n s) (λ _. next_bytes n) w.0 w.1 w.2 w.3 (next_bytes-Takes n)

pub read_byte-Charges : Charges read_byte
unfolding read_byte
read_byte-Charges s =
    let w = will_read_cases 1 s in
    charged 1 s (will_read 1 s) (λ _. next_byte) w.0 w.1 w.2 w.3 next_byte-Takes

pub read_uint-Charges : (n : ℕ) → Charges (read_uint n)
unfolding read_uint canonical
read_uint-Charges zero s = record { limit = refl; charge = λ h. omega arith }
read_uint-Charges (suc zero) s = read_byte-Charges s
read_uint-Charges (suc (suc n)) s =
    bind-Charges (read_full (suc (suc n))) canonical (read_full-Charges (suc (suc n)))
      (λ b t. Spent-refl t) s

pub by_test {κ ℓ} :
    {A : Type κ} (P : A → Type ℓ) (c : Bool) (x y : A) → P x → P y → P (if c then x else y)
by_test P true x y a b = a
by_test P false x y a b = b

pub by_kind {κ ℓ} :
    {A : Type κ} (P : A → Type ℓ) (k : Kind) (x y z : A)
    → P x
    → P y
    → P z
    → P (elim k [ byte_kind ↦ x | string_kind ↦ y | list_kind ↦ z ])
by_kind P byte_kind x y z a b c = a
by_kind P string_kind x y z a b c = b
by_kind P list_kind x y z a b c = c

kind_of_byte-Spent : (b : ℕ) (s : Stream) → Spent s (kind_of_byte b s).0
unfolding kind_of_byte
kind_of_byte-Spent b s =
    let P : Stream × (Kind × ℕ × Option StreamError) → Type 0 = λ q. Spent s q.0 in
    let here = Spent-refl s in
    by_test P (ltb b 0x80) _ _ (record { limit = refl; charge = here.charge })
      (by_test P (ltb b 0xB8) _ _ here (
        by_test P (ltb b 0xC0) _ _ (read_uint-Charges (b - 0xB7) s)
          (by_test P (ltb b 0xF8) _ _ here (read_uint-Charges (b - 0xF7) s))))

kind_after-Spent :
    (ps : List ListPos) (s : Stream) (p : Stream × Outcome ℕ)
    → Spent s p.0
    → Spent s (kind_after ps p).0
unfolding kind_after
kind_after-Spent ps s (t, fail e) a = a
kind_after-Spent ps s (t, stuck) a = a
kind_after-Spent ps s (t, done b) a =
    let u : Stream = record t { byteval = 0 } in
    Spent-trans s u (kind_of_byte b u).0 (record { limit = a.limit; charge = a.charge })
      (kind_of_byte-Spent b u)

keep_kind-Spent :
    (s : Stream) (q : Stream × (Kind × ℕ × Option StreamError))
    → Spent s q.0
    → Spent s (keep_kind q)
unfolding keep_kind
keep_kind-Spent s (t, (k, n, e)) a = record { limit = a.limit; charge = a.charge }

known_or_read-Charges : (k : Option Kind) → Charges (known_or_read k)
unfolding known_or_read kept_kind read_kind
known_or_read-Charges (some k) s = Spent-refl s
known_or_read-Charges none s =
    let s1 : Stream = record s { kinderr = none } in
    let start : Spent s s1 = record { limit = refl; charge = (Spent-refl s).charge } in
    let read = kind_after-Spent s1.stack s1 (read_byte s1) (read_byte-Charges s1) in
    by_test (λ (p : Stream × Outcome (Kind × ℕ)). Spent s p.0) (at_end s.stack) _ _ start
      (Spent-trans s s1 _ start (keep_kind-Spent s1 (read_kind s1) read))

pub next_kind-Charges : Charges next_kind
unfolding next_kind
next_kind-Charges s = known_or_read-Charges s.kind s
