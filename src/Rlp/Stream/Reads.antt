-- ===== src/Rlp/Stream/Reads.antt =====
-- What it means that a reader of Stream reads a value from its encoding, and the steps that the
-- readers share.
use advance_golang.Base.{ℕ, ◌+◌, ◌≤◌, ◌≡◌, refl, sym, ap, ◌∙◌, arith, true}
use advance_golang.Base.{Option, none}
use advance_golang.Base.{
  ◌++◌, length, take, drop, append_assoc, length-append, take-append-length, drop-append-length,
}
use mathlib.Core.Path.{subst}
use advance_golang.Base.Maps.{Bytes}
use advance_golang.Rlp.Raw.{Kind}
use advance_golang.Rlp.Stream.{
  Stream, eol, fail, done, Reading, ◌>>=◌, at_end, known_or_read, next_kind, read_full,
}
use advance_golang.Rlp.Stream.Steps.{
  Room, Ate, Room-Ate, Ate-add, bind_fail, eaten, eaten-Ate, read_full-Room,
}
use advance_golang.Rlp.Stream.Kinds.{HeadOf}

-- The reader returns the value; `n` bytes are behind, and the next value is to be read.
pub record Got {κ} {A : Type κ} (m : Reading A) (s : Stream) (v : A) (n : ℕ) : Type κ where
  pub after : Stream
  pub run : m s ≡ (after, done v)
  pub ate : Ate n s after
  pub again : after.kind ≡ none

-- The reader reads `v` from an input that starts with `code`, wherever there is room for it.
abbrev pub Reads {κ} : {A : Type κ} → Reading A → A → Bytes → Type κ
Reads m v code =
    (s : Stream) (more : Bytes)
    → s.kind ≡ none
    → s.r ≡ code ++ more
    → Room s (length code)
    → Got m s v (length code)

-- At the end of the innermost list the reader returns EOL.
abbrev pub Ends {κ} : {A : Type κ} → Reading A → Type κ
Ends m =
    (s : Stream)
    → s.kind ≡ none
    → at_end s.stack ≡ true
    → m s ≡ (record s { kinderr = none }, fail eol)

pub next_kind-Ends : Ends next_kind
unfolding next_kind known_or_read
next_kind-Ends s fresh over = ap (λ (kept : Option Kind). known_or_read kept s) fresh ∙ rw over refl

pub bind-Ends {κ ℓ} :
    {A : Type κ} {B : Type ℓ} (m : Reading A) (f : A → Reading B) → Ends m → Ends (m >>= f)
bind-Ends m f ends s fresh over =
    bind_fail m f s (record s { kinderr = none }) eol (ends s fresh over)

-- Another spelling of the encoding serves as well.
pub recode :
    {A : Type 0} (m : Reading A) (v : A) (code code' : Bytes)
    → code ≡ code'
    → Reads m v code'
    → Reads m v code
recode m v code code' same reads = subst (λ (c : Bytes). Reads m v c) (sym same) reads

-- A value whose encoding is a header and a content.
pub by_parts :
    {A : Type 0} (m : Reading A) (v : A) (code b : Bytes)
    → ((s : Stream) (more : Bytes)
        → s.kind ≡ none
        → s.r ≡ code ++ (b ++ more)
        → Room s (length code + length b)
        → Got m s v (length code + length b))
    → Reads m v (code ++ b)
by_parts m v code b got s more fresh here room =
    let size = length-append code b in
    subst (λ (n : ℕ). Got m s v n) (sym size)
      (got s more fresh (here ∙ append_assoc code b more) (subst (λ (n : ℕ). Room s n) size room))

-- The header of a string or a list is behind, and its content comes next.
module _ (s t : Stream) (code b more : Bytes) (k : Kind)
    (head : HeadOf k (length b) (length code) s t) (here : s.r ≡ code ++ (b ++ more))
    (room : Room s (length code + length b)) where
  pub content-Room : Room t (length b)
  content-Room = Room-Ate s t t (length code) (length b) room head.ate

  pub content_next : t.r ≡ b ++ more
  content_next = head.ate.input ∙ ap (drop (length code)) here ∙ drop-append-length code (b ++ more)

  pub content_full : read_full (length b) t ≡ (eaten (length b) t, done b)
  content_full =
      let le : length b ≤ length t.r = rw content_next (omega (arith, length-append b more)) in
      read_full-Room t (length b) content-Room le
      ∙ ap (λ (c : Bytes). (eaten (length b) t, done c))
          (ap (take (length b)) content_next ∙ take-append-length b more)

  pub content-Ate : Ate (length code + length b) s (eaten (length b) t)
  content-Ate =
      Ate-add s t (eaten (length b) t) (length code) (length b) room head.ate
        (eaten-Ate t (length b) content-Room)
