-- ===== src/Rlp/Stream/Kinds.antt =====
-- rlp/decode.go: Kind, once readKind is known.
use advance_golang.Base.{ℕ, ◌+◌, ◌≤◌, ◌<◌, ◌≡◌, refl, ap, ◌∙◌}
use advance_golang.Base.{Option, Bool-cases, inl, inr, true, false, List, none, some, arith}
use advance_golang.Base.{[], ◌∷◌}
use advance_golang.Rlp.Raw.{Kind}
use advance_golang.Rlp.Stream.{
  ListPos, Stream, StreamError, done, read_kind, too_large, at_end, known_or_read, keep_kind,
  kept_kind, next_kind,
}
use advance_golang.Rlp.Stream.Steps.{Fits, Room, Ate, Room-Ate}

-- The kind and the size of the next value are known, and its header of `h` bytes is behind.
pub record HeadOf (k : Kind) (n h : ℕ) (s t : Stream) : Type 0 where
  pub run : next_kind s ≡ (t, done (k, n))
  pub ate : Ate h s t
  pub kept : t.kind ≡ some k
  pub sized : t.size ≡ n
  pub fine : t.kinderr ≡ none

room_at_end : (ps : List ListPos) (n : ℕ) → 0 < n → Fits ps n → at_end ps ≡ false
unfolding at_end
room_at_end [] n h f = refl
room_at_end (p ∷ ps) n h f = ground arith

room_too_large :
    (ps : List ListPos) (s : Stream) (n : ℕ)
    → Fits ps n
    → (s.limited ≡ true → n ≤ s.remaining)
    → too_large ps s n ≡ none
unfolding too_large
room_too_large [] s n fits allowed = elim (Bool-cases s.limited) [
  | inl bounded ↦ ground (arith, allowed bounded)
  | inr free ↦ ground arith
]
room_too_large (p ∷ ps) s n fits allowed = ground arith

abbrev pub Read : Type 0
Read = Stream × (Kind × ℕ × Option StreamError)

next_kind_read :
    (s u : Stream) (k : Kind) (n : ℕ)
    → s.kind ≡ none
    → at_end s.stack ≡ false
    → read_kind (record s { kinderr = none }) ≡ (u, (k, n, none))
    → too_large u.stack u n ≡ none
    → next_kind s ≡ (record u { kind = some k; size = n; kinderr = none }, done (k, n))
unfolding next_kind known_or_read keep_kind kept_kind
next_kind_read s u k n fresh inside run small =
    ap (λ (kept : Option Kind). known_or_read kept s) fresh
    ∙ rw inside (ap (λ (q : Read). kept_kind (keep_kind q) q.1.0) run ∙ rw small refl)

module _ (s : Stream) (n h : ℕ) (k : Kind) (u : Stream) where
  pub kept-HeadOf :
      s.kind ≡ none
      → 0 < h + n
      → Room s (h + n)
      → read_kind (record s { kinderr = none }) ≡ (u, (k, n, none))
      → Ate h s u
      → HeadOf k n h s (record u { kind = some k; size = n; kinderr = none })
  kept-HeadOf fresh some_room room run ate =
      let later = Room-Ate s u u h n room ate in
      record {
        run =
            next_kind_read s u k n fresh (room_at_end s.stack (h + n) some_room room.fits) run
              (room_too_large u.stack u n later.fits later.allowed);
        ate = record { input = ate.input; limit = ate.limit; left = ate.left; stack = ate.stack };
        kept = refl;
        sized = refl;
        fine = refl;
      }

  pub read_kind-HeadOf :
      s.kind ≡ none
      → 0 < h + n
      → Room s (h + n)
      → read_kind (record s { kinderr = none }) ≡ (u, (k, n, none))
      → Ate h s u
      → (t : Stream) × HeadOf k n h s t
  read_kind-HeadOf fresh some_room room run ate = (
    record u { kind = some k; size = n; kinderr = none },
    kept-HeadOf fresh some_room room run ate,
  )
