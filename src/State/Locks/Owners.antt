-- ===== src/State/Locks/Owners.antt =====
-- core/state/multi_statedb.go: which transaction holds the mutex of an account, as an invariant of
-- the steps.
use advance_golang.Base.{
  Bool, true, false, ◌&&◌, ◌||◌, not, Option, some, ◌≡◌, ◌≢◌, refl, sym, ap, ◌∙◌, arith,
}
use advance_golang.Base.{if◌then◌else◌, List, [], ◌∷◌, ◌++◌, Bool-cases, inl, inr}
use advance_golang.Base.Maps.{Bytes, bytes_eq, bytes_eq_iff, lookup}
use advance_golang.Types.{zero_hash}
use advance_golang.State.Locks.{
  locked_by, queue_of, contains, Phase, running, waiting, taken, releasing, finished, System,
}

unfoldable pub drop_last : List Bytes → List Bytes
drop_last [] = []
drop_last (a ∷ []) = []
drop_last (a ∷ b ∷ q) = a ∷ drop_last (b ∷ q)

pub drop_last-append : (q : List Bytes) (a : Bytes) → drop_last (q ++ (a ∷ [])) ≡ q
unfolding drop_last
drop_last-append [] a = refl
drop_last-append (b ∷ []) a = refl
drop_last-append (b ∷ c ∷ q) a = ap (◌∷◌ b) (drop_last-append (c ∷ q) a)

unfoldable pub distinct : List Bytes → Bool
distinct [] = true
distinct (a ∷ q) = not (contains a q) && distinct q

pub contains-append :
    (a b : Bytes) (q : List Bytes) → contains a (q ++ (b ∷ [])) ≡ (contains a q || bytes_eq b a)
unfolding contains
contains-append a b [] = ground arith
contains-append a b (c ∷ q) = ground (arith, contains-append a b q)

pub distinct-append :
    (b : Bytes) (q : List Bytes) → distinct (q ++ (b ∷ [])) ≡ (distinct q && not (contains b q))
unfolding distinct contains
distinct-append b [] = refl
distinct-append b (c ∷ q) =
    ground (arith, distinct-append b q, contains-append c b q, bytes_eq_iff b c, bytes_eq_iff c b)

-- The accounts whose mutexes a transaction holds: its queue, save the account that it waits for.
unfoldable pub holds : Phase → List Bytes → List Bytes
holds running q = q
holds (waiting a) q = drop_last q
holds (taken a) q = q
holds (releasing rest) q = rest
holds finished q = []

abbrev pub held : System → Bytes → List Bytes
held s h = holds (s.phase h) (queue_of s.ctx h)

unfoldable pub is_live : Phase → Bool
is_live running = true
is_live (waiting a) = true
is_live (taken a) = true
is_live (releasing rest) = false
is_live finished = false

pub record IsSound (s : System) : Type 0 where
  pub owned :
      (h a : Bytes) → contains a (held s h) ≡ true → lookup a s.ctx.account_lock ≡ some (some h)
  pub marked :
      (a : Bytes) (o : Option Bytes)
      → lookup a s.ctx.account_lock ≡ some o
      → locked_by s.ctx a ≢ zero_hash
  pub apart : (h : Bytes) → distinct (held s h) ≡ true
  pub quick :
      (h a : Bytes)
      → is_live (s.phase h) ≡ true
      → locked_by s.ctx a ≡ h
      → contains a (held s h) ≡ true
  pub nobody : s.phase zero_hash ≡ finished
  pub awaited :
      (h a : Bytes)
      → s.phase h ≡ waiting a
      → queue_of s.ctx h ≡ drop_last (queue_of s.ctx h) ++ (a ∷ [])
  pub got : (h a : Bytes) → s.phase h ≡ taken a → contains a (queue_of s.ctx h) ≡ true

-- One transaction moves: what it holds afterwards, and what the others keep.
pub record Moves (s t : System) (h : Bytes) (p : Phase) (q : List Bytes) : Type 0 where
  pub phases : (g : Bytes) → t.phase g ≡ (if bytes_eq h g then p else s.phase g)
  pub queues : (g : Bytes) → queue_of t.ctx g ≡ (if bytes_eq h g then q else queue_of s.ctx g)
  pub kept :
      (b g : Bytes)
      → bytes_eq h g ≡ false
      → lookup b s.ctx.account_lock ≡ some (some g)
      → lookup b t.ctx.account_lock ≡ some (some g)
  pub unmarked :
      (b g : Bytes) → bytes_eq h g ≡ false → locked_by t.ctx b ≡ g → locked_by s.ctx b ≡ g
  pub own :
      (b : Bytes) → contains b (holds p q) ≡ true → lookup b t.ctx.account_lock ≡ some (some h)
  pub valid :
      (b : Bytes) (o : Option Bytes)
      → lookup b t.ctx.account_lock ≡ some o
      → locked_by t.ctx b ≢ zero_hash
  pub single : distinct (holds p q) ≡ true
  pub direct :
      (b : Bytes) → is_live p ≡ true → locked_by t.ctx b ≡ h → contains b (holds p q) ≡ true
  pub real : bytes_eq h zero_hash ≡ false
  pub queued : (b : Bytes) → p ≡ waiting b → q ≡ drop_last q ++ (b ∷ [])
  pub reached : (b : Bytes) → p ≡ taken b → contains b q ≡ true

module _ (s t : System) (h : Bytes) (p : Phase) (q : List Bytes) (m : Moves s t h p q) where
  mine : (g : Bytes) → bytes_eq h g ≡ true → (t.phase g ≡ p) × (queue_of t.ctx g ≡ q)
  mine g same = (m.phases g ∙ rw same refl, m.queues g ∙ rw same refl)

  others :
      (g : Bytes)
      → bytes_eq h g ≡ false
      → (t.phase g ≡ s.phase g) × (queue_of t.ctx g ≡ queue_of s.ctx g)
  others g other = (m.phases g ∙ rw other refl, m.queues g ∙ rw other refl)

  held_mine : (g : Bytes) → bytes_eq h g ≡ true → held t g ≡ holds p q
  held_mine g same =
      ap (λ (x : Phase). holds x (queue_of t.ctx g)) (mine g same).0 ∙ ap (holds p) (mine g same).1

  held_others : (g : Bytes) → bytes_eq h g ≡ false → held t g ≡ held s g
  held_others g other =
      ap (λ (x : Phase). holds x (queue_of t.ctx g)) (others g other).0
      ∙ ap (holds (s.phase g)) (others g other).1

  pub Moves-IsSound : IsSound s → IsSound t
  Moves-IsSound sound = record {
    owned = λ g b inside. elim (Bool-cases (bytes_eq h g)) [
      | inl same ↦
          m.own b (ap (contains b) (sym (held_mine g same)) ∙ inside)
          ∙ ap (λ (x : Bytes). some (some x)) ((bytes_eq_iff h g).0 same)
      | inr other ↦
          m.kept b g other (sound.owned g b (ap (contains b) (sym (held_others g other)) ∙ inside))
    ];
    marked = m.valid;
    apart = λ g. elim (Bool-cases (bytes_eq h g)) [
      | inl same ↦ ap distinct (held_mine g same) ∙ m.single
      | inr other ↦ ap distinct (held_others g other) ∙ sound.apart g
    ];
    quick = λ g b live mark. elim (Bool-cases (bytes_eq h g)) [
      | inl same ↦
          ap (contains b) (held_mine g same)
          ∙ m.direct b (ap is_live (sym (mine g same).0) ∙ live)
              (mark ∙ sym ((bytes_eq_iff h g).0 same))
      | inr other ↦
          let live' : is_live (s.phase g) ≡ true = ap is_live (sym (others g other).0) ∙ live in
          ap (contains b) (held_others g other) ∙ sound.quick g b live' (m.unmarked b g other mark)
    ];
    nobody = (others zero_hash m.real).0 ∙ sound.nobody;
    awaited = λ g b at_phase. elim (Bool-cases (bytes_eq h g)) [
      | inl same ↦ rw (mine g same).1 (m.queued b (sym (mine g same).0 ∙ at_phase))
      | inr other ↦ rw (others g other).1 (sound.awaited g b (sym (others g other).0 ∙ at_phase))
    ];
    got = λ g b at_phase. elim (Bool-cases (bytes_eq h g)) [
      | inl same ↦ ap (contains b) (mine g same).1 ∙ m.reached b (sym (mine g same).0 ∙ at_phase)
      | inr other ↦
          ap (contains b) (others g other).1 ∙ sound.got g b (sym (others g other).0 ∙ at_phase)
    ];
  }
