-- ===== src/Rlp/Fields/Tail.antt =====
-- rlp/typecache.go: lastPublicField finds a field after which no field is exported.
use advance_golang.Base.{
  ℕ, zero, suc, ◌-◌, ◌≤◌, ◌≡◌, refl, sym, ap, ◌⊎◌, inl, inr, false, Bool-cases, leb, if◌then◌else◌,
  List, [], ◌∷◌, All, drop, arith,
}
use advance_golang.Rlp.Fields.{StructField, last_public_from}
use mathlib.Core.Path.{subst}

pub All-map {ℓ κ μ} :
    {A : Type ℓ} {P : A → Type κ} {Q : A → Type μ}
    → ((a : A) → P a → Q a)
    → (xs : List A) → All P xs
    → All Q xs
All-map f [] h = tt
All-map f (x ∷ xs) h = (f x h.0, All-map f xs h.1)

-- No field of these is exported.
abbrev pub NoneExported : List StructField → Type 0
NoneExported fs = All (λ (f : StructField). f.exported ≡ false) fs

last_public_from-le :
    (last i : ℕ) (fs : List StructField) → last ≤ i → last ≤ last_public_from last i fs
unfolding last_public_from
last_public_from-le last i [] h = omega arith
last_public_from-le last i (f ∷ fs) h = elim (Bool-cases f.exported) [
  | inl e ↦ rw (e, last_public_from) (omega (arith, last_public_from-le i (suc i) fs (omega arith)))
  | inr e ↦ rw (e, last_public_from) (last_public_from-le last (suc i) fs (omega arith))
]

drop_nil : (n : ℕ) → drop {A = StructField} n [] ≡ []
drop_nil zero = refl
drop_nil (suc n) = refl

drop-NoneExported :
    (p i : ℕ) (f : StructField) (fs : List StructField)
    → (i ≤ p) ⊎ (f.exported ≡ false)
    → NoneExported (drop (suc p - suc i) fs)
    → NoneExported (drop (suc p - i) (f ∷ fs))
drop-NoneExported p i f fs case h = elim (Bool-cases (leb i p)) [
  | inl le ↦
      let next : suc p - i ≡ suc (suc p - suc i) = ground arith in
      subst (λ n. NoneExported (drop n (f ∷ fs))) (sym next) h
  | inr gt ↦
      let none_left : suc p - i ≡ 0 = ground arith in
      let none_after : suc p - suc i ≡ 0 = ground arith in
      let hidden : f.exported ≡ false = elim case [ inl le ↦ absurd (ground arith) | inr e ↦ e ] in
      subst (λ n. NoneExported (drop n (f ∷ fs))) (sym none_left)
        (hidden, subst (λ n. NoneExported (drop n fs)) none_after h)
]

-- After the field that the loop of lastPublicField finds there is no other.
pub last_public_from-NoneExported :
    (last i : ℕ) (fs : List StructField)
    → last ≤ i
    → NoneExported (drop (suc (last_public_from last i fs) - i) fs)
unfolding last_public_from
last_public_from-NoneExported last i [] h = rw drop_nil tt
last_public_from-NoneExported last i (f ∷ fs) h =
    let from : ℕ → Type 0 =
      λ l. NoneExported (drop (suc (last_public_from l (suc i) fs) - i) (f ∷ fs)) in
    elim (Bool-cases f.exported) [
      | inl e ↦ subst from (sym (ap (λ b. if b then i else last) e)) (
          drop-NoneExported _ i f fs (inl (last_public_from-le i (suc i) fs (omega arith)))
            (last_public_from-NoneExported i (suc i) fs (omega arith)))
      | inr e ↦ subst from (sym (ap (λ b. if b then i else last) e)) (
          drop-NoneExported _ i f fs (inr e)
            (last_public_from-NoneExported last (suc i) fs (omega arith)))
    ]
