-- ===== src/Rlp/Encode/Pieces/Slices.antt =====
-- Parts of two byte strings after each other, as they are read in pieces.
use advance_golang.Base.{ℕ, zero, suc, ◌+◌, ◌-◌, ◌≤◌, ◌≡◌, refl, sym, ap, arith, none, some}
use advance_golang.Base.{List, [], ◌∷◌, ◌++◌, length, take, drop, get_elem?}
use native.Mathlib.Nat.{zero-add, suc-add, sub-zero}
use native.Mathlib.Numerals.{unary_clauses}

module _ {ℓ} {A : Type ℓ} where
  pub take-append-less : (n : ℕ) (xs ys : List A) → n ≤ length xs → take n (xs ++ ys) ≡ take n xs
  take-append-less zero xs ys le = refl
  take-append-less (suc n) [] ys le = absurd (omega arith)
  take-append-less (suc n) (x ∷ xs) ys le = ap (◌∷◌ x) (take-append-less n xs ys (omega arith))

  pub drop-append-less :
      (n : ℕ) (xs ys : List A) → n ≤ length xs → drop n (xs ++ ys) ≡ drop n xs ++ ys
  drop-append-less zero xs ys le = refl
  drop-append-less (suc n) [] ys le = absurd (omega arith)
  drop-append-less (suc n) (x ∷ xs) ys le = drop-append-less n xs ys (omega arith)

  pub take-append-more :
      (n : ℕ) (xs ys : List A) → length xs ≤ n → take n (xs ++ ys) ≡ xs ++ take (n - length xs) ys
  take-append-more n [] ys le = rw (sub-zero n)
  take-append-more zero (x ∷ xs) ys le = absurd (omega arith)
  take-append-more (suc n) (x ∷ xs) ys le =
      simp unary_clauses (ap (◌∷◌ x) (take-append-more n xs ys (omega arith)))

  pub drop-append-more :
      (n : ℕ) (xs ys : List A) → length xs ≤ n → drop n (xs ++ ys) ≡ drop (n - length xs) ys
  drop-append-more n [] ys le = rw (sub-zero n)
  drop-append-more zero (x ∷ xs) ys le = absurd (omega arith)
  drop-append-more (suc n) (x ∷ xs) ys le =
      simp unary_clauses (drop-append-more n xs ys (omega arith))

  pub drop-get_elem?-some :
      (xs : List A) (i : ℕ) (x : A) → get_elem? xs i ≡ some x → drop i xs ≡ x ∷ drop (suc i) xs
  drop-get_elem?-some [] i x found = absurd (cc)
  drop-get_elem?-some (y ∷ xs) zero x found = cc
  drop-get_elem?-some (y ∷ xs) (suc i) x found = drop-get_elem?-some xs i x found

  pub drop-get_elem?-none : (xs : List A) (i : ℕ) → get_elem? xs i ≡ none → drop i xs ≡ []
  drop-get_elem?-none [] zero missing = refl
  drop-get_elem?-none [] (suc i) missing = refl
  drop-get_elem?-none (y ∷ xs) zero missing = absurd (cc)
  drop-get_elem?-none (y ∷ xs) (suc i) missing = drop-get_elem?-none xs i missing

  pub drop-all : (n : ℕ) (xs : List A) → length xs ≤ n → drop n xs ≡ []
  drop-all zero [] le = refl
  drop-all zero (x ∷ xs) le = absurd (omega arith)
  drop-all (suc n) [] le = refl
  drop-all (suc n) (x ∷ xs) le = drop-all n xs (omega arith)

  take-nil : (n : ℕ) → take {A = A} n [] ≡ []
  take-nil zero = refl
  take-nil (suc n) = refl

  pub take-add : (m n : ℕ) (xs : List A) → take (m + n) xs ≡ take m xs ++ take n (drop m xs)
  take-add zero n xs = rw (zero-add n)
  take-add (suc m) n [] = rw suc-add (sym (take-nil n))
  take-add (suc m) n (x ∷ xs) = rw suc-add (ap (◌∷◌ x) (take-add m n xs))
