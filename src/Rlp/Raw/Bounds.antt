-- ===== src/Rlp/Raw/Bounds.antt =====
-- The sizes that `readKind` reports, on any input.
use advance_golang.Base.{ℕ, zero, suc, ◌+◌, ◌-◌, ◌≤◌, ◌≡◌, ◌≢◌, refl, ap, ◌∙◌, arith}
use advance_golang.Base.{none, inl, inr}
use advance_golang.Base.{
  [], ◌∷◌, ◌++◌, length, take, drop, length-take, length-drop, take-append-drop,
}
use advance_golang.Base.Maps.{Bytes}
use advance_golang.Rlp.Result.{ok, >>=-eq-ok, Result-cases}
use advance_golang.Rlp.Raw.{
  Kind, read_size, tag_of, check_content, read_kind, split, count_values_loop, count_values,
}
use native.Mathlib.Nat.{suc-add}

read_size_bounds :
    (b : Bytes) (slen : ℕ) {s : ℕ} → read_size b slen ≡ ok s → (slen ≤ length b) × (56 ≤ s)
unfolding read_size
read_size_bounds b slen h = ground arith

tag_of_bounds :
    (b : ℕ) (more : Bytes) (k : Kind) (ts cs : ℕ)
    → tag_of b more ≡ ok (k, ts, cs)
    → (1 ≤ ts + cs) × (ts ≤ suc (length more))
unfolding tag_of
tag_of_bounds b more k ts cs h =
    ground (arith, read_size_bounds more (b - 0xB7), read_size_bounds more (b - 0xF7))

-- A tag that `readKind` accepts lies in the input with its content, and takes a byte at least.
pub read_kind_bounds :
    (b : Bytes) (k : Kind) (ts cs : ℕ)
    → read_kind b ≡ ok (k, ts, cs)
    → (1 ≤ ts + cs) × (ts + cs ≤ length b)
unfolding read_kind check_content
read_kind_bounds [] k ts cs h = cc
read_kind_bounds (x ∷ more) k ts cs h =
    let (head, read, checked) = >>=-eq-ok (tag_of x more) _ h in
    ground (arith, tag_of_bounds x more head.0 head.1 head.2)

drop_nil : (n : ℕ) → [] ≡ drop {A = ℕ} n []
drop_nil zero = refl
drop_nil (suc n) = refl

pub drop-drop : (m n : ℕ) (b : Bytes) → drop (m + n) b ≡ drop n (drop m b)
drop-drop zero n b = ap (λ (k : ℕ). drop k b) (omega arith)
drop-drop (suc m) n [] = rw suc-add (drop_nil n)
drop-drop (suc m) n (x ∷ b) = rw suc-add (drop-drop m n b)

-- Split returns only where readKind accepts the tag, and both slices that it takes then lie within
-- the input: the tag's size and the content's size together are at most the input's length, and at
-- least one. The content has the size that readKind reports and the rest is what is left over, and
-- the tag, the content and the rest make up the input.
pub split_parts :
    (b : Bytes) (k : Kind) (content rest : Bytes)
    → split b ≡ ok (k, content, rest)
    → (tagsize : ℕ) × (contentsize : ℕ) × (read_kind b ≡ ok (k, tagsize, contentsize))
      × (1 ≤ tagsize + contentsize)
      × (tagsize + contentsize ≤ length b)
      × (length content ≡ contentsize)
      × (length rest ≡ length b - (tagsize + contentsize))
      × (b ≡ take tagsize b ++ (content ++ rest))
unfolding split
split_parts b k content rest h =
    let ((k', ts, cs), read, cut) = >>=-eq-ok (read_kind b) _ h in
    let (progress, within) = read_kind_bounds b k' ts cs read in
    let kind_eq : k' ≡ k = cc in
    let content_eq : take cs (drop ts b) ≡ content = cc in
    let rest_eq : drop (ts + cs) b ≡ rest = cc in
    (
      ts,
      cs,
      read ∙ ap (λ (x : Kind). ok (x, ts, cs)) kind_eq,
      progress,
      within,
      rw (← content_eq) (length-take cs (drop ts b) (omega (arith, length-drop ts b))),
      rw (← rest_eq) (length-drop (ts + cs) b),
      rw (← content_eq, ← rest_eq, drop-drop ts cs b) (rw (take-append-drop, take-append-drop)),
    )

count_values_loop-ne-none :
    (fuel i : ℕ) (b : Bytes) → length b ≤ fuel → count_values_loop fuel i b ≢ none
unfolding count_values_loop
count_values_loop-ne-none fuel i [] h e = cc
count_values_loop-ne-none zero i (x ∷ b) h e = absurd (omega arith)
count_values_loop-ne-none (suc fuel) i (x ∷ b) h e = elim (Result-cases (read_kind (x ∷ b))) [
  | inl (head, read) ↦
      let (progress, within) = read_kind_bounds (x ∷ b) head.0 head.1 head.2 read in
      count_values_loop-ne-none fuel (i + 1) (drop (head.1 + head.2) (x ∷ b))
        (omega (arith, length-drop (head.1 + head.2) (x ∷ b))) (rw (read, count_values_loop) at e)
  | inr (z, failed) ↦ cc (rw (failed, count_values_loop) at e)
]

-- CountValues ends on every input.
pub count_values-ne-none : (b : Bytes) → count_values b ≢ none
unfolding count_values
count_values-ne-none b = count_values_loop-ne-none (length b) 0 b (omega arith)
