-- ===== src/State/Search.antt =====
-- core/state/statedb.go, RevertToSnapshot: the binary search for a revision.
use advance_golang.Base.{
  ℕ, zero, suc, ◌+◌, ◌/◌, ◌≤◌, ◌<◌, ◌≡◌, refl, Bool, true, false, some, arith,
}
use advance_golang.Base.{
  List, [], ◌∷◌, ◌++◌, length, get_elem?, All, length-append, Bool-cases, inl, inr,
}
use advance_golang.State.Db.{Revision}
use advance_golang.State.Revert.{search_loop, sort_search, reached}

-- The search finds the index at which the test turns from false to true.
search_loop_at :
    (rounds : ℕ) (f : ℕ → Bool) (i j k : ℕ)
    → i ≤ k
    → k ≤ j
    → j ≤ i + rounds
    → ((x : ℕ) → x < k → f x ≡ false)
    → ((x : ℕ) → k ≤ x → x < j → f x ≡ true)
    → search_loop rounds f i j ≡ k
unfolding search_loop
search_loop_at zero f i j k lo hi enough below above = omega arith
search_loop_at (suc rounds) f i j k lo hi enough below above = elim (Bool-cases (f ((i + j) / 2))) [
  | inl high ↦
      ground (arith, below ((i + j) / 2), search_loop_at rounds f i ((i + j) / 2) k lo, above)
  | inr low ↦
      ground (arith, above ((i + j) / 2), search_loop_at rounds f ((i + j) / 2 + 1) j k, below)
]

pub sort_search_at :
    (n : ℕ) (f : ℕ → Bool) (k : ℕ)
    → k ≤ n
    → ((x : ℕ) → x < k → f x ≡ false)
    → ((x : ℕ) → k ≤ x → x < n → f x ≡ true)
    → sort_search n f ≡ k
unfolding sort_search
sort_search_at n f k h below above =
    search_loop_at n f 0 n k (omega arith) h (omega arith) below above

reached_below :
    (rs qs : List Revision) (revid x : ℕ)
    → All (λ r. r.id < revid) rs
    → x < length rs
    → reached (rs ++ qs) revid x ≡ false
reached_below [] qs revid x h lt = absurd (omega arith)
reached_below (r ∷ rs) qs revid zero h lt = ground (arith, h.0)
reached_below (r ∷ rs) qs revid (suc x) h lt = reached_below rs qs revid x h.1 (omega arith)

reached_above :
    (rs qs : List Revision) (revid x : ℕ)
    → All (λ r. revid ≤ r.id) qs
    → length rs ≤ x
    → x < length rs + length qs
    → reached (rs ++ qs) revid x ≡ true
reached_above [] [] revid x h le lt = absurd (omega arith)
reached_above [] (q ∷ qs) revid zero h le lt = ground (arith, h.0)
reached_above [] (q ∷ qs) revid (suc x) h le lt =
    reached_above [] qs revid x h.1 (omega arith) (omega arith)
reached_above (r ∷ rs) qs revid zero h le lt = absurd (omega arith)
reached_above (r ∷ rs) qs revid (suc x) h le lt =
    reached_above rs qs revid x h (omega arith) (omega arith)

-- Older revisions before, the one with the id or a later one first among the others.
pub search_revision :
    (rs qs : List Revision) (revid : ℕ)
    → All (λ r. r.id < revid) rs
    → All (λ r. revid ≤ r.id) qs
    → sort_search (length (rs ++ qs)) (reached (rs ++ qs) revid) ≡ length rs
search_revision rs qs revid old new =
    sort_search_at (length (rs ++ qs)) (reached (rs ++ qs) revid) (length rs)
      (omega (arith, length-append rs qs)) (λ x lt. reached_below rs qs revid x old lt)
      (λ x le lt. reached_above rs qs revid x new le (omega (arith, length-append rs qs)))

pub get_elem?-append :
    (rs qs : List Revision) (r : Revision) → get_elem? (rs ++ (r ∷ qs)) (length rs) ≡ some r
get_elem?-append [] qs r = refl
get_elem?-append (x ∷ rs) qs r = get_elem?-append rs qs r
