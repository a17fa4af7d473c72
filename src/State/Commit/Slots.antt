-- ===== src/State/Commit/Slots.antt =====
-- core/state/state_object.go: what updateTrie writes for a slot, and what GetState reads back.
use advance_golang.Base.{ℕ, suc, ◌-◌, ◌≤◌, ◌<◌, ◌^◌, ◌≡◌, refl, sym, ap, ◌∙◌, true, false, arith}
use advance_golang.Base.{
  ltb, ◌==◌, [], ◌∷◌, ◌++◌, length, replicate, take-replicate, append-nil, Bool-cases, inl, inr,
}
use advance_golang.Base.Maps.{Bytes}
use advance_golang.Rlp.Encode.{text}
use advance_golang.Rlp.Encode.Refine.{encode_to_bytes-encoding}
use advance_golang.Rlp.Encode.RoundTrip.{kind_of, content_of, split-encoding, encoding_nonempty}
use advance_golang.Rlp.Encode.Spec.{encoding, has_negative}
use advance_golang.Rlp.Raw.{split}
use advance_golang.Rlp.Result.{ok}
use advance_golang.State.Backend.{Backend}
use advance_golang.State.Commit.{trim_left, encode_slot}
use advance_golang.State.Object.{StateObject, decode_slot}
use advance_golang.Types.{set_bytes, zero_hash, hash_length}

length-trim_left : (b : Bytes) → length (trim_left b) ≤ length b
unfolding trim_left
length-trim_left [] = omega arith
length-trim_left (x ∷ b) = ground (arith, length-trim_left b)

-- What was trimmed are zeros.
pad-trim_left : (b : Bytes) → replicate (length b - length (trim_left b)) 0 ++ trim_left b ≡ b
unfolding trim_left
pad-trim_left [] = refl
pad-trim_left (x ∷ b) = elim (Bool-cases (x == 0)) [
  | inl zeros ↦
      let x_zero : x ≡ 0 = ground arith in
      let count : length (x ∷ b) - length (trim_left b) ≡ suc (length b - length (trim_left b)) =
        omega (arith, length-trim_left b) in
      rw zeros (
        ap (λ (n : ℕ). replicate n 0 ++ trim_left b) count
        ∙ ap (◌∷◌ 0) (pad-trim_left b)
        ∙ ap (λ (y : ℕ). y ∷ b) (sym x_zero))
  | inr other ↦
      let count : length (x ∷ b) - length (x ∷ b) ≡ 0 = omega arith in
      rw other (ap (λ (n : ℕ). replicate n 0 ++ (x ∷ b)) count)
]

set_bytes-trim_left : (b : Bytes) → length b ≡ hash_length → set_bytes zero_hash (trim_left b) ≡ b
unfolding set_bytes
set_bytes-trim_left b full =
    let n = length (trim_left b) in
    let short : ltb hash_length n ≡ false = ground (arith, length-trim_left b) in
    let le : hash_length - n ≤ hash_length = omega arith in
    rw (short, set_bytes)
      (ap (λ (h : Bytes). h ++ trim_left b) (take-replicate (hash_length - n) hash_length 0 le)
        ∙ ap (λ (m : ℕ). replicate (m - n) 0 ++ trim_left b) (sym full)
        ∙ pad-trim_left b)

encode_slot-encoding : (b : Bytes) → encode_slot b ≡ encoding (text (trim_left b))
unfolding encode_slot has_negative
encode_slot-encoding b = rw (encode_to_bytes-encoding (text (trim_left b)) tt, encode_slot)

module _ (B : Backend) where
  open B use {Trie}

  -- A slot's value is decoded as it was encoded, leading zeros included.
  pub decode_slot-encode_slot :
      (o : StateObject Trie) (value : Bytes)
      → length value ≡ hash_length
      → decode_slot B o (encode_slot value) ≡ (o, value)
  unfolding decode_slot
  decode_slot-encode_slot o value full =
      let v = text (trim_left value) in
      let fits : length (trim_left value) < 2 ^ 64 = omega (arith, length-trim_left value) in
      let cut : split (encoding v) ≡ ok (kind_of v, content_of v, []) =
        rw (append-nil (encoding v)) at (split-encoding v [] fits) in
      let long : ltb 0 (length (encoding v)) ≡ true = ground (arith, encoding_nonempty v fits) in
      rw (encode_slot-encoding value, decode_slot)
        (rw long (
          rw cut
            (unfold content_of in ap (λ (h : Bytes). (o, h)) (set_bytes-trim_left value full))))
