-- ===== src/Rlp/Result.antt =====
-- The errors of package rlp (rlp/decode.go, rlp/encode.go) and Go's (value, error) results.
use advance_golang.Base.{◌≡◌, refl, ◌⊎◌, inl, inr}

pub data Error : Type 0 where
  unexpected_eof canon_size value_too_large expected_string expected_list negative_big_int : Error

-- A Go result whose error is nil is `ok`.
pub data Result {κ} (V : Type κ) : Type κ where
  err : (failure : Error) → Result V
  ok : (value : V) → Result V

pub Result-cases {κ} :
    {V : Type κ} (r : Result V) → ((v : V) × (r ≡ ok v)) ⊎ ((e : Error) × (r ≡ err e))
Result-cases (err e) = inr (e, refl)
Result-cases (ok v) = inl (v, refl)

-- `if err != nil { return err }`
infixl 5 ◌>>=◌
abbrev pub ◌>>=◌ {κ ℓ} : {V : Type κ} {W : Type ℓ} → Result V → (V → Result W) → Result W
err e >>= next = err e
ok v >>= next = next v

-- What a chain of two calls returns, both of them returned.
pub >>=-eq-ok {κ ℓ} :
    {V : Type κ} {W : Type ℓ} (call : Result V) (next : V → Result W) {w : W}
    → (call >>= next) ≡ ok w
    → (v : V) × (call ≡ ok v) × (next v ≡ ok w)
>>=-eq-ok (err e) next fails = cc
>>=-eq-ok (ok v) next returns = (v, refl, returns)
