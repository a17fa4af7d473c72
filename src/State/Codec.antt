-- ===== src/State/Codec.antt =====
-- core/state/state_object.go: Account, as EncodeRLP and the RLP decoder of getStateObject see it: a
-- struct of a uint64, a big.Int, a hash and a byte slice. The codec of a Backend is made of it.
pub mod Digits
pub mod Accounts
mod Runs
use advance_golang.Base.{
  ℕ, zero, suc, ◌*◌, ◌/◌, ◌%◌, Option, none, some, if◌then◌else◌, ◌==◌, List, [], ◌∷◌, ◌++◌,
}
use advance_golang.Base.Int.{ℤ, pos, negsuc}
use advance_golang.Base.Maps.{Bytes}
use advance_golang.Rlp.Head.{big_endian}
use advance_golang.Rlp.Result.{Result, ok, err}
use advance_golang.Rlp.Encode.{
  BigInt, negative, non_negative, Value, text, uint, big, sequence, Values, nil, cons,
  encode_to_bytes,
}
use advance_golang.Rlp.Stream.{Outcome, fail, done, stuck}
use advance_golang.Rlp.Stream.Shapes.{
  Shape, big_shape, uint_shape, text_shape, byte_array_shape, struct_shape, no_fields, field,
  decode_bytes,
}
use advance_golang.State.Backend.{Account, RawAccount, Backend}
use advance_golang.Types.{hash_length}

-- `Bytes()` of a big.Int: the big-endian digits of its absolute value, and none for 0. Each round
-- divides by 256, so there are fewer rounds than the number.
unfoldable pub digits_loop : ℕ → ℕ → Bytes
digits_loop zero n = []
digits_loop (suc rounds) n = elim n [
  | zero ↦ []
  | suc m ↦ digits_loop rounds (suc m / 256) ++ (suc m % 256 ∷ [])
]

unfoldable pub digits : ℕ → Bytes
digits n = digits_loop n n

abbrev pub to_big_int : ℤ → BigInt
to_big_int (pos n) = non_negative (digits n)
to_big_int (negsuc n) = negative (digits (suc n))

unfoldable pub account_fields : Account → Values
account_fields a =
    cons (uint a.nonce)
      (cons (big (to_big_int a.balance)) (cons (text a.root) (cons (text a.code_hash) nil)))

abbrev pub account_shape : Shape
account_shape = struct_shape (
    field (uint_shape 64)
      (field big_shape (field (byte_array_shape hash_length) (field text_shape no_fields))))

unfoldable pub encoded : Result Bytes → Option Bytes
encoded (err e) = none
encoded (ok b) = some b

-- `EncodeRLP` and EncodeToBytes
unfoldable pub encode_account : Account → Option Bytes
encode_account a = encoded (encode_to_bytes (sequence (account_fields a)))

-- The fields that the decoder sets. A decoded big.Int and a decoded slice are not nil.
unfoldable pub account_of : Outcome Value → Option RawAccount
account_of
      (done (
        sequence (
          cons
            (uint nonce)
            (cons (big (non_negative b)) (cons (text root) (cons (text code_hash) nil)))))) =
    some (record {
      nonce = nonce;
      balance = some (pos (big_endian b));
      root = root;
      code_hash = some code_hash;
    })
account_of _ = none

-- DecodeBytes into an Account.
unfoldable pub decode_account : Bytes → Option RawAccount
decode_account enc = account_of (decode_bytes account_shape enc)

-- A Backend with this codec.
abbrev pub with_codec : Backend → Backend
with_codec B = record B { decode_account = decode_account; encode_account = encode_account }
