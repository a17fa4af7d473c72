-- ===== src/State/Codec/Accounts.antt =====
-- core/state: an account through updateStateObject into the trie and back through getStateObject.
use advance_golang.Base.{
  ℕ, ◌/◌, ◌^◌, ◌≤◌, ◌<◌, ◌≡◌, ◌≢◌, refl, sym, ap, ◌∙◌, true, false, Option, none, some, arith,
}
use advance_golang.Base.{◌==◌, [], ◌∷◌, length, Option-cases, inl, inr}
use advance_golang.Base.Int.{pos, negsuc}
use advance_golang.Base.Maps.{Bytes, lookup}
use advance_golang.Rlp.Head.{putint, length-putint}
use advance_golang.Rlp.Encode.{
  non_negative, text, uint, big, sequence, nil, cons, write_value, write_big_int, encode_to_bytes,
}
use advance_golang.Rlp.Encode.Spec.{encoding, payload, has_negative, is_negative, Fits}
use advance_golang.Rlp.Encode.Refine.{encode_to_bytes-encoding}
use advance_golang.Rlp.Encode.RoundTrip.{encoding_nonempty}
use advance_golang.Rlp.Stream.Typed.{
  Typed, typed_struct, next_field, fields_end, typed_uint, typed_big, typed_byte_array, typed_text,
}
use advance_golang.Rlp.Stream.{done}
use advance_golang.Rlp.Stream.RoundTrip.{encode_to_bytes-Typed, decode_bytes-encoding}
use advance_golang.State.Object.{StateObject, new_object}
use advance_golang.State.Db.{StateDb, new_state, set_error, load_object, get_state_object}
use advance_golang.State.Commit.{update_state_object}
use mathlib.Core.Option
use advance_golang.State.Backend.{DbError, Account, RawAccount, Backend}
use advance_golang.State.Codec.{
  digits, encoded, account_fields, account_shape, encode_account, account_of, decode_account,
  with_codec,
}
use advance_golang.State.Codec.Digits.{big_endian-digits, digits_canonical}
use advance_golang.Types.{hash_length}

-- An account that Go's types can hold, with a balance that is not negative. Its encoding has a
-- length that is a uint64.
pub record IsStorable (a : Account) : Type 0 where
  pub amount : ℕ
  pub not_negative : a.balance ≡ pos amount
  pub nonce_uint64 : a.nonce < 2 ^ 64
  pub root_hash : length a.root ≡ hash_length
  pub code_uint64 : length a.code_hash < 2 ^ 64
  pub digits_uint64 : length (digits amount) < 2 ^ 64
  pub payload_uint64 : length (payload (account_fields a)) < 2 ^ 64

putint_uint64 : (i : ℕ) → i < 2 ^ 64 → length (putint i) ≤ 64 / 8
putint_uint64 i h = omega (arith, length-putint i)

not_zero_byte : (b : Bytes) → length b ≡ hash_length → b ≢ 0 ∷ []
not_zero_byte b h e = omega (arith, sym h ∙ ap length e)

account_fields-Typed :
    (a : Account) → IsStorable a → Typed account_shape (sequence (account_fields a))
unfolding account_fields
account_fields-Typed a s =
    typed_struct _ (account_fields a)
      (next_field _ _ _ _
        (typed_uint 64 a.nonce s.nonce_uint64 (putint_uint64 a.nonce s.nonce_uint64))
        (next_field _ _ _ _
          (rw s.not_negative
            (typed_big (digits s.amount) s.digits_uint64 (digits_canonical s.amount)))
          (next_field _ _ _ _
            (typed_byte_array hash_length a.root s.root_hash (rw s.root_hash (omega arith))
              (not_zero_byte a.root s.root_hash))
            (next_field _ _ _ _ (typed_text a.code_hash s.code_uint64) fields_end))))
      s.payload_uint64

-- `Account` as the decoder fills it.
abbrev pub loaded : Account → RawAccount
loaded a = record {
  nonce = a.nonce;
  balance = some a.balance;
  root = a.root;
  code_hash = some a.code_hash;
}

account_of-fields :
    (a : Account) → IsStorable a → account_of (done (sequence (account_fields a))) ≡ some (loaded a)
unfolding account_of account_fields
account_of-fields a s = rw s.not_negative (rw (big_endian-digits s.amount) refl)

-- An account that EncodeToBytes has written is decoded to the same account, and its encoding is not
-- empty; given that the account is one that Go's types can hold, with no negative balance.
pub decode_account-encode_account :
    (a : Account)
    → IsStorable a
    → (enc : Bytes) × (encode_account a ≡ some enc)
      × (1 ≤ length enc)
      × (decode_account enc ≡ some (loaded a))
unfolding encode_account decode_account encoded
decode_account-encode_account a s =
    let v = sequence (account_fields a) in
    let typed = account_fields-Typed a s in
    (
      encoding v,
      ap encoded (encode_to_bytes-Typed account_shape v typed),
      encoding_nonempty v s.payload_uint64,
      ap account_of (decode_bytes-encoding account_shape v typed) ∙ account_of-fields a s,
    )

sequence-encoded :
    (nonce : ℕ) (b root code_hash : Bytes)
    → (enc : Bytes) × (encoded (
          encode_to_bytes (
            sequence (
              cons
                (uint nonce)
                (cons (big (non_negative b)) (cons (text root) (cons (text code_hash) nil))))))
        ≡ some enc)
unfolding encode_to_bytes write_value write_big_int encoded
sequence-encoded nonce [] root code_hash = (_, refl)
sequence-encoded nonce (x ∷ b) root code_hash = (_, refl)

-- The balance is not negative.
abbrev pub IsCredit : Account → Type 0
IsCredit a = (n : ℕ) × (a.balance ≡ pos n)

-- Whatever else an account holds, it is encoded where its balance is not negative.
pub encode_account-IsCredit :
    (a : Account) → IsCredit a → (enc : Bytes) × (encode_account a ≡ some enc)
unfolding encode_account account_fields
encode_account-IsCredit a (n, credit) =
    rw credit (sequence-encoded a.nonce (digits n) a.root a.code_hash)

-- An account with a negative balance has no encoding; given that the rest of its encoding has a
-- length that is a uint64.
pub encode_account-negative :
    (a : Account) (n : ℕ)
    → a.balance ≡ negsuc n
    → length (payload (account_fields a)) < 2 ^ 64
    → encode_account a ≡ none
unfolding encode_account encoded account_fields has_negative is_negative
encode_account-negative a n below h =
    let v = sequence (account_fields a) in
    let fit : Fits v = (h, (tt, (tt, (tt, (tt, tt))))) in
    let bad : has_negative v ≡ true = rw below refl in
    ap encoded (encode_to_bytes-encoding v fit) ∙ rw bad refl

-- What stands in the trie for an object: its address and its account.
abbrev pub stored : {T : Type 0} → StateObject T → Bytes × Account
stored o = (o.address, o.account)

module _ (B : Backend) where
  open B use {Trie, try_get, try_update}

  trie-set_error : (s : StateDb Trie) (e : Option DbError) → (set_error s e).trie ≡ s.trie
  unfolding set_error
  trie-set_error s e = elim (Option-cases s.db_err) [
    | inl free ↦ rw free refl
    | inr (f, kept) ↦ rw kept refl
  ]

  update_state_object-encoded :
      (s : StateDb Trie) (o : StateObject Trie) (enc : Bytes)
      → B.encode_account o.account ≡ some enc
      → (s1 : StateDb Trie) × (update_state_object B s o ≡ some s1)
        × (s1.trie ≡ (try_update s.trie o.address enc).0)
  unfolding update_state_object
  update_state_object-encoded s o enc written =
      let (t, e) = try_update s.trie o.address enc in
      (
        set_error (record s { trie = t }) e,
        rw (written, update_state_object) refl,
        trie-set_error (record s { trie = t }) e,
      )

  get_state_object-decoded :
      (t : Trie) (addr enc : Bytes) (raw : RawAccount)
      → try_get t addr ≡ (enc, none)
      → 1 ≤ length enc
      → B.decode_account enc ≡ some raw
      → (get_state_object B (new_state t) addr).1 ≡ some (new_object B addr raw)
  unfolding get_state_object load_object lookup
  get_state_object-decoded t addr enc raw here full read =
      let some_bytes : (length enc == 0) ≡ false = ground arith in
      rw (here, some_bytes, read, get_state_object, load_object) refl

module _ (B : Backend) where
  open B use {Trie, try_get, try_update}

  -- What updateStateObject writes for an object into the trie, getStateObject loads in a StateDB on
  -- that trie: the same account, at the same address. Given that the account is one that Go's types
  -- can hold, with no negative balance, and that the trie returns what was put under a key.
  pub get_state_object-update_state_object :
      (s : StateDb Trie) (o : StateObject Trie)
      → IsStorable o.account
      → ((t : Trie) (key value : Bytes) → try_get (try_update t key value).0 key ≡ (value, none))
      → (s1 : StateDb Trie) × (update_state_object (with_codec B) s o ≡ some s1)
        × (Option.map stored (get_state_object (with_codec B) (new_state s1.trie) o.address).1
            ≡ some (stored o))
  unfolding new_object
  get_state_object-update_state_object s o storable law =
      let (enc, written, full, read) = decode_account-encode_account o.account storable in
      let (s1, run, trie) = update_state_object-encoded (with_codec B) s o enc written in
      let here : try_get s1.trie o.address ≡ (enc, none) =
        ap (λ (u : Trie). try_get u o.address) trie ∙ law s.trie o.address enc in
      (
        s1,
        run,
        ap (Option.map stored) (
            get_state_object-decoded (with_codec B) s1.trie o.address enc (loaded o.account) here
              full read),
      )
