-- ===== src/State/Codec/Runs.antt =====
-- The theorems on the codec of accounts at a concrete account.
use advance_golang.Base.{
  true, ◌≡◌, refl, none, some, arith, ◌<◌, ◌^◌, List, [], ◌∷◌, length, replicate,
}
use advance_golang.Base.Int.{pos, negsuc}
use advance_golang.Base.Maps.{Bytes, lookup-insert_self}
use advance_golang.Rlp.Head.{putint, puthead}
use advance_golang.Rlp.Encode.Spec.{encoding, payload, string_encoding, uint_encoding, big_encoding}
use advance_golang.State.Backend.{Account}
use advance_golang.State.Object.{StateObject, new_object}
use advance_golang.State.Db.{StateDb, new_state, get_state_object}
use advance_golang.State.Commit.{update_state_object}
use advance_golang.State.Codec.{digits_loop, digits, account_fields, with_codec}
use advance_golang.State.Codec.Accounts.{
  IsStorable, loaded, stored, get_state_object-update_state_object,
}
use advance_golang.State.Samples.{in_memory, genesis}
use mathlib.Core.Option

abbrev rich : Account
rich = record { nonce = 7; balance = pos 1000; root = replicate 32 5; code_hash = replicate 32 6 }

rich-IsStorable : IsStorable rich
unfolding digits digits_loop account_fields payload encoding string_encoding uint_encoding
    big_encoding puthead putint
rich-IsStorable = record {
  amount = 1000;
  not_negative = refl;
  nonce_uint64 = omega arith;
  root_hash = refl;
  code_uint64 = omega arith;
  digits_uint64 = omega arith;
  payload_uint64 = omega arith;
}

abbrev in_debt : Account
in_debt = record rich { balance = negsuc 4 }

in_debt-payload : length (payload (account_fields in_debt)) < 2 ^ 64
unfolding digits digits_loop account_fields payload encoding string_encoding uint_encoding
    big_encoding puthead putint
in_debt-payload = omega arith

abbrev owner : StateObject (List (Bytes × Bytes))
owner = record (new_object in_memory (9 ∷ []) (loaded rich)) { dirty_code = true }

owner-IsStorable : IsStorable owner.account
unfolding new_object
owner-IsStorable = rich-IsStorable

in_memory_law :
    (t : List (Bytes × Bytes)) (key value : Bytes)
    → in_memory.try_get (in_memory.try_update t key value).0 key ≡ (value, none)
in_memory_law t key value = rw (lookup-insert_self key value t) refl

get_state_object-update_state_object_example :
    (s1 : StateDb (List (Bytes × Bytes))) × (update_state_object
        (with_codec in_memory)
        genesis
        owner
      ≡ some s1)
    × (Option.map stored
          (get_state_object (with_codec in_memory) (new_state s1.trie) owner.address).1
        ≡ some (stored owner))
get_state_object-update_state_object_example =
    get_state_object-update_state_object in_memory genesis owner owner-IsStorable in_memory_law
