-- ===== src/State/Worlds.antt =====
-- What the operations of the StateDB promise, on the view alone: no caches, no journal, no loading.
use advance_golang.Base.{◌+◌, ◌%◌, ◌^◌, true, false, none, some}
use advance_golang.Base.{[]}
use advance_golang.Base.Int.{pos, ◌+ℤ◌, ◌-ℤ◌}
use advance_golang.Base.Maps.{Bytes}
use advance_golang.State.Backend.{Backend}
use advance_golang.State.Db.{code_bytes}
use advance_golang.State.Transactions.{
  Op, adding_balance, subtracting_balance, setting_balance, setting_nonce, setting_code,
  setting_state, setting_pdx_state, creating_account, suiciding, adding_refund, adding_preimage,
  preparing, asking_exist, asking_empty, getting_balance, getting_nonce, getting_code_hash,
  asking_suicided, getting_code, getting_state, getting_pdx_state,
}
use advance_golang.State.Undo.{with_account, recode}
use advance_golang.State.View.{View, World, update, trie_value, slot_value, pdx_value}
use advance_golang.Types.{zero_hash}
use mathlib.Core.Option

module _ (B : Backend) where
  open B use {keccak256}

  -- An account without a history.
  abbrev pub blank : Bytes → View
  blank a = record {
    address = a;
    addr_hash = keccak256 a;
    nonce = 0;
    balance = pos 0;
    root = zero_hash;
    code_hash = keccak256 [];
    code = none;
    suicided = false;
    storage = slot_value B (trie_value B (keccak256 a) zero_hash none);
    pdx_storage = pdx_value B [] (trie_value B (keccak256 a) zero_hash none);
  }

  -- A setter creates the account where there is none.
  abbrev pub revise : World → Bytes → (View → View) → World
  revise w a f = with_account B w a (some (f (Option.get_or (w.accounts a) (blank a))))

  unfoldable pub promise : Op → World → World
  promise (adding_balance a amount) w = revise w a (λ v. record v { balance = v.balance +ℤ amount })
  promise (subtracting_balance a amount) w =
      revise w a (λ v. record v { balance = v.balance -ℤ amount })
  promise (setting_balance a amount) w = revise w a (λ v. record v { balance = amount })
  promise (setting_nonce a nonce) w = revise w a (λ v. record v { nonce = nonce })
  promise (setting_code a code) w = revise w a (recode B code (keccak256 (code_bytes B code)))
  promise (setting_state a key value) w =
      revise w a (λ v. record v { storage = update v.storage key value })
  promise (setting_pdx_state a key value) w =
      revise w a (λ v. record v { pdx_storage = update v.pdx_storage key value })
  -- The balance is carried over to the new account.
  promise (creating_account a) w = with_account B w a (
      some (elim (w.accounts a) [
        | none ↦ blank a
        | some v ↦ record (blank a) { balance = v.balance }
      ]))
  promise (suiciding a) w = elim (w.accounts a) [
    | none ↦ w
    | some v ↦ with_account B w a (some (record v { suicided = true; balance = pos 0 }))
  ]
  promise (adding_refund gas) w = record w { refund = (w.refund + gas) % 2 ^ 64 }
  -- The first preimage of a hash stays.
  promise (adding_preimage hash preimage) w = elim (w.preimages hash) [
    | none ↦ record w { preimages = update w.preimages hash (some preimage) }
    | some _ ↦ w
  ]
  promise (preparing thash bhash ti) w = w
  promise (asking_exist a) w = w
  promise (asking_empty a) w = w
  promise (getting_balance a) w = w
  promise (getting_nonce a) w = w
  promise (getting_code_hash a) w = w
  promise (asking_suicided a) w = w
  promise (getting_code a) w = w
  promise (getting_state a key) w = w
  promise (getting_pdx_state a key) w = w
