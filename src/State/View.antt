-- ===== src/State/View.antt =====
-- What a caller can read from a StateDB: the account at each address as the getters report it, the
-- refund and the preimages. The caches, the dirty sets and the memoized errors are not part of it.
use advance_golang.Base.{ℕ, ◌≡◌, ◌∙◌, Bool, false, Option, none, some, arith}
use advance_golang.Base.{
  ltb, ◌==◌, if◌then◌else◌, List, [], length, Bool-cases, Option-cases, inl, inr,
}
use advance_golang.Base.Int.{ℤ}
use advance_golang.Base.Maps.{Bytes, bytes_eq, bytes_eq_iff, lookup, lookup-insert}
use advance_golang.State.Backend.{Backend, RawAccount}
use advance_golang.State.Db.{
  StateDb, set_error, set_state_object, write_back, load_object, get_state_object,
}
use advance_golang.State.Object.{StateObject, empty_code_hash, new_object}
use advance_golang.Rlp.Raw.{split}
use advance_golang.Rlp.Result.{ok, err}
use advance_golang.Types.{set_bytes, bytes_to_hash, zero_hash}
use mathlib.Core.Option
use mathlib.Core.Path.{fun_ext}

pub record View : Type 0 where
  pub address : Bytes
  pub addr_hash : Bytes
  pub nonce : ℕ
  pub balance : ℤ
  pub root : Bytes
  pub code_hash : Bytes
  pub code : Option Bytes
  pub suicided : Bool
  pub storage : Bytes → Bytes
  pub pdx_storage : Bytes → Bytes

-- `stored` is what the account trie holds, whether or not a live object hides it.
pub record World : Type 0 where
  pub accounts : Bytes → Option View
  pub stored : Bytes → Option View
  pub refund : ℕ
  pub preimages : Bytes → Option Bytes

-- A function changed at one key.
abbrev pub update {ℓ} : {A : Type ℓ} → (Bytes → A) → Bytes → A → Bytes → A
update f k v j = if bytes_eq k j then v else f j

pub update_same {ℓ} : {A : Type ℓ} (f : Bytes → A) (k : Bytes) (v : A) → f k ≡ v → update f k v ≡ f
update_same f k v h = fun_ext (λ j. ground (arith, bytes_eq_iff k j))

pub update-update {ℓ} :
    {A : Type ℓ} (f : Bytes → A) (k : Bytes) (v w : A) → update (update f k v) k w ≡ update f k w
update-update f k v w = fun_ext (λ j. ground arith)

module _ (B : Backend) where
  open B use {Trie, try_get, decode_account, open_storage_trie, contract_code}

  -- The contract code: loaded, or in the database under its hash, unless that is the empty code's.
  unfoldable pub code_value : Bytes → Bytes → Option Bytes → Option Bytes
  code_value addr_hash code_hash (some c) = some c
  code_value addr_hash code_hash none =
      if bytes_eq code_hash (empty_code_hash B)
      then none
      else (contract_code addr_hash (bytes_to_hash code_hash)).0

  -- The storage trie: opened, or the one at the root, or else the empty one.
  unfoldable pub trie_value : Bytes → Bytes → Option Trie → Trie
  trie_value addr_hash root (some t) = t
  trie_value addr_hash root none = elim (open_storage_trie addr_hash root).1 [
    | none ↦ (open_storage_trie addr_hash root).0
    | some _ ↦ (open_storage_trie addr_hash zero_hash).0
  ]

  -- A slot as the trie holds it: zero on an error, on no entry, and on an entry that is no RLP.
  unfoldable pub slot_value : Trie → Bytes → Bytes
  slot_value t key = elim (try_get t key).1 [
    | some _ ↦ zero_hash
    | none ↦
        if ltb 0 (length (try_get t key).0)
        then (elim (split (try_get t key).0) [
          | ok (k, content, rest) ↦ set_bytes zero_hash content
          | err e ↦ set_bytes zero_hash []
        ])
        else zero_hash
  ]

  unfoldable pub storage_value : List (Bytes × Bytes) → Trie → Bytes → Bytes
  storage_value cached t key = elim (lookup key cached) [ some v ↦ v | none ↦ slot_value t key ]

  unfoldable pub pdx_value : List (Bytes × Bytes) → Trie → Bytes → Bytes
  pdx_value cached t key = elim (lookup key cached) [
    | some v ↦ v
    | none ↦ elim (try_get t key).1 [ some _ ↦ [] | none ↦ (try_get t key).0 ]
  ]

  abbrev pub view_of : StateObject Trie → View
  view_of o = record {
    address = o.address;
    addr_hash = o.addr_hash;
    nonce = o.account.nonce;
    balance = o.account.balance;
    root = o.account.root;
    code_hash = o.account.code_hash;
    code = code_value o.addr_hash o.account.code_hash o.code;
    suicided = o.suicided;
    storage = storage_value o.cached_storage (trie_value o.addr_hash o.account.root o.trie);
    pdx_storage = pdx_value o.pdx_cached_storage (trie_value o.addr_hash o.account.root o.trie);
  }

  -- The account that `getStateObject` would load.
  unfoldable pub stored_object : Trie → Bytes → Option (StateObject Trie)
  stored_object t addr =
      if length (try_get t addr).0 == 0
      then none
      else Option.map (new_object B addr) (decode_account (try_get t addr).0)

  abbrev pub shown : StateObject Trie → Option (StateObject Trie)
  shown o = if o.deleted then none else some o

  unfoldable pub peek : StateDb Trie → Bytes → Option (StateObject Trie)
  peek s addr = elim (lookup addr s.state_objects) [
    | some o ↦ shown o
    | none ↦ stored_object s.trie addr
  ]

  abbrev pub observe : StateDb Trie → World
  observe s = record {
    accounts = λ addr. Option.map view_of (peek s addr);
    stored = λ addr. Option.map view_of (stored_object s.trie addr);
    refund = s.refund;
    preimages = λ hash. lookup hash s.preimages;
  }

  -- `peek` is what `getStateObject` returns.
  pub get_state_object-peek : (s : StateDb Trie) (a : Bytes) → (get_state_object B s a).1 ≡ peek s a
  unfolding get_state_object load_object peek stored_object
  get_state_object-peek s a = ground arith

  -- The parts of a StateDB that loading an account leaves alone.
  abbrev pub SameRest : StateDb Trie → StateDb Trie → Type 0
  SameRest s t =
      (s.trie ≡ t.trie)
      × (s.refund ≡ t.refund)
      × (s.preimages ≡ t.preimages)
      × (s.journal ≡ t.journal)
      × (s.valid_revisions ≡ t.valid_revisions)
      × (s.next_revision_id ≡ t.next_revision_id)

  pub get_state_object_rest : (s : StateDb Trie) (a : Bytes) → SameRest (get_state_object B s a).0 s
  unfolding get_state_object load_object set_error set_state_object
  get_state_object_rest s a = ground arith

  pub peek-write_back :
      (s : StateDb Trie) (a : Bytes) (o : StateObject Trie) (b : Bytes)
      → peek (write_back s a o) b ≡ (if bytes_eq a b then shown o else peek s b)
  unfolding peek
  peek-write_back s a o b = ground (arith, lookup-insert a b o s.state_objects)

  peek_loaded :
      (s : StateDb Trie) (a b : Bytes) (raw : RawAccount)
      → lookup a s.state_objects ≡ none
      → (length (try_get s.trie a).0 == 0) ≡ false
      → decode_account (try_get s.trie a).0 ≡ some raw
      → (if bytes_eq a b then shown (new_object B a raw) else peek s b) ≡ peek s b
  unfolding peek stored_object new_object
  peek_loaded s a b raw dead long good = ground (arith, bytes_eq_iff a b)

  peek-load_object :
      (s : StateDb Trie) (a b : Bytes)
      → lookup a s.state_objects ≡ none
      → (length (try_get s.trie a).0 == 0) ≡ false
      → peek (load_object B s a (try_get s.trie a).0).0 b ≡ peek s b
  unfolding load_object set_state_object new_object
  peek-load_object s a b dead long = elim (Option-cases (decode_account (try_get s.trie a).0)) [
    | inl bad ↦ rw (bad, load_object)
    | inr (raw, good) ↦
        rw (good, load_object)
          (peek-write_back s a (new_object B a raw) b ∙ peek_loaded s a b raw dead long good)
  ]

  -- Loading an account changes the live set, and no account as it is seen.
  pub peek-get_state_object :
      (s : StateDb Trie) (a b : Bytes) → peek (get_state_object B s a).0 b ≡ peek s b
  unfolding get_state_object
  peek-get_state_object s a b = elim (Option-cases (lookup a s.state_objects)) [
    | inl dead ↦ elim (Bool-cases (length (try_get s.trie a).0 == 0)) [
      | inl short ↦ rw (dead, get_state_object) (rw short (unfold peek set_error in ground arith))
      | inr long ↦ rw (dead, get_state_object) (rw long (peek-load_object s a b dead long))
    ]
    | inr (o, live) ↦ rw (live, get_state_object)
  ]

  pub observe_path :
      (s t : StateDb Trie)
      → ((a : Bytes) → peek s a ≡ peek t a)
      → s.trie ≡ t.trie
      → s.refund ≡ t.refund
      → s.preimages ≡ t.preimages
      → observe s ≡ observe t
  observe_path s t h p q r = λ i. record {
    accounts = λ a. Option.map view_of (h a i);
    stored = λ a. Option.map view_of (stored_object (p i) a);
    refund = q i;
    preimages = λ x. lookup x (r i);
  }

  pub observe-get_state_object :
      (s : StateDb Trie) (a : Bytes) → observe (get_state_object B s a).0 ≡ observe s
  observe-get_state_object s a =
      let rest = get_state_object_rest s a in
      observe_path (get_state_object B s a).0 s (peek-get_state_object s a) rest.0 rest.1 rest.2

  write_back_account :
      (s : StateDb Trie) (a : Bytes) (o : StateObject Trie)
      → o.deleted ≡ false
      → (b : Bytes)
      → (observe (write_back s a o)).accounts b ≡ update (observe s).accounts a (some (view_of o)) b
  write_back_account s a o h b = rw (peek-write_back s a o b, h) (ground arith)

  -- Writing back an object that is not deleted changes the account at its address.
  pub observe-write_back :
      (s : StateDb Trie) (a : Bytes) (o : StateObject Trie)
      → o.deleted ≡ false
      → observe (write_back s a o)
        ≡ (let w = observe s in record w { accounts = update w.accounts a (some (view_of o)) })
  observe-write_back s a o h = λ i. record {
    accounts = fun_ext (write_back_account s a o h) i;
    stored = (observe s).stored;
    refund = s.refund;
    preimages = (observe s).preimages;
  }
