-- ===== src/State/Multi/Pulled.antt =====
-- getStateObject of MStateDB against that of StateDB: once it has pulled an account into the StateDB,
-- the StateDB answers the same.
use advance_golang.Base.{
  ◌≡◌, refl, ap, ◌∙◌, inl, inr, Option, none, some, Option-cases, length, ◌==◌,
}
use advance_golang.Base.{Bool-cases, false, arith, sym}
use advance_golang.Base.Maps.{Bytes, lookup, lookup-insert_self}
use advance_golang.State.Backend.{DbError, Backend}
use advance_golang.State.Db.{StateDb, set_error, set_state_object, load_object, get_state_object}
use advance_golang.State.Multi.{
  MStateDb, live, context_object, decode_shared, load_shared, shared_object, multi_get_state_object,
}
use advance_golang.State.Object.{StateObject, new_object}

-- The first of two errors.
abbrev kept_error : Option DbError → Option DbError → Option DbError
kept_error none e = e
kept_error (some x) e = some x

set_error_lem :
    {Trie : Type 0} (s : StateDb Trie) (e : Option DbError)
    → set_error s e ≡ record s { db_err = kept_error s.db_err e }
unfolding set_error
set_error_lem s e = elim (Option-cases s.db_err) [
  | inl h ↦ rw (h, set_error) refl
  | inr (x, h) ↦ rw (h, set_error) (rw (sym h) refl)
]

kept_error_twice : (x e : Option DbError) → kept_error (kept_error x e) e ≡ kept_error x e
kept_error_twice none none = refl
kept_error_twice none (some e) = refl
kept_error_twice (some x) e = refl

module _ (B : Backend) where
  open B use {Trie, try_get, decode_account}

  -- The state of the StateDB once it has the account, and the object.
  abbrev pub pulled : MStateDb Trie → Bytes → StateDb Trie
  pulled s addr = (multi_get_state_object B s addr).0.stdb

  -- The two maps agree with what was found.
  pub record Pulled (addr : Bytes) (r : MStateDb Trie × Option (StateObject Trie)) : Type 0 where
    pub single : get_state_object B r.0.stdb addr ≡ (r.0.stdb, r.1)
    pub again : multi_get_state_object B r.0 addr ≡ r

  held-Pulled :
      (s : MStateDb Trie) (addr : Bytes) (o : StateObject Trie)
      → lookup addr s.stdb.state_objects ≡ some o
      → Pulled addr (s, live o)
  unfolding get_state_object multi_get_state_object
  held-Pulled s addr o h = record {
    single = rw (h, get_state_object) refl;
    again = rw (h, multi_get_state_object) refl;
  }

  -- An account that the trie does not have.
  unset-Pulled :
      (s : MStateDb Trie) (addr : Bytes)
      → lookup addr s.stdb.state_objects ≡ none
      → context_object s addr ≡ none
      → length (try_get s.stdb.trie addr).0 ≡ 0
      → Pulled addr (record s { stdb = set_error s.stdb (try_get s.stdb.trie addr).1 }, none)
  unfolding get_state_object multi_get_state_object shared_object load_shared context_object
  unset-Pulled s addr own shared unset =
      let e = (try_get s.stdb.trie addr).1 in
      let d = record s.stdb { db_err = kept_error s.stdb.db_err e } in
      let same : set_error d e ≡ d =
        set_error_lem d e ∙ ap (λ x. record d { db_err = x }) (kept_error_twice s.stdb.db_err e) in
      rw (set_error_lem s.stdb e) (record {
        single = rw (own, unset, get_state_object) (ap (λ x. (x, none)) same);
        again =
            rw (own, shared, unset, multi_get_state_object, shared_object, load_shared)
              (ap (λ x. (record s { stdb = x }, none)) same);
      })

  undecoded-Pulled :
      (s : MStateDb Trie) (addr : Bytes)
      → lookup addr s.stdb.state_objects ≡ none
      → context_object s addr ≡ none
      → (length (try_get s.stdb.trie addr).0 == 0) ≡ false
      → decode_account (try_get s.stdb.trie addr).0 ≡ none
      → Pulled addr (s, none)
  unfolding get_state_object multi_get_state_object shared_object load_shared decode_shared
      load_object
  undecoded-Pulled s addr own shared set bad = record {
    single = rw (own, set, bad, get_state_object, load_object) refl;
    again =
        rw
          (own, shared, set, bad, multi_get_state_object, shared_object, load_shared, decode_shared)
          refl;
  }

  decode_shared-Pulled :
      (s : MStateDb Trie) (addr : Bytes)
      → lookup addr s.stdb.state_objects ≡ none
      → context_object s addr ≡ none
      → (length (try_get s.stdb.trie addr).0 == 0) ≡ false
      → Pulled addr (decode_shared B s addr (try_get s.stdb.trie addr).0)
  unfolding decode_shared set_state_object new_object
  decode_shared-Pulled s addr own shared set =
      elim (Option-cases (decode_account (try_get s.stdb.trie addr).0)) [
        | inl h ↦ rw (h, decode_shared) (undecoded-Pulled s addr own shared set h)
        | inr (raw, h) ↦
            rw (h, decode_shared)
              (held-Pulled _ addr (new_object B addr raw)
                (lookup-insert_self addr _ s.stdb.state_objects))
      ]

  missing-Pulled :
      (s : MStateDb Trie) (addr : Bytes)
      → lookup addr s.stdb.state_objects ≡ none
      → context_object s addr ≡ none
      → Pulled addr (load_shared B s addr)
  unfolding load_shared
  missing-Pulled s addr own shared = elim (Bool-cases (length (try_get s.stdb.trie addr).0 == 0)) [
    | inl h ↦ rw (h, load_shared) (unset-Pulled s addr own shared (ground arith))
    | inr h ↦ rw (h, load_shared) (decode_shared-Pulled s addr own shared h)
  ]

  pub multi_get_state_object-Pulled :
      (s : MStateDb Trie) (addr : Bytes) → Pulled addr (multi_get_state_object B s addr)
  unfolding multi_get_state_object shared_object
  multi_get_state_object-Pulled s addr = elim (Option-cases (lookup addr s.stdb.state_objects)) [
    | inr (o, h) ↦ rw (h, multi_get_state_object) (held-Pulled s addr o h)
    | inl h ↦
        rw (h, multi_get_state_object)
          (elim (Option-cases (context_object s addr)) [
            | inl h' ↦ rw (h', shared_object) (missing-Pulled s addr h h')
            | inr (o, h') ↦
                rw (h', shared_object)
                  (held-Pulled _ addr o (lookup-insert_self addr o s.stdb.state_objects))
          ])
  ]
