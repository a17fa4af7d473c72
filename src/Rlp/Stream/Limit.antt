-- ===== src/Rlp/Stream/Limit.antt =====
-- rlp/decode.go: no decoder reads more bytes than the limit of the stream lets it, whatever the input.
use advance_golang.Base.{ℕ, zero, suc, ◌+◌, ◌/◌, ◌≤◌, ◌<◌, ◌≡◌, refl, arith, none}
use advance_golang.Base.{ltb, ◌==◌, List, [], ◌∷◌, length}
use advance_golang.Base.Maps.{Bytes}
use advance_golang.Rlp.Raw.{byte_kind, string_kind, list_kind}
use advance_golang.Rlp.Encode.{Value, Values}
use advance_golang.Rlp.Stream.{
  ListPos, Stream, eol, Outcome, fail, done, stuck, Reading, ◌>>=◌, reset, read_full, next_kind,
  no_single, read_bytes, read_raw, string_uint, read_number, read_uint64, read_bool, enter_list,
  leave_from, leave_list,
}
use advance_golang.Rlp.Stream.Shapes.{
  Shape, raw_shape, big_shape, uint_shape, boolean_shape, text_shape, byte_array_shape, slice_shape,
  array_shape, struct_shape, Shapes, no_fields, field, decode_big, single_byte, checked_array,
  array_bytes, decode_byte_array, after_elem, slice_loop, slice_elems, decode_slice, required,
  array_elems, in_list, decode_value, decode_fields,
}
use advance_golang.Rlp.Stream.Charges.{
  Spent, Charges, Spent-refl, Spent-trans, bind-Charges, read_full-Charges, read_uint-Charges,
  by_test, by_kind, next_kind-Charges,
}

-- A reader that asks for the kind first.
module _ {κ} {A : Type κ} (on_byte : Stream → Stream × Outcome A) where
  after_kind :
      (on_string on_list : ℕ → Stream → Stream × Outcome A)
      → ((s : Stream) → Spent s (on_byte s).0)
      → ((n : ℕ) (s : Stream) → Spent s (on_string n s).0)
      → ((n : ℕ) (s : Stream) → Spent s (on_list n s).0)
      → Charges {A = A} (do
        (k, n) ← next_kind
        λ s. elim k [
          | byte_kind ↦ on_byte s
          | string_kind ↦ on_string n s
          | list_kind ↦ on_list n s
        ])
  after_kind on_string on_list a b c =
      bind-Charges next_kind _ next_kind-Charges (λ v s.
        by_kind (λ (p : Stream × Outcome A). Spent s p.0) v.0 _ _ _ (a s) (b v.1 s) (c v.1 s))

rearm-Spent : (s : Stream) → Spent s (record s { kind = none })
rearm-Spent s = record { limit = refl; charge = (Spent-refl s).charge }

read_bytes-Charges : Charges read_bytes
unfolding read_bytes no_single
read_bytes-Charges =
    after_kind _ _ _ rearm-Spent
      (λ n s. bind-Charges (read_full n) no_single (read_full-Charges n) (λ b t. Spent-refl t) s)
      (λ n s. Spent-refl s)

read_raw-Charges : Charges read_raw
unfolding read_raw
read_raw-Charges =
    after_kind _ _ _ rearm-Spent
      (λ n s. bind-Charges (read_full n) _ (read_full-Charges n) (λ b t. Spent-refl t) s)
      (λ n s. bind-Charges (read_full n) _ (read_full-Charges n) (λ b t. Spent-refl t) s)

read_number-Charges : (bits : ℕ) → Charges (read_number bits)
unfolding read_number string_uint
read_number-Charges bits =
    after_kind _ _ _
      (λ s.
        by_test (λ (p : Stream × Outcome ℕ). Spent s p.0) (s.byteval == 0) _ _ (Spent-refl s)
          (rearm-Spent s))
      (λ n s.
        by_test (λ (p : Stream × Outcome ℕ). Spent s p.0) (ltb (bits / 8) n) _ _ (Spent-refl s)
          (read_uint-Charges n s))
      (λ n s. Spent-refl s)

read_bool-Charges : Charges read_bool
unfolding read_bool
read_bool-Charges = bind-Charges (read_number 8) _ (read_number-Charges 8) (λ n s. Spent-refl s)

decode_big-Charges : Charges decode_big
unfolding decode_big
decode_big-Charges = bind-Charges read_bytes _ read_bytes-Charges (λ b s. Spent-refl s)

decode_byte_array-Charges : (len : ℕ) → Charges (decode_byte_array len)
unfolding decode_byte_array single_byte array_bytes read_uint64 checked_array
decode_byte_array-Charges len =
    after_kind _ _ _
      (λ s.
        by_test (λ (p : Stream × Outcome Value). Spent s p.0) (len == 0) _ _ (Spent-refl s)
          (by_test (λ (p : Stream × Outcome Value). Spent s p.0) (ltb 1 len) _ _ (Spent-refl s)
            (read_number-Charges 64 s)))
      (λ n s.
        by_test (λ (p : Stream × Outcome Value). Spent s p.0) (ltb len n) _ _ (Spent-refl s)
          (by_test (λ (p : Stream × Outcome Value). Spent s p.0) (ltb n len) _ _ (Spent-refl s)
            (bind-Charges (read_full len) (checked_array n) (read_full-Charges len)
              (λ b t. Spent-refl t) s)))
      (λ n s. Spent-refl s)

enter_list-Charges : Charges enter_list
unfolding enter_list
enter_list-Charges =
    after_kind _ _ _ Spent-refl (λ n s. Spent-refl s)
      (λ n s. record { limit = refl; charge = (Spent-refl s).charge })

leave_from-Charges : (ps : List ListPos) → Charges (leave_from ps)
unfolding leave_from
leave_from-Charges [] s = Spent-refl s
leave_from-Charges (p ∷ ps) s =
    by_test (λ (q : Stream × Outcome (Unit {0})). Spent s q.0) (p.pos == p.size) _ _
      (record { limit = refl; charge = (Spent-refl s).charge }) (Spent-refl s)

leave_list-Charges : Charges leave_list
unfolding leave_list
leave_list-Charges s = leave_from-Charges s.stack s

after_elem-Spent :
    (next : Reading Values) (s : Stream) (p : Stream × Outcome Value)
    → Charges next
    → Spent s p.0
    → Spent s (after_elem next p).0
unfolding after_elem
after_elem-Spent next s (t, done v) c a =
    Spent-trans s t _ a (bind-Charges next _ c (λ vs u. Spent-refl u) t)
after_elem-Spent next s (t, stuck) c a = a
after_elem-Spent next s (t, fail eol) c a = a
after_elem-Spent next s (t, fail e) c a = a

slice_loop-Charges : (rounds : ℕ) (m : Reading Value) → Charges m → Charges (slice_loop rounds m)
unfolding slice_loop
slice_loop-Charges zero m c s = Spent-refl s
slice_loop-Charges (suc rounds) m c s =
    after_elem-Spent (slice_loop rounds m) s (m s) (slice_loop-Charges rounds m c) (c s)

decode_slice-Charges : (m : Reading Value) → Charges m → Charges (decode_slice m)
unfolding decode_slice slice_elems
decode_slice-Charges m c = bind-Charges enter_list _ enter_list-Charges (λ n.
    bind-Charges _ _
      (by_test (λ (r : Reading Values). Charges r) (n == 0) _ _ Spent-refl
        (λ s. slice_loop-Charges (suc (length s.r)) m c s))
      (λ vs. bind-Charges leave_list _ leave_list-Charges (λ u s. Spent-refl s)))

array_elems-Charges : (m : Reading Value) (n : ℕ) → Charges m → Charges (array_elems m n)
unfolding array_elems required
array_elems-Charges m zero c s = Spent-refl s
array_elems-Charges m (suc n) c s =
    bind-Charges (required m) _ c
      (λ v. bind-Charges (array_elems m n) _ (array_elems-Charges m n c) (λ vs u. Spent-refl u)) s

in_list-Charges : (m : Reading Values) → Charges m → Charges (in_list m)
unfolding in_list
in_list-Charges m c = bind-Charges enter_list _ enter_list-Charges (λ n.
    bind-Charges m _ c (λ vs. bind-Charges leave_list _ leave_list-Charges (λ u s. Spent-refl s)))

mutual
  unfolding decode_value decode_fields required

  value-Charges : (shape : Shape) → Charges (decode_value shape)
  value-Charges raw_shape = read_raw-Charges
  value-Charges big_shape = decode_big-Charges
  value-Charges (uint_shape bits) = read_number-Charges bits
  value-Charges boolean_shape = read_bool-Charges
  value-Charges text_shape = read_bytes-Charges
  value-Charges (byte_array_shape len) = decode_byte_array-Charges len
  value-Charges (slice_shape elem) = decode_slice-Charges (decode_value elem) (value-Charges elem)
  value-Charges (array_shape elem len) =
      in_list-Charges _ (array_elems-Charges (decode_value elem) len (value-Charges elem))
  value-Charges (struct_shape shapes) =
      in_list-Charges (decode_fields shapes) (fields_charge shapes)

  fields_charge : (shapes : Shapes) → Charges (decode_fields shapes)
  fields_charge no_fields s = Spent-refl s
  fields_charge (field shape shapes) s =
      bind-Charges (required (decode_value shape)) _ (value-Charges shape)
        (λ v. bind-Charges (decode_fields shapes) _ (fields_charge shapes) (λ vs u. Spent-refl u)) s

-- Whatever the input, the shape and the outcome, a decoder on a stream that was reset with a limit
-- takes no more bytes from the reader than the limit; given that the limit is not 0.
pub decode_value-limit :
    (shape : Shape) (b : Bytes) (limit : ℕ)
    → 0 < limit
    → length b ≤ length (decode_value shape (reset b limit)).0.r + limit
unfolding reset
decode_value-limit shape b limit pos =
    let spent = value-Charges shape (reset b limit) in
    let allowed : (reset b limit).remaining ≡ limit = unfold reset in ground arith in
    omega (arith, spent.charge (unfold reset in refl), allowed)
