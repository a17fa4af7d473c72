-- ===== src/Rlp/Stream/Elements.antt =====
-- rlp/decode.go: decodeSliceElems, the loop of decodeListArray and the fields of a struct, on the
-- payload that the encoder writes.
use advance_golang.Base.{
  ℕ, zero, suc, ◌+◌, ◌^◌, ◌≤◌, ◌<◌, ◌≡◌, refl, sym, ap, ◌∙◌, arith, true, none, List,
}
use advance_golang.Base.{[], ◌∷◌, length, length-append, ◌==◌, if◌then◌else◌, false}
use mathlib.Core.Path.{subst}
use advance_golang.Base.Maps.{Bytes}
use advance_golang.Rlp.Encode.{Value, sequence, Values, nil, cons}
use advance_golang.Rlp.Encode.Spec.{encoding, payload}
use advance_golang.Rlp.Encode.RoundTrip.{count}
use advance_golang.Rlp.Stream.{ListPos, Stream, Outcome, done, Reading, ◌>>=◌, moved, at_end}
use advance_golang.Rlp.Stream.Shapes.{
  expected_elem, required, after_elem, slice_loop, slice_elems, decode_slice, array_elems,
}
use advance_golang.Rlp.Stream.Steps.{Fits, Room, Ate, bind_done}
use advance_golang.Rlp.Stream.Reads.{Reads, Ends}
use advance_golang.Rlp.Stream.Lists.{ReadsAll, first-Got, both-ReadsAll, enclosed-Reads}

pub required-Reads :
    (m : Reading Value) (v : Value) (code : Bytes) → Reads m v code → Reads (required m) v code
unfolding required
required-Reads m v code reads s more fresh here room =
    let got = reads s more fresh here room in
    record {
      after = got.after;
      run =
          ap (λ (p : Stream × Outcome Value). (p.0, expected_elem p.1)) got.run
          ∙ (unfold expected_elem in refl);
      ate = got.ate;
      again = got.again;
    }

-- Nothing is read.
nothing-Ate : (ps : List ListPos) (n : ℕ) → Fits ps n → ps ≡ moved ps 0
unfolding moved
nothing-Ate [] n fits = refl
nothing-Ate (p ∷ ps) n fits = ap (λ (q : ℕ). record p { pos = q } ∷ ps) (omega arith)

pub nothing : (s : Stream) → Room s 0 → Ate 0 s s
nothing s room = record {
  input = refl;
  limit = refl;
  left = λ h. omega arith;
  stack = nothing-Ate s.stack 0 room.fits;
}

-- The reader reads each of the values.
abbrev pub Each : Reading Value → Values → Type 0
Each m nil = Unit {0}
Each m (cons v vs) = Reads m v (encoding v) × Each m vs

pub none-ReadsAll : ReadsAll (λ s. (s, done nil)) nil
unfolding payload
none-ReadsAll s more fresh here room over = record {
  after = s;
  run = refl;
  ate = nothing s room;
  again = fresh;
}

pub array_elems-ReadsAll :
    (m : Reading Value) (vs : Values) → Each m vs → ReadsAll (array_elems m (count vs)) vs
unfolding array_elems count
array_elems-ReadsAll m nil each = none-ReadsAll
array_elems-ReadsAll m (cons v vs) (one, each) =
    both-ReadsAll (required m) (array_elems m (count vs)) v vs (required-Reads m v (encoding v) one)
      (array_elems-ReadsAll m vs each)

-- EOL ends the loop.
slice_loop_end :
    (m : Reading Value) (rounds : ℕ) → Ends m → ReadsAll (slice_loop (suc rounds) m) nil
unfolding slice_loop payload
slice_loop_end m rounds ends s more fresh here room over =
    let here_end : at_end s.stack ≡ true = ap at_end (nothing-Ate s.stack 0 room.fits) ∙ over in
    let ate = nothing s room in
    record {
      after = record s { kinderr = none };
      run =
          ap (after_elem (slice_loop rounds m)) (ends s fresh here_end)
          ∙ (unfold after_elem in refl);
      ate = record { input = ate.input; limit = ate.limit; left = ate.left; stack = ate.stack };
      again = fresh;
    }

-- An element that is read is followed by the loop's next round.
slice_loop_next :
    (m : Reading Value) (v : Value) (vs : Values) (rounds : ℕ)
    → Reads m v (encoding v)
    → ReadsAll (slice_loop rounds m) vs
    → ReadsAll (slice_loop (suc rounds) m) (cons v vs)
unfolding slice_loop after_elem payload
slice_loop_next m v vs rounds one rest s more fresh here room over =
    let next = slice_loop rounds m in
    let room1 : Room s (length (encoding v) + length (payload vs)) =
      subst (λ (n : ℕ). Room s n) (length-append (encoding v) (payload vs)) room in
    let first = first-Got m next v vs one rest s more fresh here room1 in
    let got = both-ReadsAll m next v vs one rest s more fresh here room over in
    record {
      after = got.after;
      run =
          ap (after_elem next) first.run
          ∙ sym (
              bind_done m (λ w. do ws ← next; λ t. (t, done (cons w ws))) s first.after v first.run)
          ∙ got.run;
      ate = got.ate;
      again = got.again;
    }

-- The loop over a slice ends with the list, given a round more than there are elements.
slice_loop-ReadsAll :
    (m : Reading Value) (vs : Values) (rounds : ℕ)
    → Ends m
    → Each m vs
    → count vs < rounds
    → ReadsAll (slice_loop rounds m) vs
unfolding count
slice_loop-ReadsAll m vs zero ends each lt = absurd (omega arith)
slice_loop-ReadsAll m nil (suc rounds) ends each lt = slice_loop_end m rounds ends
slice_loop-ReadsAll m (cons v vs) (suc rounds) ends (one, each) lt =
    slice_loop_next m v vs rounds one (slice_loop-ReadsAll m vs rounds ends each (omega arith))

-- The rounds that `slice_elems` allows are enough; an empty list is not entered.
pub slice_elems-ReadsAll :
    (m : Reading Value) (vs : Values)
    → Ends m
    → Each m vs
    → count vs ≤ length (payload vs)
    → ReadsAll (if length (payload vs) == 0 then (λ s. (s, done nil)) else slice_elems m) vs
unfolding slice_elems count
slice_elems-ReadsAll m nil ends each le s more fresh here room over =
    let got = none-ReadsAll s more fresh here room over in
    record { after = got.after; run = unfold payload in got.run; ate = got.ate; again = got.again }
slice_elems-ReadsAll m (cons v vs) ends each le s more fresh here room over =
    let b = payload (cons v vs) in
    let full : (length b == 0) ≡ false = ground arith in
    let rounds : suc (count vs) < suc (length s.r) =
      rw here (omega (arith, le, length-append b more)) in
    let got =
      slice_loop-ReadsAll m (cons v vs) (suc (length s.r)) ends each rounds s more fresh here room
        over in
    record { after = got.after; run = rw full got.run; ate = got.ate; again = got.again }

pub decode_slice-Reads :
    (m : Reading Value) (vs : Values)
    → Ends m
    → Each m vs
    → count vs ≤ length (payload vs)
    → length (payload vs) < 2 ^ 64
    → Reads (decode_slice m) (sequence vs) (encoding (sequence vs))
unfolding decode_slice
decode_slice-Reads m vs ends each le h =
    enclosed-Reads (λ n. if n == 0 then (λ s. (s, done nil)) else slice_elems m) vs
      (slice_elems-ReadsAll m vs ends each le) h
