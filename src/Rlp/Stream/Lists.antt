-- ===== src/Rlp/Stream/Lists.antt =====
-- rlp/decode.go: List and ListEnd around the readers of a list's elements.
use advance_golang.Base.{ℕ, ◌+◌, ◌^◌, ◌<◌, ◌≡◌, refl, sym, ap, ◌∙◌, arith, true}
use advance_golang.Base.{none, List}
use advance_golang.Base.{◌∷◌, ◌++◌, length, drop, append_assoc, length-append, drop-append-length}
use mathlib.Core.Path.{subst}
use advance_golang.Base.Maps.{Bytes}
use advance_golang.Rlp.Head.{puthead}
use advance_golang.Rlp.Raw.{list_kind}
use advance_golang.Rlp.Encode.{Value, sequence, Values, cons}
use advance_golang.Rlp.Encode.Spec.{encoding, payload}
use advance_golang.Rlp.Stream.{
  ListPos, Stream, done, Reading, ◌>>=◌, add64, moved, at_end, next_kind, enter_list, leave_from,
  leave_list,
}
use advance_golang.Rlp.Stream.Shapes.{in_list, decode_slice}
use advance_golang.Rlp.Stream.Steps.{Room, Ate, Room-Ate, Ate-add, Room-le, moved-moved, bind_done}
use advance_golang.Rlp.Stream.Kinds.{HeadOf}
use advance_golang.Rlp.Stream.Headers.{next_kind-puthead_list}
use advance_golang.Rlp.Stream.Reads.{
  Got, Reads, Ends, next_kind-Ends, bind-Ends, by_parts, content-Room, content_next,
}

-- The reader reads the elements of a list that ends after them.
abbrev pub ReadsAll : Reading Values → Values → Type 0
ReadsAll m vs =
    (s : Stream) (more : Bytes)
    → s.kind ≡ none
    → s.r ≡ payload vs ++ more
    → Room s (length (payload vs))
    → at_end (moved s.stack (length (payload vs))) ≡ true
    → Got m s vs (length (payload vs))

-- `List` has put the list on the stack.
abbrev pub entered : ℕ → Stream → Stream
entered n s =
    let pos : ListPos = record { pos = 0; size = n } in
    record s { stack = pos ∷ s.stack; kind = none; size = 0 }

abbrev left_list : ℕ → List ListPos → Stream → Stream
left_list n ps s = record s { stack = moved ps n; kind = none; size = 0 }

leave_from_end :
    (w : Stream) (p : ListPos) (ps : List ListPos)
    → w.stack ≡ p ∷ ps
    → p.pos ≡ p.size
    → leave_list w ≡ (left_list p.size ps w, done tt)
unfolding leave_list leave_from
leave_from_end w p ps here over = ap (λ (qs : List ListPos). leave_from qs w) here ∙ ground arith

enter_head :
    (s t : Stream) (n h : ℕ) → HeadOf list_kind n h s t → enter_list s ≡ (entered n t, done n)
unfolding enter_list
enter_head s t n h head = bind_done next_kind _ s t (list_kind, n) head.run

-- The list is entered after its header, its elements are read, and the list ends.
module _ (elems : ℕ → Reading Values) (vs : Values)
    (all : ReadsAll (elems (length (payload vs))) vs) (h : length (payload vs) < 2 ^ 64) where
  enclosed :
      (s : Stream) (more : Bytes)
      → s.kind ≡ none
      → s.r ≡ puthead 0xC0 0xF7 (length (payload vs)) ++ (payload vs ++ more)
      → Room s (length (puthead 0xC0 0xF7 (length (payload vs))) + length (payload vs))
      → Got
          (do n ← enter_list; ws ← elems n; _ ← leave_list; λ s. (s, done (sequence ws)))
          s
          (sequence vs)
          (length (puthead 0xC0 0xF7 (length (payload vs))) + length (payload vs))
  enclosed s more fresh here room =
      let b = payload vs in
      let n = length b in
      let code = puthead 0xC0 0xF7 n in
      let (t, head) = next_kind-puthead_list s n (b ++ more) fresh h here room in
      let next = content_next s t code b more list_kind head here room in
      let roomt = content-Room s t code b more list_kind head here room in
      let u = entered n t in
      let roomu : Room u n = record { fits = (omega arith, h); allowed = roomt.allowed } in
      let over : at_end (moved u.stack n) ≡ true = unfold at_end moved in ground arith in
      let got = all u more refl next roomu over in
      let w = got.after in
      let pos : ListPos = record { pos = add64 0 n; size = n } in
      let top : w.stack ≡ pos ∷ t.stack = got.ate.stack ∙ (unfold moved in refl) in
      let enter : enter_list s ≡ (u, done n) = enter_head s t n (length code) head in
      let leave = leave_from_end w pos t.stack top (omega arith) in
      let ate : Ate n t (left_list n t.stack w) = record {
        input = got.ate.input;
        limit = got.ate.limit;
        left = got.ate.left;
        stack = refl;
      } in
      record {
        after = left_list n t.stack w;
        run =
            bind_done enter_list _ s u n enter
            ∙ bind_done (elems n) _ u w vs got.run
            ∙ bind_done leave_list _ w (left_list n t.stack w) tt leave;
        ate = Ate-add s t (left_list n t.stack w) (length code) n room head.ate ate;
        again = refl;
      }

  pub enclosed-Reads :
      Reads
        (do n ← enter_list; ws ← elems n; _ ← leave_list; λ s. (s, done (sequence ws)))
        (sequence vs)
        (encoding (sequence vs))
  unfolding encoding
  enclosed-Reads =
      by_parts (do n ← enter_list; ws ← elems n; _ ← leave_list; λ s. (s, done (sequence ws)))
        (sequence vs) (puthead 0xC0 0xF7 (length (payload vs))) (payload vs) enclosed

pub in_list-Reads :
    (elems : Reading Values) (vs : Values)
    → ReadsAll elems vs
    → length (payload vs) < 2 ^ 64
    → Reads (in_list elems) (sequence vs) (encoding (sequence vs))
unfolding in_list
in_list-Reads elems vs all h = enclosed-Reads (λ _. elems) vs all h

enter_list-Ends : Ends enter_list
unfolding enter_list
enter_list-Ends = bind-Ends next_kind _ next_kind-Ends

pub in_list-Ends : (elems : Reading Values) → Ends (in_list elems)
unfolding in_list
in_list-Ends elems = bind-Ends enter_list _ enter_list-Ends

pub decode_slice-Ends : (elem : Reading Value) → Ends (decode_slice elem)
unfolding decode_slice
decode_slice-Ends elem = bind-Ends enter_list _ enter_list-Ends

-- A first element, and the others after it.
module _ (m : Reading Value) (next : Reading Values) (v : Value) (vs : Values)
    (one : Reads m v (encoding v)) (rest : ReadsAll next vs) where
  pub first-Got :
      (s : Stream) (more : Bytes)
      → s.kind ≡ none
      → s.r ≡ (encoding v ++ payload vs) ++ more
      → Room s (length (encoding v) + length (payload vs))
      → Got m s v (length (encoding v))
  first-Got s more fresh here room =
      one s (payload vs ++ more) fresh (here ∙ append_assoc (encoding v) (payload vs) more) (
        Room-le s (length (encoding v)) (length (encoding v) + length (payload vs)) (omega arith)
          room)

  both_read :
      (s : Stream) (more : Bytes)
      → s.kind ≡ none
      → s.r ≡ (encoding v ++ payload vs) ++ more
      → Room s (length (encoding v) + length (payload vs))
      → at_end (moved s.stack (length (encoding v) + length (payload vs))) ≡ true
      → Got
          (do w ← m; ws ← next; λ t. (t, done (cons w ws)))
          s
          (cons v vs)
          (length (encoding v) + length (payload vs))
  both_read s more fresh here room over =
      let a = length (encoding v) in
      let b = length (payload vs) in
      let start : s.r ≡ encoding v ++ (payload vs ++ more) =
        here ∙ append_assoc (encoding v) (payload vs) more in
      let got = first-Got s more fresh here room in
      let t = got.after in
      let here2 : t.r ≡ payload vs ++ more =
        got.ate.input ∙ ap (drop a) start ∙ drop-append-length (encoding v) (payload vs ++ more) in
      let over2 : at_end (moved t.stack b) ≡ true =
        ap (λ (ps : List ListPos). at_end (moved ps b)) got.ate.stack
        ∙ ap at_end (moved-moved s.stack a b room.fits)
        ∙ over in
      let room2 = Room-Ate s t t a b room got.ate in
      let others = rest t more got.again here2 room2 over2 in
      record {
        after = others.after;
        run = bind_done m _ s t v got.run ∙ bind_done next _ t others.after vs others.run;
        ate = Ate-add s t others.after a b room got.ate others.ate;
        again = others.again;
      }

  pub both-ReadsAll : ReadsAll (do w ← m; ws ← next; λ t. (t, done (cons w ws))) (cons v vs)
  unfolding payload
  both-ReadsAll s more fresh here room over =
      let n = length-append (encoding v) (payload vs) in
      subst (λ (k : ℕ). Got (do w ← m; ws ← next; λ t. (t, done (cons w ws))) s (cons v vs) k)
        (sym n)
        (both_read s more fresh here (subst (λ (k : ℕ). Room s k) n room)
          (subst (λ (k : ℕ). at_end (moved s.stack k) ≡ true) n over))
