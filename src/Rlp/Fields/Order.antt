-- ===== src/Rlp/Fields/Order.antt =====
-- Which fields structFields returns, and where the tail field stands among them.
use native.Mathlib.Nat.{sub-zero}
use advance_golang.Base.{
  drop, sym, ℕ, suc, ◌≡◌, refl, ap, ◌∙◌, Bool, true, false, not, ◌&&◌, ◌||◌, List, [], ◌∷◌, map,
  All, inl, inr, Bool-cases, if◌then◌else◌, ◌==◌, arith,
}
use advance_golang.Rlp.Raw.{Kind}
use mathlib.Core.Path.{subst}
use advance_golang.Rlp.Fields.Tail.{All-map, NoneExported, last_public_from-NoneExported}
use advance_golang.Rlp.Fields.{
  ElemKind, other_kind, TagWord, dash, empty_word, nil_word, nil_string_word, nil_list_word,
  tail_word, unknown_word, FieldKind, pointer, slice, StructField, Tags, Parsed, bad, good, ◌>>=◌,
  no_tags, set_nil, set_tail, set_word, parse_words, parse_struct_tag, Field, keep_field,
  exported_field, last_public_field, struct_fields_from, struct_fields,
}

-- Whether a tag has the word "-".
unfoldable pub has_dash : List TagWord → Bool
has_dash [] = false
has_dash (dash ∷ ws) = true
has_dash (w ∷ ws) = has_dash ws

-- The indices of the exported fields without the word "-" in their tag.
unfoldable pub encoded_indices : ℕ → List StructField → List ℕ
encoded_indices i [] = []
encoded_indices i (f ∷ fs) =
    let rest = encoded_indices (suc i) fs in
    if f.exported && not (has_dash f.tag) then i ∷ rest else rest

-- What two steps return, both of them good.
>>=-eq-good {ℓ κ} :
    {A : Type ℓ} {C : Type κ} (call : Parsed A) (next : A → Parsed C) {c : C}
    → (call >>= next) ≡ good c
    → (a : A) × (call ≡ good a) × (next a ≡ good c)
>>=-eq-good (bad e) next h = cc
>>=-eq-good (good a) next h = (a, refl, h)

-- What a word does to the tags that the order of fields depends on.
record Step (is_last : Bool) (w : TagWord) (ts us : Tags) : Type 0 where
  marks : us.ignored ≡ (ts.ignored || has_dash (w ∷ []))
  tails : us.tail ≡ true → ts.tail ≡ false → is_last ≡ true

good-injective {ℓ} : {A : Type ℓ} {a b : A} → good a ≡ good b → a ≡ b
good-injective {a = a} e = ap (λ p. elim p [ good x ↦ x | bad f ↦ a ]) e

-- A step that leaves both marks as they are.
kept-Step :
    (is_last : Bool) (ts us vs : Tags) (w : TagWord)
    → has_dash (w ∷ []) ≡ false
    → vs.ignored ≡ ts.ignored
    → vs.tail ≡ ts.tail
    → good vs ≡ good us
    → Step is_last w ts us
kept-Step is_last ts us vs w nodash same_ignored same_tail h =
    subst (Step is_last w ts) (good-injective h)
      (record { marks = ground (arith, nodash, same_ignored); tails = ground (arith, same_tail) })

set_nil-Step :
    (kind : FieldKind) (is_last : Bool) (ts us : Tags) (kind_of : ElemKind → Kind) (w : TagWord)
    → has_dash (w ∷ []) ≡ false
    → set_nil kind ts kind_of ≡ good us
    → Step is_last w ts us
unfolding set_nil
set_nil-Step (pointer elem) is_last ts us kind_of w nodash h =
    kept-Step is_last ts us _ w nodash refl refl h
set_nil-Step slice is_last ts us kind_of w nodash h = cc
set_nil-Step other_kind is_last ts us kind_of w nodash h = cc

set_tail-Step :
    (kind : FieldKind) (is_last : Bool) (ts us : Tags)
    → set_tail kind is_last ts ≡ good us
    → Step is_last tail_word ts us
unfolding set_tail has_dash
set_tail-Step slice true ts us h =
    subst (Step true tail_word ts) (good-injective h)
      (record { marks = ground arith; tails = λ e p. refl })
set_tail-Step kind false ts us h = cc
set_tail-Step kind true ts us h = cc

set_word-Step :
    (f : StructField) (is_last : Bool) (ts us : Tags) (w : TagWord)
    → set_word f is_last ts w ≡ good us
    → Step is_last w ts us
unfolding set_word has_dash
set_word-Step f is_last ts us empty_word h = kept-Step is_last ts us ts empty_word refl refl refl h
set_word-Step f is_last ts us dash h =
    subst (Step is_last dash ts) (good-injective h)
      (record { marks = ground arith; tails = ground arith })
set_word-Step f is_last ts us nil_word h = set_nil-Step f.kind is_last ts us _ nil_word refl h
set_word-Step f is_last ts us nil_string_word h =
    set_nil-Step f.kind is_last ts us _ nil_string_word refl h
set_word-Step f is_last ts us nil_list_word h =
    set_nil-Step f.kind is_last ts us _ nil_list_word refl h
set_word-Step f is_last ts us tail_word h = set_tail-Step f.kind is_last ts us h
set_word-Step f is_last ts us unknown_word h = cc

has_dash-cons :
    (w : TagWord) (ws : List TagWord) → has_dash (w ∷ ws) ≡ (has_dash (w ∷ []) || has_dash ws)
unfolding has_dash
has_dash-cons dash ws = refl
has_dash-cons w ws = refl

parse_words-Step :
    (f : StructField) (is_last : Bool) (ts us : Tags) (ws : List TagWord)
    → parse_words f is_last ts ws ≡ good us
    → (us.ignored ≡ (ts.ignored || has_dash ws))
      × (us.tail ≡ true → ts.tail ≡ false → is_last ≡ true)
unfolding parse_words has_dash
parse_words-Step f is_last ts us [] h =
    let same = good-injective h in (ground (arith, same), λ e p. ground (arith, same))
parse_words-Step f is_last ts us (w ∷ ws) h =
    let (ts', first, rest) = >>=-eq-good (set_word f is_last ts w) _ h in
    let step = set_word-Step f is_last ts ts' w first in
    let (marks, tails) = parse_words-Step f is_last ts' us ws rest in
    (
      ground (arith, has_dash-cons w ws, marks, step.marks),
      λ e p. elim (Bool-cases ts'.tail) [
        | inl late ↦ step.tails late p
        | inr early ↦ tails e early
      ],
    )

-- What is known of the tags of a field.
parse_struct_tag-Step :
    (f : StructField) (i last : ℕ) (us : Tags)
    → parse_struct_tag f i last ≡ good us
    → (us.ignored ≡ has_dash f.tag) × (us.tail ≡ true → i ≡ last)
unfolding parse_struct_tag
parse_struct_tag-Step f i last us h =
    let (marks, tails) = parse_words-Step f (i == last) no_tags us f.tag h in
    (marks, λ e. ground (arith, tails e refl))

-- The fields that are returned, from the index `i` on.
record Selected (last i : ℕ) (fs : List StructField) (r : List Field) : Type 0 where
  indices : map (λ (f : Field). f.index) r ≡ encoded_indices i fs
  tails : All (λ (f : Field). f.tags.tail ≡ true → f.index ≡ last) r

keep_field-Selected :
    (last i : ℕ) (f : StructField) (fs : List StructField) (ts : Tags) (r : List Field)
    → f.exported ≡ true
    → ts.ignored ≡ has_dash f.tag
    → (ts.tail ≡ true → i ≡ last)
    → Selected last (suc i) fs r
    → Selected last i (f ∷ fs) (keep_field i ts r)
unfolding encoded_indices
keep_field-Selected last i f fs ts r e h tail s = elim (Bool-cases ts.ignored) [
  | inl d ↦
      subst (Selected last i (f ∷ fs)) (sym (kept d))
        (record { indices = ground (arith, s.indices); tails = s.tails })
  | inr d ↦
      subst (Selected last i (f ∷ fs)) (sym (kept d))
        (record { indices = ground (arith, s.indices); tails = (tail, s.tails) })
]
  where
    kept :
        {b : Bool}
        → ts.ignored ≡ b
        → keep_field i ts r ≡ (if b then r else record { index = i; tags = ts } ∷ r)
    kept same = ap (λ b. if b then r else record { index = i; tags = ts } ∷ r) same

struct_fields_from-Selected :
    (last i : ℕ) (fs : List StructField) (r : List Field)
    → struct_fields_from last i fs ≡ good r
    → Selected last i fs r
unfolding struct_fields_from encoded_indices
struct_fields_from-Selected last i [] r h =
    subst (Selected last i []) (good-injective h) (record { indices = refl; tails = tt })
struct_fields_from-Selected last i (f ∷ fs) r h = elim (Bool-cases f.exported) [
  | inl e ↦
      let made = sym (branch e) ∙ h in
      let (ts, parsed, more) = >>=-eq-good (parse_struct_tag f i last) _ made in
      let (others, more_fields, done) = >>=-eq-good (struct_fields_from last (suc i) fs) _ more in
      let (marks, tails) = parse_struct_tag-Step f i last ts parsed in
      subst (Selected last i (f ∷ fs)) (good-injective done) (
        keep_field-Selected last i f fs ts others e marks tails
          (struct_fields_from-Selected last (suc i) fs others more_fields))
  | inr e ↦
      let s = struct_fields_from-Selected last (suc i) fs r (sym (branch e) ∙ h) in
      record { indices = ground (arith, s.indices); tails = s.tails }
]
  where
    rest : Parsed (List Field)
    rest = struct_fields_from last (suc i) fs

    branch :
        {b : Bool}
        → f.exported ≡ b
        → struct_fields_from last i (f ∷ fs) ≡ (if b then exported_field last i f rest else rest)
    branch e = ap (λ b. if b then exported_field last i f rest else rest) e

-- Of a struct that it accepts, structFields returns the exported fields without the tag "-", in the
-- order of their indices, and after a field that is a tail the struct has no exported field.
pub struct_fields-encoded_indices :
    (fs : List StructField) (r : List Field)
    → struct_fields fs ≡ good r
    → (map (λ (f : Field). f.index) r ≡ encoded_indices 0 fs)
      × All (λ (f : Field). f.tags.tail ≡ true → NoneExported (drop (suc f.index) fs)) r
unfolding struct_fields last_public_field
struct_fields-encoded_indices fs r h =
    let s = struct_fields_from-Selected (last_public_field fs) 0 fs r h in
    let after : NoneExported (drop (suc (last_public_field fs)) fs) =
      subst (λ n. NoneExported (drop n fs)) (sub-zero (suc (last_public_field fs)))
        (last_public_from-NoneExported 0 0 fs (omega arith)) in
    (
      s.indices,
      All-map
          (λ f tail is_tail. subst (λ i. NoneExported (drop (suc i) fs)) (sym (tail is_tail)) after)
          r s.tails,
    )
