-- ===== src/Rlp/Fields.antt =====
-- rlp/typecache.go: the fields of a struct that are encoded and decoded, and their tags; and
-- rlp/encode.go: the writers of structs, of their slices and of their pointers.
pub mod Tail
pub mod Order
use advance_golang.Base.{ℕ, suc, ◌==◌, Bool, true, false, not, Option, none, some}
use advance_golang.Base.{if◌then◌else◌, List, [], ◌∷◌, map, get_elem?}
use advance_golang.Rlp.Encode.{Value, Values, text, sequence, nil, cons}
use advance_golang.Rlp.Raw.{Kind, byte_kind, string_kind, list_kind}

-- The kinds of the type that a pointer points to, as far as they matter.
pub data ElemKind : Type 0 where
  uint_elem string_elem bool_elem byte_sequence_elem other_elem : ElemKind

pub data FieldKind : Type 0 where
  pointer : (elem : ElemKind) → FieldKind
  slice : FieldKind
  other_kind : FieldKind

-- The strings of a tag, split at the commas and trimmed.
pub data TagWord : Type 0 where
  empty_word dash nil_word nil_string_word nil_list_word tail_word unknown_word : TagWord

-- `reflect.StructField`: PkgPath is empty for an exported field.
pub record StructField : Type 0 where
  pub exported : Bool
  pub kind : FieldKind
  pub tag : List TagWord

pub record Tags : Type 0 where
  pub nil_ok : Bool
  pub nil_kind : Kind
  pub tail : Bool
  pub ignored : Bool

pub data TagError : Type 0 where
  not_a_pointer not_the_last_field not_a_slice unknown_tag : TagError

-- A Go result of a type's analysis.
pub data Parsed {ℓ} (A : Type ℓ) : Type ℓ where
  bad : (failure : TagError) → Parsed A
  good : (value : A) → Parsed A

infixl 5 ◌>>=◌
abbrev pub ◌>>=◌ {ℓ κ} : {A : Type ℓ} {C : Type κ} → Parsed A → (A → Parsed C) → Parsed C
bad e >>= next = bad e
good a >>= next = next a

-- `tags{}`; the zero of Kind is Byte.
abbrev pub no_tags : Tags
no_tags = record { nil_ok = false; nil_kind = byte_kind; tail = false; ignored = false }

unfoldable pub default_nil_kind : ElemKind → Kind
default_nil_kind other_elem = list_kind
default_nil_kind elem = string_kind

unfoldable pub last_public_from : ℕ → ℕ → List StructField → ℕ
last_public_from last i [] = last
last_public_from last i (f ∷ fs) = last_public_from (if f.exported then i else last) (suc i) fs

unfoldable pub last_public_field : List StructField → ℕ
last_public_field fs = last_public_from 0 0 fs

-- The tags that allow a nil pointer, with the kind that each gives it.
unfoldable pub set_nil : FieldKind → Tags → (ElemKind → Kind) → Parsed Tags
set_nil (pointer elem) ts kind_of = good (record ts { nil_ok = true; nil_kind = kind_of elem })
set_nil kind ts kind_of = bad not_a_pointer

unfoldable pub set_tail : FieldKind → Bool → Tags → Parsed Tags
set_tail kind false ts = bad not_the_last_field
set_tail slice true ts = good (record ts { tail = true })
set_tail kind true ts = bad not_a_slice

unfoldable pub set_word : StructField → Bool → Tags → TagWord → Parsed Tags
set_word f is_last ts empty_word = good ts
set_word f is_last ts dash = good (record ts { ignored = true })
set_word f is_last ts nil_word = set_nil f.kind ts default_nil_kind
set_word f is_last ts nil_string_word = set_nil f.kind ts (λ elem. string_kind)
set_word f is_last ts nil_list_word = set_nil f.kind ts (λ elem. list_kind)
set_word f is_last ts tail_word = set_tail f.kind is_last ts
set_word f is_last ts unknown_word = bad unknown_tag

-- The loop over the words of a tag.
unfoldable pub parse_words : StructField → Bool → Tags → List TagWord → Parsed Tags
parse_words f is_last ts [] = good ts
parse_words f is_last ts (w ∷ ws) = do ts' ← set_word f is_last ts w; parse_words f is_last ts' ws

unfoldable pub parse_struct_tag : StructField → ℕ → ℕ → Parsed Tags
parse_struct_tag f fi last_public = parse_words f (fi == last_public) no_tags f.tag

-- `field`: the index of a field and the tags of its writer and decoder.
pub record Field : Type 0 where
  pub index : ℕ
  pub tags : Tags

abbrev pub keep_field : ℕ → Tags → List Field → List Field
keep_field i ts rest = if ts.ignored then rest else record { index = i; tags = ts } ∷ rest

-- An exported field, before the others.
abbrev pub exported_field : ℕ → ℕ → StructField → Parsed (List Field) → Parsed (List Field)
exported_field last i f rest = do
  ts ← parse_struct_tag f i last
  others ← rest
  good (keep_field i ts others)

-- The loop of `structFields`, from the field at `i`.
unfoldable pub struct_fields_from : ℕ → ℕ → List StructField → Parsed (List Field)
struct_fields_from last i [] = good []
struct_fields_from last i (f ∷ fs) =
    let rest = struct_fields_from last (suc i) fs in
    if f.exported then exported_field last i f rest else rest

unfoldable pub struct_fields : List StructField → Parsed (List Field)
struct_fields fs = struct_fields_from (last_public_field fs) 0 fs

-- The kind that a nil pointer is written as, in makePtrWriter.
unfoldable pub nil_kind_of : FieldKind → Tags → Kind
nil_kind_of (pointer elem) ts = if ts.nil_ok then ts.nil_kind else default_nil_kind elem
nil_kind_of kind ts = list_kind

-- A nil pointer is written as the empty string or the empty list.
unfoldable pub written : FieldKind → Tags → Option Value → Value
written kind ts (some v) = v
written kind ts none = elim (nil_kind_of kind ts) [
  | string_kind ↦ text []
  | list_kind ↦ sequence nil
  | byte_kind ↦ sequence nil
]

abbrev append_values : Values → Values → Values
append_values nil ws = ws
append_values (cons v vs) ws = cons v (append_values vs ws)

-- A tail slice has no list header of its own: its elements go on the struct's list.
unfoldable pub spliced : Tags → Value → Values → Values
spliced ts (sequence vs) rest = if ts.tail then append_values vs rest else cons (sequence vs) rest
spliced ts v rest = cons v rest

-- The writer that makeStructWriter returns, on the values of all the fields; `none` is a nil pointer.
unfoldable pub field_values : List Field → List (StructField × Option Value) → Values
field_values [] values = nil
field_values (f ∷ fs) values =
    let rest = field_values fs values in
    elim (get_elem? values f.index) [
      | none ↦ rest
      | some (t, v) ↦ spliced f.tags (written t.kind f.tags v) rest
    ]

unfoldable pub struct_value : List (StructField × Option Value) → Parsed Value
struct_value values = do
  fs ← struct_fields (map (λ (p : StructField × Option Value). p.0) values)
  good (sequence (field_values fs values))
