-- ===== src/Rlp/Stream.antt =====
-- rlp/decode.go: Stream, which reads values piece by piece and keeps a stack of the lists that it is
-- in. The reader is a bytes.Reader, as its bytes that are left. A slice that Go allocates before it
-- reads into it is made of what is read; `uintbuf` is scratch space.
pub mod Shapes
pub mod Steps
pub mod Sizes
pub mod Kinds
pub mod Headers
pub mod Reads
pub mod Strings
pub mod Numbers
pub mod Lists
pub mod Elements
pub mod Arrays
pub mod Typed
pub mod RoundTrip
pub mod ZeroByte
pub mod Charges
pub mod Limit
mod Runs
use advance_golang.Base.{
  ℕ, zero, suc, ◌+◌, ◌-◌, ◌*◌, ◌/◌, ◌%◌, ◌^◌, Bool, true, false, ◌&&◌, ◌||◌, not,
}
use advance_golang.Base.{
  Option, none, some, ltb, leb, ◌==◌, if◌then◌else◌, List, [], ◌∷◌, ◌++◌, length, take, drop,
}
use advance_golang.Base.Maps.{Bytes}
use advance_golang.Rlp.Head.{puthead, big_endian}
use advance_golang.Rlp.Raw.{Kind, byte_kind, string_kind, list_kind, first}

-- The errors of rlp/decode.go. `invalid_boolean` is made by Bool.
pub data StreamError : Type 0 where
  eol eof unexpected_eof expected_string expected_list canon_int canon_size : StreamError
  elem_too_large value_too_large more_than_one_value not_in_list not_at_eol : StreamError
  uint_overflow too_few_elements too_long too_short : StreamError
  invalid_boolean : (num : ℕ) → StreamError

-- `stuck` is a loop that has run out of its rounds.
pub data Outcome {κ} (V : Type κ) : Type κ where
  fail : (cause : StreamError) → Outcome V
  done : (value : V) → Outcome V
  stuck : Outcome V

-- `listpos`
pub record ListPos : Type 0 where
  pub pos : ℕ
  pub size : ℕ

-- `kind` is -1 when the kind of the next value is to be read. The innermost list stands first.
pub record Stream : Type 0 where
  pub r : Bytes
  pub remaining : ℕ
  pub limited : Bool
  pub kind : Option Kind
  pub size : ℕ
  pub byteval : ℕ
  pub kinderr : Option StreamError
  pub stack : List ListPos

-- A method returns the stream as it leaves it, also with an error.
abbrev pub Reading {κ} : Type κ → Type κ
Reading V = Stream → Stream × Outcome V

abbrev pub continue {κ ℓ} :
    {V : Type κ} {W : Type ℓ} → Stream × Outcome V → (V → Reading W) → Stream × Outcome W
continue (s, fail e) f = (s, fail e)
continue (s, stuck) f = (s, stuck)
continue (s, done v) f = f v s

infixl 5 ◌>>=◌
abbrev pub ◌>>=◌ {κ ℓ} : {V : Type κ} {W : Type ℓ} → Reading V → (V → Reading W) → Reading W
◌>>=◌ m f s = continue (m s) f

-- uint64 arithmetic
abbrev pub sub64 : ℕ → ℕ → ℕ
sub64 a b = (a + 2 ^ 64 - b) % 2 ^ 64

abbrev pub add64 : ℕ → ℕ → ℕ
add64 a b = (a + b) % 2 ^ 64

-- `Reset` on a bytes.Reader.
unfoldable pub reset : Bytes → ℕ → Stream
reset b input_limit = record {
  r = b;
  remaining = if ltb 0 input_limit then input_limit else length b;
  limited = true;
  kind = none;
  size = 0;
  byteval = 0;
  kinderr = none;
  stack = [];
}

-- `s.kind = -1`
abbrev pub rearm : Stream → Stream
rearm s = record s { kind = none }

-- The innermost list has no room for `n` bytes.
unfoldable pub overflows : List ListPos → ℕ → Bool
overflows [] n = false
overflows (tos ∷ outer) n = ltb (sub64 tos.size tos.pos) n

unfoldable pub moved : List ListPos → ℕ → List ListPos
moved [] n = []
moved (tos ∷ outer) n = record tos { pos = add64 tos.pos n } ∷ outer

-- The check of the limit, once the list has been seen to have room.
unfoldable pub take_remaining : Stream → ℕ → Stream × Outcome (Unit {0})
take_remaining s n =
    if s.limited
    then (if ltb s.remaining n
        then (s, fail value_too_large)
        else (record s { remaining = s.remaining - n }, done tt))
    else (s, done tt)

unfoldable pub will_read : ℕ → Reading (Unit {0})
will_read n s =
    if overflows s.stack n
    then (rearm s, fail elem_too_large)
    else take_remaining (record s { kind = none; stack = moved s.stack n }) n

-- `s.r.ReadByte()`
unfoldable pub next_byte : Reading ℕ
next_byte s = elim s.r [
  | [] ↦ (s, fail unexpected_eof)
  | b ∷ more ↦ (record s { r = more }, done b)
]

-- The loop over `s.r.Read`: all that is asked for, or all there is and an error.
unfoldable pub next_bytes : ℕ → Reading Bytes
next_bytes n s =
    if ltb (length s.r) n
    then (record s { r = [] }, fail unexpected_eof)
    else (record s { r = drop n s.r }, done (take n s.r))

unfoldable pub read_byte : Reading ℕ
read_byte = do _ ← will_read 1; next_byte

unfoldable pub read_full : ℕ → Reading Bytes
read_full n = do _ ← will_read n; next_bytes n

-- No leading zero.
unfoldable pub canonical : Bytes → Reading ℕ
canonical buf s = (s, if first buf == 0 then fail canon_size else done (big_endian buf))

unfoldable pub read_uint : ℕ → Reading ℕ
read_uint zero s = (rearm s, done 0)
read_uint (suc zero) s = read_byte s
read_uint (suc (suc n)) s = (do buf ← read_full (suc (suc n)); canonical buf) s

-- At the top level the end of the input is EOF.
unfoldable pub top_error : List ListPos → StreamError → StreamError
top_error [] unexpected_eof = eof
top_error [] value_too_large = eof
top_error stack e = e

-- `size, err = s.readUint(n)`, and the check of a long size.
unfoldable pub long_size : Kind → Outcome ℕ → Kind × ℕ × Option StreamError
long_size k (fail e) = (k, 0, some e)
long_size k stuck = (k, 0, none)
long_size k (done n) = (k, n, if ltb n 56 then some canon_size else none)

-- The switch of `readKind` on the byte that was read.
unfoldable pub kind_of_byte : ℕ → Stream → Stream × (Kind × ℕ × Option StreamError)
kind_of_byte b s =
    let (s1, n) = read_uint (b - 0xB7) s in
    let (s2, m) = read_uint (b - 0xF7) s in
    if ltb b 0x80
    then (record s { byteval = b }, (byte_kind, 0, none))
    else if ltb b 0xB8
    then (s, (string_kind, b - 0x80, none))
    else if ltb b 0xC0
    then (s1, long_size string_kind n)
    else if ltb b 0xF8
    then (s, (list_kind, b - 0xC0, none))
    else (s2, long_size list_kind m)

-- With an error of the first byte the kind is that of Go's zero value.
unfoldable pub kind_after :
    List ListPos → Stream × Outcome ℕ → Stream × (Kind × ℕ × Option StreamError)
kind_after stack (s, fail e) = (s, (byte_kind, 0, some (top_error stack e)))
kind_after stack (s, stuck) = (s, (byte_kind, 0, none))
kind_after stack (s, done b) = kind_of_byte b (record s { byteval = 0 })

unfoldable pub read_kind : Stream → Stream × (Kind × ℕ × Option StreamError)
read_kind s = kind_after s.stack (read_byte s)

-- The value against what is left of the input or of the innermost list.
unfoldable pub too_large : List ListPos → Stream → ℕ → Option StreamError
too_large [] s n = if s.limited && ltb s.remaining n then some value_too_large else none
too_large (tos ∷ outer) s n = if ltb (sub64 tos.size tos.pos) n then some elem_too_large else none

unfoldable pub at_end : List ListPos → Bool
at_end [] = false
at_end (tos ∷ outer) = tos.pos == tos.size

-- What was read is kept until the value is decoded, an error too.
unfoldable pub keep_kind : Stream × (Kind × ℕ × Option StreamError) → Stream
keep_kind (s, (k, n, e)) = record s {
  kind = some k;
  size = n;
  kinderr = elim e [ some x ↦ some x | none ↦ too_large s.stack s n ];
}

unfoldable pub kept_kind : Stream → Kind → Stream × Outcome (Kind × ℕ)
kept_kind s k = (s, elim s.kinderr [ some e ↦ fail e | none ↦ done (k, s.size) ])

-- The kind is read when none is kept, unless the list ends here.
unfoldable pub known_or_read : Option Kind → Reading (Kind × ℕ)
known_or_read (some k) s = kept_kind s k
known_or_read none s =
    let s1 = record s { kinderr = none } in
    let read = read_kind s1 in
    if at_end s.stack then (s1, fail eol) else kept_kind (keep_kind read) read.1.0

-- `Kind`. Go returns kind and size with an error as well, which no caller reads.
unfoldable pub next_kind : Reading (Kind × ℕ)
next_kind s = known_or_read s.kind s

-- A byte below 128 is encoded as itself.
unfoldable pub no_single : Bytes → Reading Bytes
no_single b s = (s, if length b == 1 && ltb (first b) 128 then fail canon_size else done b)

unfoldable pub read_bytes : Reading Bytes
read_bytes = do
  (k, n) ← next_kind
  λ s. elim k [
    | byte_kind ↦ (rearm s, done (s.byteval ∷ []))
    | string_kind ↦ (do b ← read_full n; no_single b) s
    | list_kind ↦ (s, fail expected_string)
  ]

-- The header is put again before the content.
unfoldable pub read_raw : Reading Bytes
read_raw = do
  (k, n) ← next_kind
  λ s. elim k [
    | byte_kind ↦ (rearm s, done (s.byteval ∷ []))
    | string_kind ↦ (do b ← read_full n; λ t. (t, done (puthead 0x80 0xB7 n ++ b))) s
    | list_kind ↦ (do b ← read_full n; λ t. (t, done (puthead 0xC0 0xF7 n ++ b))) s
  ]

-- The error of a size is adjusted, and a number below 128 is its own byte.
unfoldable pub checked_uint : ℕ → Outcome ℕ → Outcome ℕ
checked_uint n (fail canon_size) = fail canon_int
checked_uint n (fail e) = fail e
checked_uint n stuck = stuck
checked_uint n (done v) = if ltb 0 n && ltb v 128 then fail canon_size else done v

unfoldable pub string_uint : ℕ → ℕ → Reading ℕ
string_uint max_bits n s =
    let (s1, v) = read_uint n s in
    if ltb (max_bits / 8) n then (s, fail uint_overflow) else (s1, checked_uint n v)

-- `uint`
unfoldable pub read_number : ℕ → Reading ℕ
read_number max_bits = do
  (k, n) ← next_kind
  λ s. elim k [
    | byte_kind ↦ if s.byteval == 0 then (s, fail canon_int) else (rearm s, done s.byteval)
    | string_kind ↦ string_uint max_bits n s
    | list_kind ↦ (s, fail expected_string)
  ]

unfoldable pub read_uint64 : Reading ℕ
read_uint64 = read_number 64

unfoldable pub to_bool : ℕ → Outcome Bool
to_bool n = if n == 0 then done false else if n == 1 then done true else fail (invalid_boolean n)

unfoldable pub read_bool : Reading Bool
read_bool = do n ← read_number 8; λ s. (s, to_bool n)

-- `List`: the list is entered.
unfoldable pub enter_list : Reading ℕ
enter_list = do
  (k, n) ← next_kind
  λ s. elim k [
    | list_kind ↦
        let pos : ListPos = record { pos = 0; size = n } in
        (record s { stack = pos ∷ s.stack; kind = none; size = 0 }, done n)
    | byte_kind ↦ (s, fail expected_list)
    | string_kind ↦ (s, fail expected_list)
  ]

-- `ListEnd`: the enclosing list moves on by the size of the list that ends.
unfoldable pub leave_from : List ListPos → Reading (Unit {0})
leave_from [] s = (s, fail not_in_list)
leave_from (tos ∷ outer) s =
    if tos.pos == tos.size
    then (record s { stack = moved outer tos.size; kind = none; size = 0 }, done tt)
    else (s, fail not_at_eol)

unfoldable pub leave_list : Reading (Unit {0})
leave_list s = leave_from s.stack s
