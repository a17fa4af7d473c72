-- ===== src/Rlp/Encode.antt =====
-- rlp/encode.go: encbuf, which collects the string data and the list headers apart, and the
-- writers. Go's reflection picks a writer by a value's type; here the value carries the choice.
pub mod Spec
pub mod Layout
pub mod Refine
pub mod RoundTrip
pub mod Unique
pub mod Pieces
use advance_golang.Base.{ℕ, zero, suc, ◌+◌, ◌-◌, Bool, true, false, ◌&&◌}
use advance_golang.Base.{ltb, leb, ◌==◌, if◌then◌else◌, List, [], ◌∷◌, ◌++◌, length, take, drop}
use advance_golang.Base.Maps.{Bytes}
use advance_golang.Rlp.Head.{byte, putint, puthead, intsize}
use advance_golang.Rlp.Raw.{first}
use advance_golang.Rlp.Result.{Result, ok, err, negative_big_int, ◌>>=◌}

pub record ListHead : Type 0 where
  pub offset : ℕ
  pub size : ℕ

-- `sizebuf` is scratch space that no operation reads before it writes; it is left out.
pub record EncBuf : Type 0 where
  pub str : Bytes
  pub lheads : List ListHead
  pub lhsize : ℕ

abbrev pub reset : EncBuf
reset = record { str = []; lheads = []; lhsize = 0 }

unfoldable pub size : EncBuf → ℕ
size w = length w.str + w.lhsize

unfoldable pub write : EncBuf → Bytes → EncBuf
write w b = record w { str = w.str ++ b }

unfoldable pub encode_string_header : EncBuf → ℕ → EncBuf
encode_string_header w n =
    if ltb n 56
    then write w (byte (0x80 + n) ∷ [])
    else write w (byte (0xB7 + length (putint n)) ∷ putint n)

unfoldable pub encode_string : EncBuf → Bytes → EncBuf
encode_string w b =
    if length b == 1 && leb (first b) 0x7F
    then write w (first b ∷ [])
    else write (encode_string_header w (length b)) b

-- `list` returns a pointer to the header that it appends: here its index in `lheads`.
unfoldable pub list : EncBuf → ℕ × EncBuf
list w = (
  length w.lheads,
  record w { lheads = w.lheads ++ (record { offset = length w.str; size = w.lhsize } ∷ []) },
)

-- `lh.size = n` through the pointer
unfoldable pub update : List ListHead → ℕ → (ListHead → ListHead) → List ListHead
update [] i f = []
update (h ∷ hs) zero f = f h ∷ hs
update (h ∷ hs) (suc i) f = h ∷ update hs i f

unfoldable pub header_at : List ListHead → ℕ → ListHead
header_at [] i = record { offset = 0; size = 0 }
header_at (h ∷ hs) zero = h
header_at (h ∷ hs) (suc i) = header_at hs i

unfoldable pub list_end : EncBuf → ℕ → EncBuf
list_end w i =
    let lh = header_at w.lheads i in
    let n = size w - lh.offset - lh.size in
    record w {
      lheads = update w.lheads i (λ h. record h { size = n });
      lhsize = w.lhsize + (if ltb n 56 then 1 else 1 + intsize n);
    }

-- The loop of `toBytes` over the headers, and the string data after the last one.
unfoldable pub copy_out : ℕ → List ListHead → Bytes → Bytes
copy_out strpos [] str = drop strpos str
copy_out strpos (head ∷ heads) str =
    take (head.offset - strpos) (drop strpos str)
    ++ (puthead 0xC0 0xF7 head.size ++ copy_out head.offset heads str)

unfoldable pub to_bytes : EncBuf → Bytes
to_bytes w = copy_out 0 w.lheads w.str

-- A big.Int as its sign and the big-endian bytes of its absolute value, `Bytes()`.
pub data BigInt : Type 0 where
  negative : Bytes → BigInt
  non_negative : Bytes → BigInt

mutual
  -- The values that the writers are made for. `text` is a string, a byte slice or a byte array;
  -- `sequence` is a struct or a slice, whose fields or elements are written in order.
  pub data Value : Type 0 where
    text : Bytes → Value
    uint : ℕ → Value
    boolean : Bool → Value
    big : BigInt → Value
    raw : Bytes → Value
    sequence : Values → Value

  pub data Values : Type 0 where
    nil : Values
    cons : Value → Values → Values

unfoldable pub write_uint : EncBuf → ℕ → EncBuf
write_uint w i =
    if i == 0
    then write w (0x80 ∷ [])
    else if ltb i 128
    then write w (byte i ∷ [])
    else write w (byte (0x80 + length (putint i)) ∷ putint i)

unfoldable pub write_bool : EncBuf → Bool → EncBuf
write_bool w true = write w (0x01 ∷ [])
write_bool w false = write w (0x80 ∷ [])

unfoldable pub write_big_int : EncBuf → BigInt → Result EncBuf
write_big_int w (negative b) = err negative_big_int
write_big_int w (non_negative []) = ok (write w (0x80 ∷ []))
write_big_int w (non_negative (b ∷ bs)) = ok (encode_string w (b ∷ bs))

unfoldable mutual
  pub write_value : Value → EncBuf → Result EncBuf
  write_value (text b) w = ok (encode_string w b)
  write_value (uint i) w = ok (write_uint w i)
  write_value (boolean b) w = ok (write_bool w b)
  write_value (big i) w = write_big_int w i
  write_value (raw b) w = ok (write w b)
  write_value (sequence vs) w = do w' ← write_values vs (list w).1; ok (list_end w' (list w).0)

  pub write_values : Values → EncBuf → Result EncBuf
  write_values nil w = ok w
  write_values (cons v vs) w = do w' ← write_value v w; write_values vs w'

unfoldable pub encode_to_bytes : Value → Result Bytes
encode_to_bytes v = do w ← write_value v reset; ok (to_bytes w)
