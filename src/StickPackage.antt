-- ===== src/StickPackage.antt =====
-- pkg/stickpackage/stickpackage.go, and the split function that connect/server_tcp.go gives to
-- bufio.Scanner. An int16 is its bit pattern, a number below 2^16; bytes are numbers below 256.
-- The writer is a buffer that never fails, as in the callers' use of it.
pub mod Frames
pub mod Overflow
use zhibo.Prelude.{
  ℕ, zero, suc, ◌+◌, ◌-◌, ◌*◌, ◌/◌, ◌%◌, ◌^◌, Bytes, Bool, true, false, Option, none, some, List,
  [], ◌∷◌, ◌++◌, length, take, drop, replicate, ltb, leb, ◌==◌, if◌then◌else◌, ◌&&◌, not, ℤ, pos,
  negsuc, itoa, codes,
}

abbrev pub tcp_header_length : ℕ
tcp_header_length = 4

pub record StickPackage : Type 0 where
  pub version : ℕ × ℕ
  pub len : ℕ
  pub msg : Bytes

abbrev pub version_content : ℕ × ℕ
version_content = (b'v', b'1')

-- A negative int16.
abbrev pub is_negative : ℕ → Bool
is_negative n = leb (2 ^ 15) n

-- GetPackageLength: `4 + int16(len(p.Msg))`, which it also stores.
unfoldable pub get_package_length : StickPackage → ℕ
get_package_length p = (4 + length p.msg % 2 ^ 16) % 2 ^ 16

unfoldable pub with_length : StickPackage → StickPackage
unfolding get_package_length
with_length p = record p { len = get_package_length p }

-- The value of an int16.
abbrev pub value_of : ℕ → ℤ
value_of n = if is_negative n then negsuc (2 ^ 16 - n - 1) else pos n

-- String: `version:%s length:%d msg:%s`.
unfoldable pub string : StickPackage → Bytes
string p =
    codes "version:"
    ++ (p.version.0 ∷ p.version.1 ∷ [])
    ++ codes " length:"
    ++ itoa (value_of p.len)
    ++ codes " msg:"
    ++ p.msg

-- Pack: version, length in big-endian order, message.
unfoldable pub pack : StickPackage → Bytes
pack p = p.version.0 ∷ p.version.1 ∷ (p.len / 256) ∷ (p.len % 256) ∷ p.msg

-- binary.Read of two bytes, as io.ReadFull reads them: short input is used up.
abbrev pub read_two : Bytes → Option (ℕ × ℕ) × Bytes
read_two [] = (none, [])
read_two (a ∷ []) = (none, [])
read_two (a ∷ b ∷ rest) = (some (a, b), rest)

-- How Unpack ends: with the package and whether its last read failed, or by a panic of `make`.
pub data Unpacked : Type 0 where
  unpacked : StickPackage → Bool → Unpacked
  panics : Unpacked

abbrev pub set_version : Option (ℕ × ℕ) → StickPackage → StickPackage
set_version none p = p
set_version (some v) p = record p { version = v }

abbrev pub set_len : Option (ℕ × ℕ) → StickPackage → StickPackage
set_len none p = p
set_len (some (hi, lo)) p = record p { len = hi * 256 + lo }

-- `p.Msg = make([]byte, p.Length-4)` and the read that fills it.
unfoldable pub read_msg : StickPackage → Bytes → Unpacked
read_msg p input =
    let n = (p.len + 2 ^ 16 - 4) % 2 ^ 16 in
    if is_negative n
    then panics
    else if leb n (length input)
    then unpacked (record p { msg = take n input }) false
    else unpacked (record p { msg = replicate n 0 }) true

-- Unpack: only the last read's error is returned.
unfoldable pub unpack : StickPackage → Bytes → Unpacked
unfolding read_msg
unpack p input =
    let (v, rest) = read_two input in
    let (l, rest') = read_two rest in read_msg (set_len l (set_version v p)) rest'

-- new(StickPackage)
abbrev pub new_package : StickPackage
new_package = record { version = (0, 0); len = 0; msg = [] }

-- What the split function answers: a token and how far to advance, a request for more data, or a
-- panic (an index or a slice bound out of range).
pub data Split : Type 0 where
  token : ℕ → Bytes → Split
  more : Split
  panics : Split

-- The frame's length field is there: `len(data) > TcpHeaderLength`.
unfoldable pub split_frame : ℕ → Bytes → Split
split_frame n frame =
    if is_negative n
    then Split.panics
    else if leb n (length frame)
    then token n (take n frame)
    else more

abbrev pub length_field : Bytes → Option ℕ
length_field (a ∷ b ∷ hi ∷ lo ∷ x ∷ rest) = some (hi * 256 + lo)
length_field _ = none

unfoldable pub split_v : Option ℕ → Bytes → Split
unfolding split_frame
split_v none frame = more
split_v (some n) frame = split_frame n frame

-- The function given to `scannerPackage.Split`.
unfoldable pub split : Bytes → Bool → Split
unfolding split_v
split frame true = more
split [] false = Split.panics
split (a ∷ rest) false = if a == b'v' then split_v (length_field (a ∷ rest)) (a ∷ rest) else more

-- The tokens that bufio.Scanner takes from what is in its buffer before it reads again: the rest is
-- kept for the next read. `none` says that a split panicked or that the fuel ran out, as it does on
-- a token that advances by nothing.
abbrev pub cons_token : Bytes → Option (List Bytes × Bytes) → Option (List Bytes × Bytes)
cons_token t none = none
cons_token t (some (ts, rest)) = some (t ∷ ts, rest)

abbrev pub take_token :
    (Bytes → Option (List Bytes × Bytes)) → Bytes → Split → Option (List Bytes × Bytes)
take_token scan_rest input (token n t) = cons_token t (scan_rest (drop n input))
take_token scan_rest input more = some ([], input)
take_token scan_rest input Split.panics = none

unfoldable pub scan : ℕ → Bytes → Option (List Bytes × Bytes)
unfolding split
scan zero input = none
scan (suc fuel) [] = some ([], [])
scan (suc fuel) (a ∷ rest) = take_token (scan fuel) (a ∷ rest) (split (a ∷ rest) false)
