-- ===== src/Bytes.antt =====
-- bufs/encoding.go: `Bytes` as hexadecimal text, and the reusable buffer `Buf`. A byte is a number
-- below 256; text is the list of its bytes.
pub mod RoundTrip
pub mod Buffer
pub mod Scratch
pub mod Scratches
pub mod Desc
mod Tests
mod ScratchTests
use go_cedar.Base.{
  ℕ, zero, suc, ◌+◌, ◌-◌, ◌*◌, ◌/◌, ◌%◌, List, [], ◌∷◌, ◌++◌, Bool, true, false, ◌&&◌, ◌||◌, Option,
  none, some, length, get_elem?, take, drop, ltb, leb, ◌==◌, if◌then◌else◌,
}

-- The errors of `UnmarshalText` and `UnmarshalJSON`; `invalid_byte` and `odd_length` are those of
-- encoding/hex.
pub data TextError : Type 0 where
  non_string odd_length : TextError
  invalid_byte : ℕ → TextError

pub data Result {ℓ} (A : Type ℓ) : Type ℓ where
  decoded : A → Result A
  failed : TextError → Result A

-- encoding/hex
abbrev pub hex_digit : ℕ → ℕ
hex_digit n = if ltb n 10 then b'0' + n else b'a' + (n - 10)

unfoldable pub hex_encode : List ℕ → List ℕ
hex_encode [] = []
hex_encode (b ∷ bs) = hex_digit (b / 16) ∷ hex_digit (b % 16) ∷ hex_encode bs

unfoldable pub from_hex_digit : ℕ → Option ℕ
from_hex_digit c =
    if leb b'0' c && leb c b'9'
    then some (c - b'0')
    else if leb b'a' c && leb c b'f'
    then some (c - b'a' + 10)
    else if leb b'A' c && leb c b'F'
    then some (c - b'A' + 10)
    else none

abbrev pub decoded_cons : ℕ → Result (List ℕ) → Result (List ℕ)
decoded_cons b (decoded bs) = decoded (b ∷ bs)
decoded_cons b (failed e) = failed e

unfoldable pub hex_decode : List ℕ → Result (List ℕ)
hex_decode [] = decoded []
hex_decode (p ∷ []) = elim (from_hex_digit p) [
  | none ↦ failed (invalid_byte p)
  | some a ↦ failed odd_length
]
hex_decode (p ∷ q ∷ rest) =
    let tail = hex_decode rest in
    elim (from_hex_digit p) [
      | none ↦ failed (invalid_byte p)
      | some a ↦ elim (from_hex_digit q) [
        | none ↦ failed (invalid_byte q)
        | some b ↦ decoded_cons (a * 16 + b) tail
      ]
    ]

unfoldable pub marshal_text : List ℕ → List ℕ
marshal_text bs = b'0' ∷ b'x' ∷ hex_encode bs

-- The prefix "0x" or "0X" is taken off. There is no error.
unfoldable pub check_text : List ℕ → List ℕ
check_text (x ∷ y ∷ rest) =
    if (x == b'0') && ((y == b'x') || (y == b'X')) then rest else x ∷ y ∷ rest
check_text text = text

-- The receiver is set when there is no error.
unfoldable pub unmarshal_text : List ℕ → Result (List ℕ)
unmarshal_text input = hex_decode (check_text input)

unfoldable pub is_string : List ℕ → Bool
is_string [] = false
is_string (c ∷ input) = elim (get_elem? input (length input - 1)) [
  | none ↦ false
  | some d ↦ (c == b'"') && (d == b'"')
]

-- `in[1:len(in)-1]`
abbrev pub unquote : List ℕ → List ℕ
unquote input = take (length input - 2) (drop 1 input)

-- `wrapTypeError` returns the errors of encoding/hex as they are.
unfoldable pub unmarshal_json : List ℕ → Result (List ℕ)
unmarshal_json input = if is_string input then unmarshal_text (unquote input) else failed non_string

abbrev pub zeros : ℕ → List ℕ
zeros zero = []
zeros (suc n) = 0 ∷ zeros n

-- `Zero`
unfoldable pub zero_out : List ℕ → List ℕ
zero_out [] = []
zero_out (b ∷ bs) = 0 ∷ zero_out bs

-- A slice: the array behind it up to its capacity, and its length.
pub record Buf : Type 0 where
  pub array : List ℕ
  pub len : ℕ

abbrev pub bytes : Buf → List ℕ
bytes b = take b.len b.array

-- `copy(dst, src)` into the start of an array, of the bytes that both have room for.
abbrev pub copy_into : ℕ → List ℕ → List ℕ → List ℕ
copy_into zero array src = array
copy_into (suc n) [] src = []
copy_into (suc n) (a ∷ array) [] = a ∷ array
copy_into (suc n) (a ∷ array) (b ∷ src) = b ∷ copy_into n array src

unfoldable pub alloc_size : ℕ → ℕ
alloc_size n = (n + 127) / 128 * 128

-- `Buf.Unmarshal`
unfoldable pub unmarshal : List ℕ → Buf → Buf
unmarshal src buf =
    let n = length src in
    let array = if ltb (length buf.array) n then zeros (alloc_size n) else buf.array in
    record { array = copy_into n array src; len = n }
