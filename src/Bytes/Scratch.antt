-- ===== src/Bytes/Scratch.antt =====
-- `SmartMarshal`, `SmartMarshalToBase32` and `SmartDecodeFromBase32` of bufs/encoding.go, which write
-- into a scratch buffer and allocate another one where it is too small. Items are whatever implements
-- `Marshalable`. The base 32 text is that of encoding/base32, a parameter with its documented lengths.
-- `Encode` takes 5 bytes and writes their 8 digits, from left to right, on which the code relies where
-- its source and its result overlap in one array.
use go_cedar.Base.{
  ℕ, ◌+◌, ◌-◌, ◌*◌, ◌/◌, ◌≤◌, ◌<◌, ◌≡◌, List, ◌++◌, Bool, true, Option, some, length, take, drop,
  ltb, leb, if◌then◌else◌, Outcome, ok, panic, ◌>>=◌, or_panic,
}
use go_cedar.Bytes.{zeros, Buf}
use go_cedar.Bytes.RoundTrip.{AreBytes}

-- `marshal_to_sized_buffer` gives the contents of the buffer after the call and the count it returns,
-- or `none` for an error.
pub record Marshalable : Type 0 where
  pub size : ℕ
  pub marshal_to_sized_buffer : List ℕ → Option (List ℕ × ℕ)

-- The item writes these bytes, and all of them, to a buffer of its size, as a generated marshaller does.
pub record Writes (item : Marshalable) (bs : List ℕ) : Type 0 where
  pub sized : item.size ≡ length bs
  pub writes :
      (buf : List ℕ)
      → length buf ≡ length bs
      → item.marshal_to_sized_buffer buf ≡ some (bs, length bs)

-- encoding/base32 with an alphabet and no padding. `decode` gives the bytes that were decoded, and
-- whether there was no error. `encode_within array from n` is what an array holds after `Encode` of
-- its `n` bytes at `from` to its left end: the text of these bytes, if no block of 5 bytes is written
-- over by the blocks before it. Of other overlaps nothing is known.
pub record Base32 : Type 0 where
  pub encode : List ℕ → List ℕ
  pub decode : List ℕ → List ℕ × Bool
  pub encoded_len : ℕ → ℕ
  pub decoded_len : ℕ → ℕ
  pub encoded_len_eq : (n : ℕ) → encoded_len n ≡ (8 * n + 4) / 5
  pub decoded_len_eq : (n : ℕ) → decoded_len n ≡ n * 5 / 8
  pub length-encode : (bs : List ℕ) → length (encode bs) ≡ encoded_len (length bs)
  pub length-decode : (text : List ℕ) → length (decode text).0 ≤ decoded_len (length text)
  pub encode_within : List ℕ → ℕ → ℕ → List ℕ
  pub take-encode_within :
      (array : List ℕ) (from n : ℕ)
      → from + n ≤ length array
      → encoded_len n ≤ length array
      → ((k : ℕ) → 5 * k < n → 8 * k ≤ from + 5 * k)
      → take (encoded_len n) (encode_within array from n) ≡ encode (take n (drop from array))
  pub decode-encode : (bs : List ℕ) → AreBytes bs → decode (encode bs) ≡ (bs, true)

-- `buf[:n]`
unfoldable pub slice : ℕ → List ℕ → Outcome Buf
slice n array = if leb n (length array) then ok (record { array = array; len = n }) else panic

-- `(n + 15) &^ 15` and `(n + 7) &^ 7`
abbrev pub up_to_16 : ℕ → ℕ
up_to_16 n = (n + 15) / 16 * 16

abbrev pub up_to_8 : ℕ → ℕ
up_to_8 n = (n + 7) / 8 * 8

-- The array of the scratch buffer, or a new one of `size` bytes where `needed` does not fit.
abbrev pub scratch : ℕ → ℕ → Buf → List ℕ
scratch needed size dst = if ltb (length dst.array) needed then zeros size else dst.array

unfoldable pub smart_marshal : Marshalable → Buf → Outcome Buf
smart_marshal item dst =
    let array = scratch item.size (up_to_16 item.size) dst in
    or_panic (item.marshal_to_sized_buffer (take item.size array)) >>= λ (written, n).
    slice n (written ++ drop item.size array)

-- `4 + 4*((binSz+2)/3)`
abbrev pub safe_size : ℕ → ℕ
safe_size n = 4 + 4 * ((n + 2) / 3)

module _ (env : Base32) where
  open env use {encode_within, decode, encoded_len, decoded_len}

  -- Encodes the first `n` of the bytes that were written at `left` to the left end of the same array.
  unfoldable pub encode_left : ℕ → ℕ → List ℕ → List ℕ → Outcome Buf
  encode_left left n written array = slice (encoded_len n) array >>= λ dst.
      slice n written >>= λ src. ok (record dst { array = encode_within array left src.len })

  unfoldable pub smart_marshal_to_base32 : Marshalable → Buf → Outcome Buf
  smart_marshal_to_base32 item dst =
      let array = scratch (safe_size item.size) (up_to_8 (safe_size item.size)) dst in
      let left = length array - item.size in
      or_panic (item.marshal_to_sized_buffer (drop left array)) >>= λ (written, n).
      encode_left left n written (take left array ++ written)

  -- The result is the slice and whether there was no error.
  unfoldable pub smart_decode_from_base32 : List ℕ → Buf → Outcome (Buf × Bool)
  smart_decode_from_base32 src dst =
      let n = decoded_len (length src) in
      let array = scratch n (up_to_8 n) dst in
      let (decoded, no_error) = decode src in
      slice (length decoded) (decoded ++ drop (length decoded) array) >>= λ b. ok (b, no_error)
