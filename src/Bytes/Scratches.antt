-- ===== src/Bytes/Scratches.antt =====
-- The results of the functions of bufs/encoding.go that write into a scratch buffer.
use go_cedar.Base.{
  ℕ, ◌+◌, ◌-◌, ◌≤◌, ◌<◌, ◌≡◌, refl, List, ◌++◌, length, take, drop, ltb, if◌then◌else◌, ok, panic,
  arith, ◌∙◌, length-append, take-append, length-take, length-drop,
}
use go_cedar.Bytes.{Buf, bytes}
use go_cedar.Bytes.Buffer.{length-zeros}
use go_cedar.Bytes.Scratch.{
  Marshalable, Writes, Base32, slice, up_to_16, up_to_8, scratch, smart_marshal, safe_size,
  encode_left, smart_marshal_to_base32,
}

-- A slice within the array.
slice_ok :
    (n : ℕ) (array : List ℕ)
    → n ≤ length array
    → slice n array ≡ ok (record { array = array; len = n })
unfolding slice
slice_ok n array h = ground arith

slice-panic : (n : ℕ) (array : List ℕ) → length array < n → slice n array ≡ panic
unfolding slice
slice-panic n array h = ground arith

length-scratch :
    (needed size : ℕ) (dst : Buf)
    → length (scratch needed size dst)
      ≡ (if ltb (length dst.array) needed then size else length dst.array)
length-scratch needed size dst = ground (arith, length-zeros size)

-- An array that starts with the result holds it.
slice_append :
    (front rest : List ℕ)
    → slice (length front) (front ++ rest)
      ≡ ok (record { array = front ++ rest; len = length front })
slice_append front rest =
    slice_ok (length front) (front ++ rest) (omega (arith, length-append front rest))

-- `SmartMarshal` of an item that writes bytes gives these bytes; its array is the scratch buffer's, or,
-- where that is smaller than the bytes, a new one of the next multiple of 16 bytes.
pub bytes-smart_marshal :
    (item : Marshalable) (bs : List ℕ) (dst : Buf)
    → Writes item bs
    → (b : Buf) × (smart_marshal item dst ≡ ok b)
      × (bytes b ≡ bs)
      × (length b.array
          ≡ (if ltb (length dst.array) (length bs) then up_to_16 (length bs) else length dst.array))
unfolding smart_marshal
bytes-smart_marshal item bs dst w =
    let n = length bs in
    let array = scratch n (up_to_16 n) dst in
    let s : length array ≡ (if ltb (length dst.array) n then up_to_16 n else length dst.array) =
      length-scratch n (up_to_16 n) dst in
    let fits : n ≤ length array = ground (arith, s) in
    let b : Buf = record { array = bs ++ drop n array; len = n } in
    (
      b,
      rw (w.sized, w.writes (take n array) (length-take n array fits))
          (slice_append bs (drop n array)),
      take-append bs (drop n array),
      omega (arith, length-append bs (drop n array), length-drop n array, fits, s),
    )

-- The capacity of the buffer that `SmartMarshalToBase32` encodes into.
abbrev pub room : ℕ → Buf → ℕ
room n dst =
    if ltb (length dst.array) (safe_size n) then up_to_8 (safe_size n) else length dst.array

module _ (env : Base32) where
  open env use {encode, encode_within, decode, encoded_len, decoded_len}

  encode_left-panic :
      (left : ℕ) (bs array : List ℕ)
      → length array < encoded_len (length bs)
      → encode_left env left (length bs) bs array ≡ panic
  unfolding encode_left
  encode_left-panic left bs array h = rw (slice-panic (encoded_len (length bs)) array h) refl

  -- What is left to do once the item has written its bytes at the right end.
  marshalled :
      (item : Marshalable) (bs : List ℕ) (dst : Buf)
      → Writes item bs
      → (front : List ℕ) × (length front + length bs ≡ room (length bs) dst)
        × (smart_marshal_to_base32 env item dst
            ≡ encode_left env (length front) (length bs) bs (front ++ bs))
  unfolding smart_marshal_to_base32
  marshalled item bs dst w =
      let n = length bs in
      let array = scratch (safe_size n) (up_to_8 (safe_size n)) dst in
      let left = length array - n in
      let s : length array ≡ room n dst =
        length-scratch (safe_size n) (up_to_8 (safe_size n)) dst in
      let fits : n ≤ length array = ground (arith, s) in
      let l : length (take left array) ≡ left = length-take left array (omega arith) in
      (
        take left array,
        omega (arith, l, fits, s),
        rw (w.sized, w.writes (drop left array) (omega (arith, length-drop left array, fits)), l)
            refl,
      )

  -- Where the scratch buffer is not larger than the one that `SmartMarshalToBase32` would allocate, it
  -- panics on every item that writes 41 bytes or more.
  pub long_item-panic :
      (item : Marshalable) (bs : List ℕ) (dst : Buf)
      → Writes item bs
      → 41 ≤ length bs
      → length dst.array ≤ up_to_8 (safe_size (length bs))
      → smart_marshal_to_base32 env item dst ≡ panic
  long_item-panic item bs dst w h small =
      let (front, l, e) = marshalled item bs dst w in
      e
      ∙ encode_left-panic (length front) bs (front ++ bs) ground
          (arith, l, length-append front bs, env.encoded_len_eq (length bs))
