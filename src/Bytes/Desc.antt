-- ===== src/Bytes/Desc.antt =====
-- `BufDesc` and `Bytes.String` of bufs/encoding.go: short texts for logs.
use go_cedar.Base.{
  ℕ, ◌≤◌, ◌≡◌, ap, inl, inr, List, [], ◌∷◌, ◌++◌, Bool, true, false, ◌&&◌, length, take,
  length-take, length-append, ltb, leb, if◌then◌else◌, Bool-cases, arith, ltb→lt, le→ltb_false,
}
use go_cedar.Bytes.{hex_encode}
use go_cedar.Bytes.Scratch.{Base32}

abbrev pub is_ascii : ℕ → Bool
is_ascii b = leb 32 b && leb b 126

abbrev pub already_ascii : List ℕ → Bool
already_ascii [] = true
already_ascii (b ∷ buf) = is_ascii b && already_ascii buf

-- The bytes of "…".
abbrev pub ellipsis : List ℕ
ellipsis = 0xE2 ∷ 0x80 ∷ 0xA6 ∷ []

abbrev pub limit : ℕ
limit = 12

unfoldable pub shown : Base32 → Bool → List ℕ → List ℕ
shown base32 ascii buf = if ascii then buf else base32.encode buf

unfoldable pub buf_desc : Base32 → List ℕ → List ℕ
buf_desc base32 [] = b'n' ∷ b'i' ∷ b'l' ∷ []
buf_desc base32 (b ∷ bs) =
    let buf = b ∷ bs in
    if ltb limit (length buf)
    then shown base32 (already_ascii buf) (take limit buf) ++ ellipsis
    else shown base32 (already_ascii buf) buf

-- `Bytes.String`
unfoldable pub string : List ℕ → List ℕ
string bs = b'0' ∷ b'x' ∷ hex_encode bs

shown-length :
    (base32 : Base32) (ascii : Bool) (buf : List ℕ)
    → length buf ≤ limit
    → length (shown base32 ascii buf) ≤ 20
unfolding shown
shown-length base32 true buf h = omega arith
shown-length base32 false buf h =
    omega (arith, base32.length-encode buf, base32.encoded_len_eq (length buf))

-- The text for a buffer of any length has at most 23 bytes.
pub length-buf_desc : (base32 : Base32) (buf : List ℕ) → length (buf_desc base32 buf) ≤ 23
unfolding buf_desc
length-buf_desc base32 [] = omega arith
length-buf_desc base32 (b ∷ bs) =
    let buf = b ∷ bs in
    let a = already_ascii buf in
    elim (Bool-cases (ltb limit (length buf))) [
      | inl y ↦
          let cut = length-take {0} limit buf (omega (arith, ltb→lt limit (length buf) y)) in
          rw y (
            omega (
              arith,
              length-append {0} (shown base32 a (take limit buf)) ellipsis,
              shown-length base32 a (take limit buf) (omega (arith, cut)),
            ))
      | inr n ↦ rw n (omega (arith, shown-length base32 a buf (ground (arith, n))))
    ]

-- A buffer of one to 12 printable bytes is shown as it is.
pub buf_desc-ascii :
    (base32 : Base32) (b : ℕ) (bs : List ℕ)
    → already_ascii (b ∷ bs) ≡ true
    → length (b ∷ bs) ≤ limit
    → buf_desc base32 (b ∷ bs) ≡ b ∷ bs
unfolding buf_desc shown
buf_desc-ascii base32 b bs a l =
    rw (le→ltb_false limit (length (b ∷ bs)) l)
      (ap (λ t. if t then b ∷ bs else base32.encode (b ∷ bs)) a)
