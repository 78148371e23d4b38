-- ===== src/Hashes/LastByte.antt =====
-- `APHash64` of bufs/hash.go stays a 64-bit word and tells buffers apart by their last byte.
use go_cedar.Base.{
  ℕ, suc, ◌%◌, ◌^◌, ◌<◌, ◌≡◌, ◌≢◌, inl, inr, List, [], ◌∷◌, ◌++◌, ◌==◌, bit_xor, Bool-cases, arith,
  bit_xor-lt, bit_xor_cancel_left, bit_xor_cancel_right,
}
use go_cedar.Hashes.{shift_left, shift_right, complement_suc, mix, hash_from, ap_hash64}
use go_cedar.Bytes.RoundTrip.{AreBytes}

xor-word : (a b : ℕ) → a < 2 ^ 64 → b < 2 ^ 64 → bit_xor a b < 2 ^ 64
xor-word a b h g = bit_xor-lt 64 a b h g

inner : ℕ → ℕ → ℕ → ℕ
inner left right b = bit_xor (bit_xor left b) right

inner-word :
    (left right b : ℕ) → left < 2 ^ 64 → right < 2 ^ 64 → b < 256 → inner left right b < 2 ^ 64
unfolding inner
inner-word left right b h g k = xor-word (bit_xor left b) right (xor-word left b h (omega arith)) g

inner_cancel : (left right b c : ℕ) → inner left right b ≡ inner left right c → b ≡ c
unfolding inner
inner_cancel left right b c e =
    bit_xor_cancel_left left b c (bit_xor_cancel_right (bit_xor left b) (bit_xor left c) right e)

complement_cancel :
    (x y : ℕ) → x < 2 ^ 64 → y < 2 ^ 64 → complement_suc x ≡ complement_suc y → x ≡ y
complement_cancel x y h g e = omega arith

mix-word : (i hash b : ℕ) → hash < 2 ^ 64 → b < 256 → mix i hash b < 2 ^ 64
unfolding mix inner
mix-word i hash b h g = elim (Bool-cases (i % 2 == 0)) [
  | inl y ↦ rw y (
      xor-word hash (inner (shift_left hash 7) (shift_right hash 3) b) h
        (inner-word (shift_left hash 7) (shift_right hash 3) b (omega arith) (omega arith) g))
  | inr n ↦ rw n (
      xor-word hash (complement_suc (inner (shift_left hash 11) (shift_right hash 5) b)) h
        (omega arith))
]

-- A round at the same place with different bytes gives different words.
mix_cancel :
    (i hash b c : ℕ) → hash < 2 ^ 64 → b < 256 → c < 256 → mix i hash b ≡ mix i hash c → b ≡ c
unfolding mix inner
mix_cancel i hash b c h g k e = elim (Bool-cases (i % 2 == 0)) [
  | inl y ↦ inner_cancel (shift_left hash 7) (shift_right hash 3) b c (
      bit_xor_cancel_left hash (inner (shift_left hash 7) (shift_right hash 3) b)
        (inner (shift_left hash 7) (shift_right hash 3) c) (rw y at e))
  | inr n ↦
      let x = inner (shift_left hash 11) (shift_right hash 5) b in
      let z = inner (shift_left hash 11) (shift_right hash 5) c in
      let same : complement_suc x ≡ complement_suc z =
        bit_xor_cancel_left hash (complement_suc x) (complement_suc z) (rw n at e) in
      inner_cancel (shift_left hash 11) (shift_right hash 5) b c (
        complement_cancel x z
          (inner-word (shift_left hash 11) (shift_right hash 5) b (omega arith) (omega arith) g)
          (inner-word (shift_left hash 11) (shift_right hash 5) c (omega arith) (omega arith) k)
          same)
]

hash_from-word :
    (i hash : ℕ) (buf : List ℕ) → hash < 2 ^ 64 → AreBytes buf → hash_from i hash buf < 2 ^ 64
unfolding hash_from
hash_from-word i hash [] h a = h
hash_from-word i hash (b ∷ buf) h (g, a) =
    hash_from-word (suc i) (mix i hash b) buf (mix-word i hash b h g) a

hash_from_cancel :
    (i hash : ℕ) (buf : List ℕ) (b c : ℕ)
    → hash < 2 ^ 64
    → AreBytes buf
    → b < 256
    → c < 256
    → hash_from i hash (buf ++ b ∷ []) ≡ hash_from i hash (buf ++ c ∷ [])
    → b ≡ c
unfolding hash_from
hash_from_cancel i hash [] b c h a g k e = mix_cancel i hash b c h g k e
hash_from_cancel i hash (d ∷ buf) b c h (x, a) g k e =
    hash_from_cancel (suc i) (mix i hash d) buf b c (mix-word i hash d h x) a g k e

-- The hash of bytes is below 2 ^ 64, and two buffers of bytes of any length that differ in their last
-- byte alone have different hashes.
pub ap_hash64-last_byte :
    (buf : List ℕ) (b c : ℕ)
    → AreBytes buf
    → b < 256
    → c < 256
    → b ≢ c
    → (ap_hash64 buf < 2 ^ 64) × (ap_hash64 (buf ++ b ∷ []) ≢ ap_hash64 (buf ++ c ∷ []))
unfolding ap_hash64
ap_hash64-last_byte buf b c a g k n = (
  hash_from-word 0 0xaaaaaaaaaaaaaaaa buf (omega arith) a,
  λ e. n (hash_from_cancel 0 0xaaaaaaaaaaaaaaaa buf b c (omega arith) a g k e),
)
