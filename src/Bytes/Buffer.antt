-- ===== src/Bytes/Buffer.antt =====
-- `Buf.Unmarshal` of bufs/encoding.go.
use go_cedar.Base.{
  ℕ, zero, suc, ◌+◌, ◌%◌, ◌<◌, ◌≤◌, ◌≡◌, refl, List, [], ◌∷◌, length, take, ltb, if◌then◌else◌,
  arith, ap, ◌∙◌,
}
use go_cedar.Bytes.{zeros, Buf, bytes, copy_into, alloc_size, unmarshal}

pub length-zeros : (n : ℕ) → length (zeros n) ≡ n
length-zeros zero = refl
length-zeros (suc n) = ap suc (length-zeros n)

length-copy_into : (n : ℕ) (array src : List ℕ) → length (copy_into n array src) ≡ length array
length-copy_into zero array src = refl
length-copy_into (suc n) [] src = refl
length-copy_into (suc n) (a ∷ array) [] = refl
length-copy_into (suc n) (a ∷ array) (b ∷ src) = ap suc (length-copy_into n array src)

take-copy_into :
    (array src : List ℕ)
    → length src ≤ length array
    → take (length src) (copy_into (length src) array src) ≡ src
take-copy_into array [] h = refl
take-copy_into [] (b ∷ src) h = absurd (omega arith)
take-copy_into (a ∷ array) (b ∷ src) h = ap (λ l. b ∷ l) (take-copy_into array src (omega arith))

-- The buffer holds the source's bytes; its array stays as large as it was where they fit, and is
-- otherwise the next multiple of 128 bytes.
pub bytes-unmarshal :
    (src : List ℕ) (buf : Buf)
    → (bytes (unmarshal src buf) ≡ src)
      × (length src ≤ length (unmarshal src buf).array)
      × (length (unmarshal src buf).array ≡ (
          if ltb (length buf.array) (length src)
          then alloc_size (length src)
          else length buf.array))
      × (alloc_size (length src) % 128 ≡ 0)
      × (alloc_size (length src) < length src + 128)
unfolding unmarshal alloc_size
bytes-unmarshal src buf =
    let array =
      if ltb (length buf.array) (length src) then zeros (alloc_size (length src)) else buf.array in
    let fits : length src ≤ length array =
      unfold alloc_size in ground (arith, length-zeros (alloc_size (length src))) in
    (
      take-copy_into array src fits,
      omega (arith, length-copy_into (length src) array src, fits),
      length-copy_into (length src) array src
          ∙ ground (arith, length-zeros (alloc_size (length src))),
      omega arith,
      omega arith,
    )
