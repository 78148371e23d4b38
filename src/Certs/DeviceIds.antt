-- ===== src/Certs/DeviceIds.antt =====
-- The identifiers of utils/certs.go tell the keys on a curve apart.
use go_cedar.Base.{
  ℕ, zero, suc, ◌+◌, ◌*◌, ◌/◌, ◌%◌, ◌<◌, ◌≡◌, refl, ap, ◌∙◌, sym, ◌⊎◌, inl, inr, List, [], ◌∷◌,
  ◌++◌, arith, subst,
}
use go_cedar.Bytes.{hex_encode, hex_decode, Result, decoded}
use go_cedar.Bytes.RoundTrip.{AreBytes, hex_decode-hex_encode}
use go_cedar.Certs.{Point, ecdsa_public, big_endian, marshal_compressed, device_id_from_x509_pubkey}

-- The number that bytes stand for, behind others.
abbrev pub number_of : ℕ → List ℕ → ℕ
number_of n [] = n
number_of n (b ∷ bs) = number_of (n * 256 + b) bs

-- 256 to the power of a size.
abbrev pub room : ℕ → ℕ
room zero = 1
room (suc size) = room size * 256

number_of-snoc :
    (n : ℕ) (bs : List ℕ) (b : ℕ) → number_of n (bs ++ b ∷ []) ≡ number_of n bs * 256 + b
number_of-snoc n [] b = refl
number_of-snoc n (c ∷ bs) b = number_of-snoc (n * 256 + c) bs b

number_of-big_endian : (size n : ℕ) → n < room size → number_of 0 (big_endian size n) ≡ n
unfolding big_endian
number_of-big_endian zero n h = omega arith
number_of-big_endian (suc size) n h = omega (
  arith,
  number_of-snoc 0 (big_endian size (n / 256)) (n % 256),
  number_of-big_endian size (n / 256) (omega arith),
)

AreBytes-snoc : (bs : List ℕ) (b : ℕ) → AreBytes bs → b < 256 → AreBytes (bs ++ b ∷ [])
AreBytes-snoc [] b a h = (h, tt)
AreBytes-snoc (c ∷ bs) b (g, a) h = (g, AreBytes-snoc bs b a h)

big_endian-AreBytes : (size n : ℕ) → AreBytes (big_endian size n)
unfolding big_endian
big_endian-AreBytes zero n = tt
big_endian-AreBytes (suc size) n =
    AreBytes-snoc (big_endian size (n / 256)) (n % 256) (big_endian-AreBytes size (n / 256))
      (omega arith)

marshal-AreBytes : (p : Point) → AreBytes (marshal_compressed p)
unfolding marshal_compressed
marshal-AreBytes p = (omega arith, big_endian-AreBytes p.size p.x)

bytes_of : Result (List ℕ) → List ℕ
bytes_of (decoded bs) = bs
bytes_of (Result.failed e) = []

-- What `hex.EncodeToString` prints of bytes determines them.
hex_encode_cancel :
    (bs cs : List ℕ) → AreBytes bs → AreBytes cs → hex_encode bs ≡ hex_encode cs → bs ≡ cs
unfolding bytes_of
hex_encode_cancel bs cs a b e =
    ap bytes_of (sym (hex_decode-hex_encode bs a) ∙ ap hex_decode e ∙ hex_decode-hex_encode cs b)

-- On a curve whose coordinates are below 256 to the power of their size, and whose points with the same
-- first coordinate have the same second one or two that add up to an odd number: two ECDSA
-- keys with the same device identifier have the same point.
pub device_id_unique :
    (size prime : ℕ) (IsPoint : ℕ → ℕ → Type 0) (x y x' y' : ℕ)
    → ((x y y' : ℕ) → IsPoint x y → IsPoint x y' → (y ≡ y') ⊎ (y + y' ≡ prime))
    → prime % 2 ≡ 1
    → x < room size
    → x' < room size
    → IsPoint x y
    → IsPoint x' y'
    → device_id_from_x509_pubkey (ecdsa_public (record { size = size; x = x; y = y }))
      ≡ device_id_from_x509_pubkey (ecdsa_public (record { size = size; x = x'; y = y' }))
    → (x ≡ x') × (y ≡ y')
unfolding device_id_from_x509_pubkey marshal_compressed
device_id_unique size prime IsPoint x y x' y' two odd h h' p p' e =
    let p1 : Point = record { size = size; x = x; y = y } in
    let p2 : Point = record { size = size; x = x'; y = y' } in
    let m =
      hex_encode_cancel (marshal_compressed p1) (marshal_compressed p2) (marshal-AreBytes p1)
        (marshal-AreBytes p2) e in
    let f : 2 + y % 2 ≡ 2 + y' % 2 = ap (head_or 0) m in
    let g : big_endian size x ≡ big_endian size x' = ap tail m in
    let ex : x ≡ x' =
      sym (number_of-big_endian size x h) ∙ ap (number_of 0) g ∙ number_of-big_endian size x' h' in
    (
      ex,
      elim (two x' y y' (subst (λ z. IsPoint z y) ex p) p') [
        | inl q ↦ q
        | inr q ↦ absurd (omega (arith, f, q, odd))
      ],
    )
  where
    head_or : ℕ → List ℕ → ℕ
    head_or d [] = d
    head_or d (b ∷ bs) = b

    tail : List ℕ → List ℕ
    tail [] = []
    tail (b ∷ bs) = bs
