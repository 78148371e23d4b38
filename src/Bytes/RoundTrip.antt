-- ===== src/Bytes/RoundTrip.antt =====
-- `Bytes` of bufs/encoding.go: what is written as text is read back.
use go_cedar.Base.{
  ℕ, suc, ◌+◌, ◌-◌, ◌*◌, ◌/◌, ◌%◌, ◌<◌, ◌≡◌, refl, List, [], ◌∷◌, ◌++◌, true, false, some, length,
  get_elem?, if◌then◌else◌, arith, ap, ◌∙◌, length-append, get_elem?-append, take-append,
}
use go_cedar.Bytes.{
  failed, non_string, decoded, decoded_cons, hex_digit, hex_encode, from_hex_digit, hex_decode,
  marshal_text, check_text, unmarshal_text, is_string, unquote, unmarshal_json,
}

-- Every element is a byte.
abbrev pub AreBytes : List ℕ → Type 0
AreBytes [] = Unit
AreBytes (b ∷ bs) = (b < 256) × AreBytes bs

from_hex_digit-hex_digit : (n : ℕ) → n < 16 → from_hex_digit (hex_digit n) ≡ some n
unfolding from_hex_digit
from_hex_digit-hex_digit n h = ground arith

hex_decode_pair :
    (p q a b : ℕ) (rest : List ℕ)
    → from_hex_digit p ≡ some a
    → from_hex_digit q ≡ some b
    → hex_decode (p ∷ q ∷ rest) ≡ decoded_cons (a * 16 + b) (hex_decode rest)
unfolding hex_decode
hex_decode_pair p q a b rest e f = ground (arith, e, f)

pub hex_decode-hex_encode : (bs : List ℕ) → AreBytes bs → hex_decode (hex_encode bs) ≡ decoded bs
unfolding hex_encode
hex_decode-hex_encode [] h = unfold hex_decode in refl
hex_decode-hex_encode (b ∷ bs) (h, k) =
    let p : b / 16 < 16 = omega arith in
    let q : b % 16 < 16 = omega arith in
    let e : b / 16 * 16 + b % 16 ≡ b = omega arith in
    hex_decode_pair _ _ _ _ (hex_encode bs) (from_hex_digit-hex_digit (b / 16) p)
      (from_hex_digit-hex_digit (b % 16) q)
    ∙ ap (decoded_cons (b / 16 * 16 + b % 16)) (hex_decode-hex_encode bs k)
    ∙ ap (λ x. decoded (x ∷ bs)) e

-- The text of bytes is read back as these bytes.
pub unmarshal_text-marshal_text :
    (bs : List ℕ) → AreBytes bs → unmarshal_text (marshal_text bs) ≡ decoded bs
unfolding unmarshal_text marshal_text check_text
unmarshal_text-marshal_text bs h = hex_decode-hex_encode bs h

is_string_of :
    (input : List ℕ)
    → get_elem? input (length input - 1) ≡ some b'"'
    → is_string (b'"' ∷ input) ≡ true
unfolding is_string
is_string_of input e = ground (arith, e)

is_string-quoted : (t : List ℕ) → is_string (b'"' ∷ (t ++ b'"' ∷ [])) ≡ true
is_string-quoted t =
    let e : length (t ++ b'"' ∷ []) - 1 ≡ length t = omega (arith, length-append t (b'"' ∷ [])) in
    is_string_of (t ++ b'"' ∷ []) (ap (get_elem? (t ++ b'"' ∷ [])) e ∙ get_elem?-append t [] b'"')

unquote-quoted : (t : List ℕ) → unquote (b'"' ∷ (t ++ b'"' ∷ [])) ≡ t
unquote-quoted t =
    let e : suc (length (t ++ b'"' ∷ [])) - 2 ≡ length t =
      omega (arith, length-append t (b'"' ∷ [])) in
    rw e (take-append t (b'"' ∷ []))

not_quoted : (bs : List ℕ) → is_string (marshal_text bs) ≡ false
unfolding marshal_text is_string
not_quoted bs = ground arith

-- The text of bytes between quotes is read back by `UnmarshalJSON`, and without the quotes
-- `UnmarshalJSON` refuses it as no string.
pub unmarshal_json-marshal_text :
    (bs : List ℕ)
    → AreBytes bs
    → (unmarshal_json (b'"' ∷ (marshal_text bs ++ b'"' ∷ [])) ≡ decoded bs)
      × (unmarshal_json (marshal_text bs) ≡ failed non_string)
unfolding unmarshal_json
unmarshal_json-marshal_text bs h = (
  rw (is_string-quoted (marshal_text bs), unquote-quoted (marshal_text bs))
      (unmarshal_text-marshal_text bs h),
  ap (λ b. if b then unmarshal_text (unquote (marshal_text bs)) else failed non_string)
      (not_quoted bs),
)
