-- ===== src/Bytes/Tests.antt =====
-- Bytes and buffers of bufs/encoding.go at concrete values.
use go_cedar.Base.{◌≡◌, refl, [], ◌∷◌, ◌++◌, arith}
use go_cedar.Bytes.{
  decoded, failed, odd_length, non_string, marshal_text, hex_encode, unmarshal_text, check_text,
  hex_decode, from_hex_digit, unmarshal_json,
}
use go_cedar.Bytes.RoundTrip.{unmarshal_json-marshal_text}

-- 0x0aff
text_of_two : marshal_text (10 ∷ 255 ∷ []) ≡ b'0' ∷ b'x' ∷ b'0' ∷ b'a' ∷ b'f' ∷ b'f' ∷ []
unfolding marshal_text hex_encode
text_of_two = refl

-- 0xaff
odd_text : unmarshal_text (b'0' ∷ b'x' ∷ b'a' ∷ b'f' ∷ b'f' ∷ []) ≡ failed odd_length
unfolding unmarshal_text check_text hex_decode from_hex_digit
odd_text = refl

unmarshal_json-marshal_text_example :
    (unmarshal_json (b'"' ∷ (marshal_text (10 ∷ 255 ∷ []) ++ b'"' ∷ [])) ≡ decoded (10 ∷ 255 ∷ []))
    × (unmarshal_json (marshal_text (10 ∷ 255 ∷ [])) ≡ failed non_string)
unmarshal_json-marshal_text_example =
    unmarshal_json-marshal_text (10 ∷ 255 ∷ []) (omega arith, (omega arith, tt))
