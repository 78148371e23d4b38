-- ===== src/Bytes/ScratchTests.antt =====
-- Items and scratch buffers of bufs/encoding.go at concrete values.
use go_cedar.Base.{
  ℕ, ◌+◌, ◌-◌, ◌*◌, ◌/◌, ◌≡◌, refl, List, [], ◌∷◌, ◌++◌, true, none, some, panic, length, take,
  drop, length-drop, ◌==◌, if◌then◌else◌, arith, length-append, length-take, take-append, ap, ◌∙◌,
}
use go_cedar.Bytes.{zeros, Buf}
use go_cedar.Bytes.Buffer.{length-zeros}
use go_cedar.Bytes.Scratch.{Marshalable, Writes, Base32, smart_marshal_to_base32}
use go_cedar.Bytes.Scratches.{long_item-panic}

abbrev item_of : List ℕ → Marshalable
item_of bs = record {
  size = length bs;
  marshal_to_sized_buffer = λ buf. if length buf == length bs then some (bs, length bs) else none;
}

item_of-Writes : (bs : List ℕ) → Writes (item_of bs) bs
item_of-Writes bs = record { sized = refl; writes = λ buf h. ground (arith, h) }

-- A text that has the length of base 32 and starts with the bytes themselves.
abbrev padded : List ℕ → List ℕ
padded bs = bs ++ zeros ((8 * length bs + 4) / 5 - length bs)

length-padded : (bs : List ℕ) → length (padded bs) ≡ (8 * length bs + 4) / 5
length-padded bs =
    let n = length bs in
    let d = (8 * n + 4) / 5 - n in omega (arith, length-append bs (zeros d), length-zeros d)

take-padded : (bs : List ℕ) → take (length (padded bs) * 5 / 8) (padded bs) ≡ bs
take-padded bs =
    let e : length (padded bs) * 5 / 8 ≡ length bs = omega (arith, length-padded bs) in
    ap (λ n. take n (padded bs)) e ∙ take-append bs (zeros ((8 * length bs + 4) / 5 - length bs))

take_padding :
    (bs : List ℕ) (n : ℕ) (rest : List ℕ)
    → length bs ≡ n
    → take ((8 * n + 4) / 5) (padded bs ++ rest) ≡ padded bs
take_padding bs n rest h =
    ap (λ m. take m (padded bs ++ rest)) (omega (arith, h, length-padded bs))
    ∙ take-append (padded bs) rest

abbrev padding : Base32
padding = record {
  encode = padded;
  decode = λ text. (take (length text * 5 / 8) text, true);
  encoded_len = λ n. (8 * n + 4) / 5;
  decoded_len = λ n. n * 5 / 8;
  encoded_len_eq = λ n. refl;
  decoded_len_eq = λ n. refl;
  length-encode = length-padded;
  length-decode = λ text. omega (arith, length-take (length text * 5 / 8) text (omega arith));
  encode_within = λ array from n. padded (take n (drop from array)) ++ drop ((8 * n + 4) / 5) array;
  take-encode_within = λ array from n f l a.
      let bs = take n (drop from array) in
      take_padding bs n (drop ((8 * n + 4) / 5) array)
        (length-take n (drop from array) (omega (arith, f, length-drop from array)));
  decode-encode = λ bs a. ap (λ l. (l, true)) (take-padded bs);
}

abbrev three : List ℕ
three = 200 ∷ 1 ∷ 7 ∷ []

abbrev empty_buf : Buf
empty_buf = record { array = []; len = 0 }

long_item-panic_example : smart_marshal_to_base32 padding (item_of (zeros 41)) empty_buf ≡ panic
long_item-panic_example =
    long_item-panic padding (item_of (zeros 41)) (zeros 41) empty_buf (item_of-Writes (zeros 41))
      (omega arith) (omega arith)
