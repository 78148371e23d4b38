-- ===== src/Sizes/Reading.antt =====
-- `FileSize` of utils/files.go: what `UnmarshalText` makes of what `MarshalText` prints, and of signs and
-- other text before a number.
use native.Mathlib.Decide.{dec_le}
use go_cedar.Base.{
  ◌⊎◌, inr, ℕ, ◌≤◌, ◌<◌, ◌≡◌, refl, ◌∙◌, ap, sym, inl, inr, List, [], ◌++◌, map, Option, none, some,
  arith, ltb, if◌then◌else◌, Bool-cases, lt→ltb, le→ltb_false,
}
use mathlib.Core.List.{append-nil, map-append}
use go_cedar.Process.{decimal}
use go_cedar.Sizes.{
  kb_size, mb_size, gb_size, tb_size, b_text, kb_text, mb_text, gb_text, tb_text, to_lower,
  find_all, Result, ok, bad_filesize, bad_number, marshal_text, scale, scale_number, size_of_match,
  unmarshal_text,
}
use go_cedar.Sizes.Units.{
  decimal-IsNumber, b_text-IsUnit, kb_text-IsUnit, mb_text-IsUnit, gb_text-IsUnit, tb_text-IsUnit,
}
use go_cedar.Sizes.Scan.{
  NoDigits, IsUnit, IsNumber, find_all-number, find_all-NoDigits, lower-IsNumber, lower-NoDigits,
}

-- The unit in which a size above one kilobyte is printed.
abbrev pub unit_size : ℕ → ℕ
unit_size s =
    if ltb tb_size s
    then tb_size
    else if ltb gb_size s
    then gb_size
    else if ltb mb_size s
    then mb_size
    else kb_size

module _ {F : Type 0} (parse_float : List ℕ → Option F) (times : F → ℕ → F) (to_size : F → ℕ)
    (quotient_text : ℕ → ℕ → List ℕ) where
  read_number :
      (num unit : List ℕ)
      → IsNumber num
      → IsUnit unit
      → map to_lower unit ≡ unit
      → unmarshal_text parse_float times to_size quotient_text (num ++ unit)
        ≡ scale_number parse_float times to_size quotient_text (parse_float num) unit
  unfolding unmarshal_text size_of_match
  read_number num unit n u l =
      ap (λ w. size_of_match parse_float times to_size quotient_text (find_all 0 w))
        (map-append to_lower num unit
          ∙ ap (λ w. w ++ map to_lower unit) (lower-IsNumber num n)
          ∙ ap (λ w. num ++ w) l)
      ∙ ap (size_of_match parse_float times to_size quotient_text) (find_all-number num unit n u)

  -- A printed quotient, read as a float, times the unit.
  abbrev pub times_unit : Option F → ℕ → Result
  times_unit none unit = bad_number
  times_unit (some x) unit = ok (to_size (times x unit))

  scale-unit :
      (unit : List ℕ) (size : ℕ) (o : Option F)
      → ((x : F)
          → scale parse_float times to_size quotient_text x unit ≡ ok (to_size (times x size)))
      → scale_number parse_float times to_size quotient_text o unit ≡ times_unit o size
  unfolding scale_number
  scale-unit unit size none h = refl
  scale-unit unit size (some x) h = h x

  read_quotient :
      (num unit : List ℕ) (size : ℕ)
      → IsNumber num
      → IsUnit unit
      → map to_lower unit ≡ unit
      → ((x : F)
          → scale parse_float times to_size quotient_text x unit ≡ ok (to_size (times x size)))
      → unmarshal_text parse_float times to_size quotient_text (num ++ unit)
        ≡ times_unit (parse_float num) size
  read_quotient num unit size n u l h =
      read_number num unit n u l ∙ scale-unit unit size (parse_float num) h

  read_bytes :
      (n : ℕ) (x : F)
      → parse_float (decimal n) ≡ some x
      → to_size x ≡ n
      → unmarshal_text parse_float times to_size quotient_text (decimal n ++ b_text) ≡ ok n
  unfolding scale_number scale
  read_bytes n x p e =
      read_number (decimal n) b_text (decimal-IsNumber n) b_text-IsUnit refl
      ∙ ap (λ o. scale_number parse_float times to_size quotient_text o b_text) p
      ∙ ap ok e

  print_small :
      (s : ℕ)
      → s ≤ kb_size
      → marshal_text parse_float times to_size quotient_text s ≡ decimal s ++ b_text
  unfolding marshal_text
  print_small s h =
      rw
        (
          le→ltb_false tb_size s (omega arith),
          le→ltb_false gb_size s (omega arith),
          le→ltb_false mb_size s (omega arith),
          le→ltb_false kb_size s h,
        )
        refl

  read_large :
      (s : ℕ)
      → ((n unit : ℕ) → IsNumber (quotient_text n unit))
      → kb_size < s
      → unmarshal_text parse_float times to_size quotient_text
          (marshal_text parse_float times to_size quotient_text s)
        ≡ times_unit (parse_float (quotient_text s (unit_size s))) (unit_size s)
  unfolding marshal_text scale
  read_large s number h = elim (Bool-cases (ltb tb_size s)) [
    | inl y ↦ rw y (
        read_quotient (quotient_text s tb_size) tb_text tb_size (number s tb_size) tb_text-IsUnit
          refl (λ x. refl))
    | inr m ↦ rw m (elim (Bool-cases (ltb gb_size s)) [
      | inl y ↦ rw y (
          read_quotient (quotient_text s gb_size) gb_text gb_size (number s gb_size) gb_text-IsUnit
            refl (λ x. refl))
      | inr m ↦ rw m (elim (Bool-cases (ltb mb_size s)) [
        | inl y ↦ rw y (
            read_quotient (quotient_text s mb_size) mb_text mb_size (number s mb_size)
              mb_text-IsUnit refl (λ x. refl))
        | inr m ↦
            rw (m, lt→ltb kb_size s h)
              (read_quotient (quotient_text s kb_size) kb_text kb_size (number s kb_size)
                kb_text-IsUnit refl (λ x. refl))
      ])
    ])
  ]

  -- When the text of a quotient is a decimal number, and the floats of the numbers up to 1024 are
  -- exact: a size of at most one kilobyte is printed and read back as it was; a larger one is
  -- read as its printed quotient times the very unit by which it was divided.
  pub unmarshal_text-marshal_text :
      (s : ℕ)
      → ((n unit : ℕ) → IsNumber (quotient_text n unit))
      → ((n : ℕ) → n ≤ kb_size → (x : F) × (parse_float (decimal n) ≡ some x) × (to_size x ≡ n))
      → ((s ≤ kb_size)
          × (unmarshal_text parse_float times to_size quotient_text
                (marshal_text parse_float times to_size quotient_text s)
              ≡ ok s))
        ⊎ ((kb_size < s)
            × (unmarshal_text parse_float times to_size quotient_text
                  (marshal_text parse_float times to_size quotient_text s)
                ≡ times_unit (parse_float (quotient_text s (unit_size s))) (unit_size s)))
  unmarshal_text-marshal_text s number exact = elim (dec_le s kb_size) [
    | yes h ↦
        let (x, p, e) = exact s h in
        inl (
          h,
          ap (unmarshal_text parse_float times to_size quotient_text) (print_small s h)
              ∙ read_bytes s x p e,
        )
    | no h ↦ inr (omega (arith, h), read_large s number (omega (arith, h)))
  ]

  -- Whatever text without digits stands before a size, signs among it, is passed over; text without
  -- digits alone is refused.
  pub unmarshal_text-NoDigits :
      (front text : List ℕ)
      → NoDigits front
      → (unmarshal_text parse_float times to_size quotient_text (front ++ text)
          ≡ unmarshal_text parse_float times to_size quotient_text text)
        × (unmarshal_text parse_float times to_size quotient_text front ≡ bad_filesize)
  unfolding unmarshal_text size_of_match
  unmarshal_text-NoDigits front text n = (
    passed text,
    ap (unmarshal_text parse_float times to_size quotient_text) (sym (append-nil front))
        ∙ passed []
        ∙ unfold find_all in refl,
  )
    where
      passed :
          (rest : List ℕ)
          → unmarshal_text parse_float times to_size quotient_text (front ++ rest)
            ≡ unmarshal_text parse_float times to_size quotient_text rest
      passed rest =
          ap (λ w. size_of_match parse_float times to_size quotient_text (find_all 0 w))
            (map-append to_lower front rest)
          ∙ ap (size_of_match parse_float times to_size quotient_text)
              (find_all-NoDigits (map to_lower front) (map to_lower rest) (lower-NoDigits front n))
