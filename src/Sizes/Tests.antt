-- ===== src/Sizes/Tests.antt =====
-- The sizes of utils/files.go at concrete inputs, with whole numbers for floats.
use go_cedar.Base.{
  ℕ, ◌/◌, ◌*◌, ◌≤◌, ◌<◌, ◌≡◌, refl, ◌∙◌, ap, sym, inr, ◌⊎◌, List, [], ◌∷◌, ◌++◌, Option, some,
}
use go_cedar.Process.{decimal}
use go_cedar.Process.Digits.{decimal-IsNumeral}
use go_cedar.Process.Labels.{number_in, number_in-decimal}
use go_cedar.Sizes.{
  kb_size, digits_of, ok, bad_filesize, size_of_match, scale_number, scale, find_all, match_start,
  marshal_text, unmarshal_text,
}
use go_cedar.Sizes.Scan.{AreDigits, IsNumber}
use go_cedar.Sizes.Units.{AreNumerals-digits}
use go_cedar.Sizes.Reading.{unit_size, times_unit, unmarshal_text-marshal_text}

abbrev whole_part : List ℕ → Option ℕ
whole_part text = some (number_in (digits_of text) 0)

abbrev whole_times : ℕ → ℕ → ℕ
whole_times n unit = n * unit

abbrev whole_size : ℕ → ℕ
whole_size n = n

abbrev whole_quotient : ℕ → ℕ → List ℕ
whole_quotient n unit = decimal (n / unit) ++ b'.' ∷ b'0' ∷ b'0' ∷ []

whole_quotient-IsNumber : (n unit : ℕ) → IsNumber (whole_quotient n unit)
whole_quotient-IsNumber n unit =
    let (d, digits, e, a) = decimal-IsNumeral (n / unit) in
    record {
      digit = d;
      digits = digits;
      fraction = b'.' ∷ b'0' ∷ b'0' ∷ [];
      whole = AreNumerals-digits (d ∷ digits) a;
      parts = ap (λ w. w ++ b'.' ∷ b'0' ∷ b'0' ∷ []) e;
      behind = inr (b'0' ∷ b'0' ∷ [], (refl, (refl, tt)), refl);
    }

digits_of-digits : (text : List ℕ) → AreDigits text → digits_of text ≡ text
digits_of-digits [] a = refl
digits_of-digits (c ∷ text) (e, a) = rw (e, digits_of-digits text a)

whole_part-decimal : (n : ℕ) → (x : ℕ) × (whole_part (decimal n) ≡ some x) × (whole_size x ≡ n)
whole_part-decimal n =
    let (d, digits, e, a) = decimal-IsNumeral n in
    (
      n,
      ap (λ w. some (number_in w 0))
            (ap digits_of e
              ∙ digits_of-digits (d ∷ digits) (AreNumerals-digits (d ∷ digits) a)
              ∙ sym e)
          ∙ ap some (number_in-decimal n),
      refl,
    )

unmarshal_text-marshal_text_example :
    ((5000 ≤ kb_size)
      × (unmarshal_text whole_part whole_times whole_size whole_quotient
            (marshal_text whole_part whole_times whole_size whole_quotient 5000)
          ≡ ok 5000))
    ⊎ ((kb_size < 5000)
        × (unmarshal_text whole_part whole_times whole_size whole_quotient
              (marshal_text whole_part whole_times whole_size whole_quotient 5000)
            ≡ times_unit whole_part whole_times whole_size whole_quotient
                (whole_part (whole_quotient 5000 (unit_size 5000)))
                (unit_size 5000)))
unmarshal_text-marshal_text_example =
    unmarshal_text-marshal_text whole_part whole_times whole_size whole_quotient 5000
      whole_quotient-IsNumber (λ n h. whole_part-decimal n)

two_kilobytes :
    unmarshal_text whole_part whole_times whole_size whole_quotient (b'2' ∷ b'K' ∷ b'B' ∷ [])
    ≡ ok 2048
unfolding unmarshal_text size_of_match scale_number scale find_all match_start
two_kilobytes = refl

two_numbers :
    unmarshal_text whole_part whole_times whole_size whole_quotient
      (b'2' ∷ b'b' ∷ b' ' ∷ b'3' ∷ b'b' ∷ [])
    ≡ bad_filesize
unfolding unmarshal_text size_of_match scale_number scale find_all match_start
two_numbers = refl
