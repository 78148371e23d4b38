-- ===== src/Sizes/Units.antt =====
-- The decimal text of a number and the units of `FileSize` of utils/files.go, as its regular expression
-- takes them.
use go_cedar.Base.{ℕ, refl, ◌∙◌, sym, inl, List, [], ◌∷◌, arith}
use mathlib.Core.List.{append-nil}
use go_cedar.Process.{decimal}
use go_cedar.Process.Digits.{AreNumerals, decimal-IsNumeral}
use go_cedar.Sizes.{b_text, kb_text, mb_text, gb_text, tb_text}
use go_cedar.Sizes.Scan.{AreDigits, IsUnit, IsNumber}

pub AreNumerals-digits : (text : List ℕ) → AreNumerals text → AreDigits text
AreNumerals-digits [] a = tt
AreNumerals-digits (c ∷ text) (l, u, a) = (ground arith, AreNumerals-digits text a)

pub decimal-IsNumber : (n : ℕ) → IsNumber (decimal n)
decimal-IsNumber n =
    let (d, digits, e, a) = decimal-IsNumeral n in
    record {
      digit = d;
      digits = digits;
      fraction = [];
      whole = AreNumerals-digits (d ∷ digits) a;
      parts = e ∙ sym (append-nil (d ∷ digits));
      behind = inl refl;
    }

pub b_text-IsUnit : IsUnit b_text
b_text-IsUnit = record {
  first = b'b';
  others = [];
  parts = refl;
  no_digit = refl;
  no_point = refl;
  found = refl;
}

pub kb_text-IsUnit : IsUnit kb_text
kb_text-IsUnit = record {
  first = b'k';
  others = b_text;
  parts = refl;
  no_digit = refl;
  no_point = refl;
  found = refl;
}

pub mb_text-IsUnit : IsUnit mb_text
mb_text-IsUnit = record {
  first = b'm';
  others = b_text;
  parts = refl;
  no_digit = refl;
  no_point = refl;
  found = refl;
}

pub gb_text-IsUnit : IsUnit gb_text
gb_text-IsUnit = record {
  first = b'g';
  others = b_text;
  parts = refl;
  no_digit = refl;
  no_point = refl;
  found = refl;
}

pub tb_text-IsUnit : IsUnit tb_text
tb_text-IsUnit = record {
  first = b't';
  others = b_text;
  parts = refl;
  no_digit = refl;
  no_point = refl;
  found = refl;
}
