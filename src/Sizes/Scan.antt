-- ===== src/Sizes/Scan.antt =====
-- What the regular expression of `FileSize` in utils/files.go finds in a number with a unit, and where
-- it finds nothing.
use go_cedar.Base.{
  ℕ, zero, suc, ◌+◌, ◌-◌, ◌≤◌, ◌≡◌, refl, ◌∙◌, ap, sym, ◌⊎◌, inl, inr, List, [], ◌∷◌, ◌++◌, map,
  true, false, none, some, length, drop, length-append, arith, ◌==◌,
}
use mathlib.Core.List.{append_assoc, map-append}
use go_cedar.Sizes.{
  with_unit, to_lower, is_digit, digits_of, after_digits, fraction_of, unit_of, unit_texts,
  with_fraction, match_start, find_all,
}

abbrev pub AreDigits : List ℕ → Type 0
AreDigits [] = Unit
AreDigits (c ∷ text) = (is_digit c ≡ true) × AreDigits text

abbrev pub NoDigits : List ℕ → Type 0
NoDigits [] = Unit
NoDigits (c ∷ text) = (is_digit c ≡ false) × NoDigits text

digits_of-append :
    (digits : List ℕ) (c : ℕ) (text : List ℕ)
    → AreDigits digits
    → is_digit c ≡ false
    → digits_of (digits ++ c ∷ text) ≡ digits
digits_of-append [] c text a h = rw h
digits_of-append (d ∷ digits) c text (e, a) h = rw (e, digits_of-append digits c text a h)

after_digits-append :
    (digits : List ℕ) (c : ℕ) (text : List ℕ)
    → AreDigits digits
    → is_digit c ≡ false
    → after_digits (digits ++ c ∷ text) ≡ c ∷ text
after_digits-append [] c text a h = rw h
after_digits-append (d ∷ digits) c text (e, a) h = rw (e, after_digits-append digits c text a h)

drop-append : (xs ys : List ℕ) → drop (length xs) (xs ++ ys) ≡ ys
drop-append [] ys = refl
drop-append (x ∷ xs) ys = drop-append xs ys

find_all-past : (k : ℕ) (text : List ℕ) → length text ≤ k → find_all k text ≡ []
unfolding find_all
find_all-past k [] h = refl
find_all-past zero (c ∷ text) h = absurd (omega arith)
find_all-past (suc k) (c ∷ text) h = find_all-past k text (omega arith)

-- A unit, which has a letter first.
pub record IsUnit (unit : List ℕ) : Type 0 where
  pub first : ℕ
  pub others : List ℕ
  pub parts : unit ≡ first ∷ others
  pub no_digit : is_digit first ≡ false
  pub no_point : (first == b'.') ≡ false
  pub found : unit_of unit_texts unit ≡ unit

-- A number: digits, and behind them nothing, or a point and more digits.
pub record IsNumber (num : List ℕ) : Type 0 where
  pub digit : ℕ
  pub digits : List ℕ
  pub fraction : List ℕ
  pub whole : AreDigits (digit ∷ digits)
  pub parts : num ≡ (digit ∷ digits) ++ fraction
  pub behind : (fraction ≡ []) ⊎ ((more : List ℕ) × AreDigits more × (fraction ≡ b'.' ∷ more))

-- What follows the digits of a number starts with no digit, and its fraction is read.
fraction-unit :
    (fraction unit : List ℕ)
    → IsUnit unit
    → (fraction ≡ []) ⊎ ((more : List ℕ) × AreDigits more × (fraction ≡ b'.' ∷ more))
    → (c : ℕ) × (rest : List ℕ) × (fraction ++ unit ≡ c ∷ rest)
      × (is_digit c ≡ false)
      × (fraction_of (fraction ++ unit) ≡ fraction)
fraction-unit fraction unit u (inl e) = (
  u.first,
  u.others,
  ap (λ f. f ++ unit) e ∙ u.parts,
  u.no_digit,
  ap (λ f. fraction_of (f ++ unit)) e ∙ ap fraction_of u.parts ∙ rw u.no_point (sym e),
)
fraction-unit fraction unit u (inr (more, a, e)) = (
  b'.',
  more ++ unit,
  ap (λ f. f ++ unit) e,
  refl,
  ap (λ f. fraction_of (f ++ unit)) e
      ∙ ap (λ w. b'.' ∷ digits_of (more ++ w)) u.parts
      ∙ ap (λ w. b'.' ∷ w) (digits_of-append more u.first u.others a u.no_digit)
      ∙ sym e,
)

match_start-number :
    (num unit : List ℕ) → IsNumber num → IsUnit unit → match_start (num ++ unit) ≡ some (num, unit)
unfolding match_start
match_start-number num unit n u =
    let (c, rest, e, q, f) = fraction-unit n.fraction unit u n.behind in
    let t : num ++ unit ≡ (n.digit ∷ n.digits) ++ c ∷ rest =
      ap (λ w. w ++ unit) n.parts
      ∙ append_assoc (n.digit ∷ n.digits) n.fraction unit
      ∙ ap (λ w. (n.digit ∷ n.digits) ++ w) e in
    let d : digits_of (num ++ unit) ≡ n.digit ∷ n.digits =
      ap digits_of t ∙ digits_of-append (n.digit ∷ n.digits) c rest n.whole q in
    let a : after_digits (num ++ unit) ≡ n.fraction ++ unit =
      ap after_digits t ∙ after_digits-append (n.digit ∷ n.digits) c rest n.whole q ∙ sym e in
    let w : with_fraction (digits_of (num ++ unit)) (after_digits (num ++ unit)) ≡ some num =
      ap (λ x. with_fraction x (after_digits (num ++ unit))) d
      ∙ ap (λ x. some ((n.digit ∷ n.digits) ++ fraction_of x)) a
      ∙ ap (λ x. some ((n.digit ∷ n.digits) ++ x)) f
      ∙ ap some (sym n.parts) in
    ap (λ x. with_unit x (num ++ unit)) w
    ∙ ap (λ x. some (num, unit_of unit_texts x)) (drop-append num unit)
    ∙ ap (λ x. some (num, x)) u.found

find_all-match :
    (c : ℕ) (text num unit : List ℕ)
    → match_start (c ∷ text) ≡ some (num, unit)
    → find_all 0 (c ∷ text) ≡ (num, unit) ∷ find_all (length num + length unit - 1) text
unfolding find_all
find_all-match c text num unit h = rw (h, find_all) refl

-- A number with a unit behind it is the one match of its text.
pub find_all-number :
    (num unit : List ℕ) → IsNumber num → IsUnit unit → find_all 0 (num ++ unit) ≡ (num, unit) ∷ []
find_all-number num unit n u =
    let t : num ++ unit ≡ n.digit ∷ ((n.digits ++ n.fraction) ++ unit) =
      ap (λ w. w ++ unit) n.parts in
    let l : length (num ++ unit) ≡ suc (length ((n.digits ++ n.fraction) ++ unit)) = ap length t in
    ap (find_all 0) t
    ∙ find_all-match n.digit ((n.digits ++ n.fraction) ++ unit) num unit
        (ap match_start (sym t) ∙ match_start-number num unit n u)
    ∙ ap (λ w. (num, unit) ∷ w)
        (find_all-past (length num + length unit - 1) ((n.digits ++ n.fraction) ++ unit)
          (omega (arith, l, length-append num unit)))

match_start-none : (c : ℕ) (text : List ℕ) → is_digit c ≡ false → match_start (c ∷ text) ≡ none
unfolding match_start
match_start-none c text h = rw h

-- Code points before the first digit are passed over.
pub find_all-NoDigits :
    (front text : List ℕ) → NoDigits front → find_all 0 (front ++ text) ≡ find_all 0 text
unfolding find_all
find_all-NoDigits [] text n = refl
find_all-NoDigits (c ∷ front) text (h, n) =
    rw (match_start-none c (front ++ text) h, find_all) (find_all-NoDigits front text n)

-- Lower case changes no digit and makes none.
pub lower-digit : (c : ℕ) → is_digit (to_lower c) ≡ is_digit c
lower-digit c = ground arith

lower-digit_same : (c : ℕ) → is_digit c ≡ true → to_lower c ≡ c
lower-digit_same c e = ground arith

lower-AreDigits : (digits : List ℕ) → AreDigits digits → map to_lower digits ≡ digits
lower-AreDigits [] a = refl
lower-AreDigits (d ∷ digits) (e, a) =
    ap (λ c. c ∷ map to_lower digits) (lower-digit_same d e)
    ∙ ap (λ w. d ∷ w) (lower-AreDigits digits a)

pub lower-NoDigits : (front : List ℕ) → NoDigits front → NoDigits (map to_lower front)
lower-NoDigits [] n = tt
lower-NoDigits (c ∷ front) (h, n) = (lower-digit c ∙ h, lower-NoDigits front n)

lower-fraction :
    (fraction : List ℕ)
    → (fraction ≡ []) ⊎ ((more : List ℕ) × AreDigits more × (fraction ≡ b'.' ∷ more))
    → map to_lower fraction ≡ fraction
lower-fraction fraction (inl e) = ap (map to_lower) e ∙ sym e
lower-fraction fraction (inr (more, a, e)) =
    ap (map to_lower) e ∙ ap (λ w. b'.' ∷ w) (lower-AreDigits more a) ∙ sym e

pub lower-IsNumber : (num : List ℕ) → IsNumber num → map to_lower num ≡ num
lower-IsNumber num n =
    ap (map to_lower) n.parts
    ∙ map-append to_lower (n.digit ∷ n.digits) n.fraction
    ∙ ap (λ w. w ++ map to_lower n.fraction) (lower-AreDigits (n.digit ∷ n.digits) n.whole)
    ∙ ap (λ w. (n.digit ∷ n.digits) ++ w) (lower-fraction n.fraction n.behind)
    ∙ sym n.parts
