-- ===== src/Process/Digits.antt =====
-- The decimal text of a number, as fmt prints it: digits, and at least one.
use go_cedar.Base.{
  ℕ, zero, suc, ◌+◌, ◌/◌, ◌%◌, ◌≤◌, ◌<◌, ◌≡◌, List, [], ◌∷◌, arith, ltb, Bool-cases, inl, inr,
}
use go_cedar.Process.{decimal_loop, decimal}

abbrev pub AreNumerals : List ℕ → Type 0
AreNumerals [] = Unit
AreNumerals (c ∷ text) = (b'0' ≤ c) × (c ≤ b'9') × AreNumerals text

abbrev pub IsNumeral : List ℕ → Type 0
IsNumeral text = (d : ℕ) × (digits : List ℕ) × (text ≡ d ∷ digits) × AreNumerals (d ∷ digits)

decimal_loop-IsNumeral :
    (fuel n : ℕ) (digits : List ℕ)
    → n < fuel
    → AreNumerals digits
    → IsNumeral (decimal_loop fuel n digits)
unfolding decimal_loop
decimal_loop-IsNumeral zero n digits h a = absurd (omega arith)
decimal_loop-IsNumeral (suc fuel) n digits h a = elim (Bool-cases (ltb n 10)) [
  | inl y ↦ (b'0' + n, digits, rw y, (omega arith, ground (arith, y), a))
  | inr m ↦
      let (d, rest, e, b) =
        decimal_loop-IsNumeral fuel (n / 10) ((b'0' + n % 10) ∷ digits) ground (arith, m)
          (omega arith, omega arith, a) in
      (d, rest, rw m e, b)
]

pub decimal-IsNumeral : (n : ℕ) → IsNumeral (decimal n)
unfolding decimal
decimal-IsNumeral n = decimal_loop-IsNumeral (suc n) n [] (omega arith) tt
