-- ===== src/Base/Xor.antt =====
-- Go's `^` on numbers that are not negative.
use Prim.Native.Nat.{
  ℕ, zero, suc, ◌+◌, ◌-◌, ◌*◌, ◌/◌, ◌%◌, ◌≤◌, ◌<◌, bit_xor, digits, differ, bit_xor-bitwise,
}
use mathlib.Core.Path.{◌≡◌, refl, ap, ◌∙◌, sym}
use native.Mathlib.Omega.{arith}

abbrev parted : ℕ → ℕ → ℕ → ℕ
parted count a b = digits (λ y. y) differ count a b

-- The count of digits may be larger than the number.
parted-suc : (count a b : ℕ) → a ≤ count → parted (suc count) a b ≡ parted count a b
parted-suc zero zero b h = refl
parted-suc zero (suc a) b h = absurd (omega arith)
parted-suc (suc count) zero b h = refl
parted-suc (suc count) (suc a) b h =
    ap (λ x. x * 2 + differ (suc a % 2) (b % 2))
      (parted-suc count (suc a / 2) (b / 2) (omega arith))

parted_enough : (more count a b : ℕ) → count ≡ more + a → parted count a b ≡ bit_xor a b
parted_enough zero count a b e =
    ap (λ n. parted n a b) (omega (arith, e)) ∙ sym (bit_xor-bitwise a b)
parted_enough (suc more) zero a b e = absurd (omega arith)
parted_enough (suc more) (suc count) a b e =
    parted-suc count a b (omega arith) ∙ parted_enough more count a b (omega arith)

differ_bits : (x y : ℕ) → x < 2 → y < 2 → differ x y ≡ (x + y) % 2
differ_bits zero y h k = omega arith
differ_bits (suc zero) zero h k = refl
differ_bits (suc zero) (suc zero) h k = refl
differ_bits (suc zero) (suc (suc y)) h k = absurd (omega arith)
differ_bits (suc (suc x)) y h k = absurd (omega arith)

bit_xor_digits : (a b : ℕ) → bit_xor a b ≡ bit_xor (a / 2) (b / 2) * 2 + (a % 2 + b % 2) % 2
bit_xor_digits zero b = omega (arith, bit_xor-bitwise 0 b, bit_xor-bitwise 0 (b / 2))
bit_xor_digits (suc a) b =
    bit_xor-bitwise (suc a) b
    ∙ ap (λ x. x * 2 + differ (suc a % 2) (b % 2))
        (parted_enough (a - suc a / 2) a (suc a / 2) (b / 2) (omega arith))
    ∙ ap (λ d. bit_xor (suc a / 2) (b / 2) * 2 + d)
        (differ_bits (suc a % 2) (b % 2) (omega arith) (omega arith))

-- The lowest digit, and the others.
pub bit_xor_half :
    (a b : ℕ)
    → (bit_xor a b / 2 ≡ bit_xor (a / 2) (b / 2)) × (bit_xor a b % 2 ≡ (a % 2 + b % 2) % 2)
bit_xor_half a b = omega (arith, bit_xor_digits a b)

left_fuel : (n a b c : ℕ) → b + c ≤ n → bit_xor a b ≡ bit_xor a c → b ≡ c
left_fuel zero a b c h e = omega arith
left_fuel (suc n) a b c h e =
    let half : b / 2 ≡ c / 2 =
      left_fuel n (a / 2) (b / 2) (c / 2) (omega arith)
        (sym (bit_xor_half a b).0 ∙ ap (λ x. x / 2) e ∙ (bit_xor_half a c).0) in
    omega (arith, half, (bit_xor_half a b).1, (bit_xor_half a c).1, ap (λ x. x % 2) e)

right_fuel : (n a b c : ℕ) → a + b ≤ n → bit_xor a c ≡ bit_xor b c → a ≡ b
right_fuel zero a b c h e = omega arith
right_fuel (suc n) a b c h e =
    let half : a / 2 ≡ b / 2 =
      right_fuel n (a / 2) (b / 2) (c / 2) (omega arith)
        (sym (bit_xor_half a c).0 ∙ ap (λ x. x / 2) e ∙ (bit_xor_half b c).0) in
    omega (arith, half, (bit_xor_half a c).1, (bit_xor_half b c).1, ap (λ x. x % 2) e)

-- Either argument can be cancelled.
pub bit_xor_cancel_left : (a b c : ℕ) → bit_xor a b ≡ bit_xor a c → b ≡ c
bit_xor_cancel_left a b c e = left_fuel (b + c) a b c (omega arith) e

pub bit_xor_cancel_right : (a b c : ℕ) → bit_xor a c ≡ bit_xor b c → a ≡ b
bit_xor_cancel_right a b c e = right_fuel (a + b) a b c (omega arith) e

-- `2 ^ k`, doubled step by step.
abbrev pub width : ℕ → ℕ
width zero = 1
width (suc k) = width k * 2

-- No more digits come out than went in.
pub bit_xor-lt : (k a b : ℕ) → a < width k → b < width k → bit_xor a b < width k
bit_xor-lt zero zero zero h g = omega (arith, bit_xor-bitwise 0 0)
bit_xor-lt zero zero (suc b) h g = absurd (omega arith)
bit_xor-lt zero (suc a) b h g = absurd (omega arith)
bit_xor-lt (suc k) a b h g =
    omega (arith, bit_xor_half a b, bit_xor-lt k (a / 2) (b / 2) (omega arith) (omega arith))
