-- ===== src/Base/Bits.antt =====
-- `&` and `&^` of Go on numbers that are not negative.
use Prim.Native.Nat.{
  ℕ, zero, suc, ◌+◌, ◌-◌, ◌*◌, ◌/◌, ◌%◌, ◌≤◌, min, bit_and, digits, bit_and-bitwise,
}
use mathlib.Core.Path.{◌≡◌, refl, ap, ◌∙◌, sym}
use native.Mathlib.Omega.{arith}

-- `a &^ b`
abbrev pub bit_clear : ℕ → ℕ → ℕ
bit_clear a b = a - bit_and a b

abbrev common : ℕ → ℕ → ℕ → ℕ
common count a b = digits (λ b. zero) min count a b

-- One digit more than the number has changes nothing, and so do any.
common-suc : (count a b : ℕ) → a ≤ count → common (suc count) a b ≡ common count a b
common-suc zero zero b h = refl
common-suc zero (suc a) b h = absurd (omega arith)
common-suc (suc count) zero b h = refl
common-suc (suc count) (suc a) b h =
    ap (λ x. x * 2 + min (suc a % 2) (b % 2)) (common-suc count (suc a / 2) (b / 2) (omega arith))

common_more : (more count a b : ℕ) → count ≡ more + a → common count a b ≡ bit_and a b
common_more zero count a b e = ap (λ n. common n a b) (same count a e) ∙ sym (bit_and-bitwise a b)
  where
    same : (m n : ℕ) → m ≡ 0 + n → m ≡ n
    same m n e = omega arith
common_more (suc more) zero a b e = absurd (omega arith)
common_more (suc more) (suc count) a b e =
    common-suc count a b (omega arith) ∙ common_more more count a b (omega arith)

zero-bit_and : (b : ℕ) → bit_and 0 b ≡ 0
zero-bit_and b = bit_and-bitwise 0 b

-- The lowest digit, and the others.
pub bit_and_halves : (a b : ℕ) → bit_and a b ≡ bit_and (a / 2) (b / 2) * 2 + min (a % 2) (b % 2)
bit_and_halves zero b = omega (arith, zero-bit_and b, zero-bit_and (b / 2))
bit_and_halves (suc a) b =
    bit_and-bitwise (suc a) b
    ∙ ap (λ x. x * 2 + min (suc a % 2) (b % 2))
        (common_more (a - suc a / 2) a (suc a / 2) (b / 2) (omega arith))

and_le_fuel : (n a b : ℕ) → a ≤ n → (bit_and a b ≤ a) × (bit_and a b ≤ b)
and_le_fuel zero zero b h = omega (arith, zero-bit_and b)
and_le_fuel zero (suc a) b h = absurd (omega arith)
and_le_fuel (suc n) a b h =
    omega (arith, bit_and_halves a b, and_le_fuel n (a / 2) (b / 2) (omega arith))

pub bit_and-le : (a b : ℕ) → (bit_and a b ≤ a) × (bit_and a b ≤ b)
bit_and-le a b = and_le_fuel a a b (omega arith)

-- The halves of a masked number.
bit_and_half :
    (a b : ℕ)
    → (bit_and a b / 2 ≡ bit_and (a / 2) (b / 2)) × (bit_and a b % 2 ≡ min (a % 2) (b % 2))
bit_and_half a b = omega (arith, bit_and_halves a b)

and_and_fuel : (n a b : ℕ) → a ≤ n → bit_and (bit_and a b) b ≡ bit_and a b
and_and_fuel zero zero b h = ap (λ x. bit_and x b) (zero-bit_and b)
and_and_fuel zero (suc a) b h = absurd (omega arith)
and_and_fuel (suc n) a b h = omega (
  arith,
  bit_and_halves (bit_and a b) b,
  ap (λ x. bit_and x (b / 2)) (bit_and_half a b).0,
  (bit_and_half a b).1,
  and_and_fuel n (a / 2) (b / 2) (omega arith),
  bit_and_halves a b,
)

-- Masking twice is masking once.
pub bit_and_twice : (a b : ℕ) → bit_and (bit_and a b) b ≡ bit_and a b
bit_and_twice a b = and_and_fuel a a b (omega arith)

bit_clear_half :
    (a b : ℕ)
    → (bit_clear a b / 2 ≡ bit_clear (a / 2) (b / 2))
      × (bit_clear a b % 2 ≡ a % 2 - min (a % 2) (b % 2))
bit_clear_half a b = omega (arith, bit_and_halves a b, bit_and-le (a / 2) (b / 2))

clear_fuel : (n a b : ℕ) → a ≤ n → bit_and (bit_clear a b) a ≡ bit_clear a b
clear_fuel zero zero b h =
    let e : bit_clear 0 b ≡ 0 = omega arith in
    omega (arith, ap (λ x. bit_and x 0) e, zero-bit_and 0, e)
clear_fuel zero (suc a) b h = absurd (omega arith)
clear_fuel (suc n) a b h = omega (
  arith,
  bit_and_halves (bit_clear a b) a,
  ap (λ x. bit_and x (a / 2)) (bit_clear_half a b).0,
  bit_clear_half a b,
  clear_fuel n (a / 2) (b / 2) (omega arith),
)

-- What is left when bits are cleared is within the number.
pub bit_clear_within : (a b : ℕ) → bit_and (bit_clear a b) a ≡ bit_clear a b
bit_clear_within a b = clear_fuel a a b (omega arith)

self_fuel : (n a : ℕ) → a ≤ n → bit_and a a ≡ a
self_fuel zero zero h = zero-bit_and 0
self_fuel zero (suc a) h = absurd (omega arith)
self_fuel (suc n) a h = omega (arith, bit_and_halves a a, self_fuel n (a / 2) (omega arith))

pub bit_and_self : (a : ℕ) → bit_and a a ≡ a
bit_and_self a = self_fuel a a (omega arith)
