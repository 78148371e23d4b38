-- ===== src/Process/Labels.antt =====
-- The labels of `nextProcessLabel` of process/process.go: the number can be read off them.
use go_cedar.Base.{
  ℕ, zero, suc, ◌+◌, ◌-◌, ◌*◌, ◌/◌, ◌%◌, ◌<◌, ◌≡◌, List, [], ◌∷◌, ◌++◌, arith, ◌==◌, if◌then◌else◌,
  ap,
}
use go_cedar.Process.{decimal_loop, decimal, next_process_label}

-- The decimal digits after the last '#', read with a number before them.
abbrev pub number_in : List ℕ → ℕ → ℕ
number_in [] n = n
number_in (c ∷ text) n =
    let after = number_in text 0 in
    let more = number_in text (n * 10 + (c - b'0')) in if c == b'#' then after else more

number_in-digit :
    (d n : ℕ) (text : List ℕ)
    → d < 10
    → number_in ((b'0' + d) ∷ text) n ≡ number_in text (n * 10 + d)
number_in-digit d n text h = ground (arith, h, ap (number_in text) (fits n d))
  where
    fits : (n d : ℕ) → n * 10 + (b'0' + d - b'0') ≡ n * 10 + d
    fits n d = omega arith

number_in-decimal_loop :
    (fuel n : ℕ) (digits : List ℕ)
    → n < fuel
    → number_in (decimal_loop fuel n digits) 0 ≡ number_in digits n
unfolding decimal_loop
number_in-decimal_loop zero n digits h = absurd (omega arith)
number_in-decimal_loop (suc fuel) n digits h = ground (
  arith,
  number_in-digit n 0 digits,
  number_in-digit (n % 10) (n / 10) digits (omega arith),
  number_in-decimal_loop fuel (n / 10) ((b'0' + n % 10) ∷ digits),
  ap (number_in digits) (split n),
)
  where
    split : (n : ℕ) → n / 10 * 10 + n % 10 ≡ n
    split n = omega arith

pub number_in-decimal : (n : ℕ) → number_in (decimal n) 0 ≡ n
unfolding decimal
number_in-decimal n = number_in-decimal_loop (suc n) n [] (omega arith)

number_in-label : (base : List ℕ) (k n : ℕ) → number_in (base ++ b' ' ∷ b'#' ∷ decimal n) k ≡ n
unfolding decimal
number_in-label [] k n = number_in-decimal_loop (suc n) n [] (omega arith)
number_in-label (c ∷ base) k n =
    ground (arith, number_in-label base 0 n, number_in-label base (k * 10 + (c - b'0')) n)

-- A label of `nextProcessLabel` has its number.
pub number_in-next_process_label :
    (base : List ℕ) (counter : ℕ)
    → let (label, pid) = next_process_label base counter in number_in label 0 ≡ pid
unfolding next_process_label
number_in-next_process_label base counter = number_in-label base 0 (counter + 1)
