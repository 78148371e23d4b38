-- ===== src/Base/Counts.antt =====
-- How often a number stands in a list: the multiset view of a list of identifiers.
use Prim.Native.Nat.{ℕ, zero, suc, ◌+◌, ◌≤◌}
use mathlib.Core.Option.{Option, none, some}
use mathlib.Core.Path.{◌≡◌, refl, ap}
use mathlib.Core.List.{List, [], ◌∷◌, ◌++◌, reverse, reverse-cons}
use native.Mathlib.Omega.{arith}
use mathlib.Core.Logic.{inl, inr}
use go_cedar.Base.Tests.{◌==◌, if◌then◌else◌, Option-cases}
use go_cedar.Base.Lists.{length, take}

abbrev pub one_if : ℕ → ℕ → ℕ
one_if a b = if a == b then 1 else 0

abbrev pub count : ℕ → List ℕ → ℕ
count a [] = 0
count a (x ∷ xs) = one_if x a + count a xs

pub count-append :
    (n : ℕ) (front back : List ℕ) → count n (front ++ back) ≡ count n front + count n back
count-append n [] back = omega arith
count-append n (m ∷ front) back = omega (arith, count-append n front back)

pub count-reverse : (a : ℕ) (xs : List ℕ) → count a (reverse xs) ≡ count a xs
count-reverse a [] = refl
count-reverse a (x ∷ xs) = omega (
  arith,
  ap (count a) (reverse-cons x xs),
  count-append a (reverse xs) (x ∷ []),
  count-reverse a xs,
)

pub count-take-le : (a n : ℕ) (xs : List ℕ) → count a (take n xs) ≤ count a xs
count-take-le a zero xs = omega arith
count-take-le a (suc n) [] = omega arith
count-take-le a (suc n) (x ∷ xs) = omega (arith, count-take-le a n xs)

-- Takes one occurrence out; `none` if there is none.
unfoldable pub take_out : ℕ → List ℕ → Option (List ℕ)
take_out a [] = none
take_out a (x ∷ xs) =
    if x == a then some xs else elim (take_out a xs) [ none ↦ none | some ys ↦ some (x ∷ ys) ]

pub count-take_out-none : (a : ℕ) (xs : List ℕ) → take_out a xs ≡ none → count a xs ≡ 0
unfolding take_out
count-take_out-none a [] h = refl
count-take_out-none a (x ∷ xs) h = elim (Option-cases (take_out a xs)) [
  | inl e ↦ ground (arith, count-take_out-none a xs e)
  | inr (zs, e) ↦ ground (arith, e)
]

pub count-take_out :
    (a b : ℕ) (xs : List ℕ) {ys : List ℕ}
    → take_out a xs ≡ some ys
    → (count b xs ≡ one_if a b + count b ys) × (length xs ≡ suc (length ys))
unfolding take_out
count-take_out a b [] h = cc
count-take_out a b (x ∷ xs) h = elim (Option-cases (take_out a xs)) [
  | inl e ↦ ground (arith, e)
  | inr (zs, e) ↦ ground (arith, count-take_out a b xs e)
]
