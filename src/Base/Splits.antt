-- ===== src/Base/Splits.antt =====
-- `strings.Split` with a separator of one byte, and its first and last parts.
use mathlib.Core.Path.{◌≡◌, refl, ap, ◌∙◌, sym}
use mathlib.Core.Bool.{Bool, false, ◌||◌}
use mathlib.Core.Logic.{◌⊎◌, inl, inr}
use mathlib.Core.List.{List, [], ◌∷◌, ◌++◌}
use Prim.Native.Nat.{ℕ, ◌<◌}
use native.Mathlib.Omega.{arith}
use go_cedar.Base.Tests.{◌==◌, if◌then◌else◌, Bool-cases, ==_iff}
use go_cedar.Base.Lists.{length}

abbrev pub add_to_first : ℕ → List (List ℕ) → List (List ℕ)
add_to_first c [] = (c ∷ []) ∷ []
add_to_first c (part ∷ parts) = (c ∷ part) ∷ parts

unfoldable pub split : ℕ → List ℕ → List (List ℕ)
split separator [] = [] ∷ []
split separator (c ∷ text) =
    let parts = split separator text in if c == separator then [] ∷ parts else add_to_first c parts

-- `parts[0]` and `parts[len(parts)-1]` of parts that are not empty.
abbrev pub first_part : List (List ℕ) → List ℕ
first_part [] = []
first_part (part ∷ parts) = part

abbrev pub last_part : List (List ℕ) → List ℕ
last_part [] = []
last_part (part ∷ []) = part
last_part (part ∷ next ∷ parts) = last_part (next ∷ parts)

abbrev pub has : ℕ → List ℕ → Bool
has c [] = false
has c (d ∷ text) = (d == c) || has c text

-- A text without the separator is its only part.
pub split_whole : (c : ℕ) (text : List ℕ) → has c text ≡ false → split c text ≡ text ∷ []
unfolding split
split_whole c [] h = refl
split_whole c (d ∷ text) h = ground (arith, h, split_whole c text)

-- The parts are the first one, up to the first separator, and those of the rest.
pub split-append :
    (c : ℕ) (part rest : List ℕ)
    → has c part ≡ false
    → split c (part ++ c ∷ rest) ≡ part ∷ split c rest
unfolding split
split-append c [] rest h = ground arith
split-append c (d ∷ part) rest h = ground (arith, h, split-append c part rest)

-- There is always a part.
split_some : (c : ℕ) (text : List ℕ) → (p : List ℕ) × (ps : List (List ℕ)) × (split c text ≡ p ∷ ps)
unfolding split
split_some c [] = ([], [], refl)
split_some c (d ∷ text) =
    let (p, ps, e) = split_some c text in
    elim (Bool-cases (d == c)) [
      | inl y ↦ ([], split c text, ground (arith, y))
      | inr n ↦ (d ∷ p, ps, ground (arith, n, e))
    ]

pub length-split : (c : ℕ) (text : List ℕ) → 0 < length (split c text)
length-split c text = let (p, ps, e) = split_some c text in omega (arith, ap length e)

-- A separator gives two parts at least, of which the later ones count for the last part.
pub split_two :
    (c : ℕ) (front rest : List ℕ)
    → (p : List ℕ) × (q : List ℕ) × (qs : List (List ℕ)) × (split c (front ++ c ∷ rest)
        ≡ p ∷ q ∷ qs)
      × (last_part (q ∷ qs) ≡ last_part (split c rest))
unfolding split
split_two c [] rest =
    let (p, ps, e) = split_some c rest in ([], p, ps, ground (arith, e), ap last_part (sym e))
split_two c (d ∷ front) rest =
    let (p, q, qs, e, l) = split_two c front rest in
    elim (Bool-cases (d == c)) [
      | inl y ↦ ([], p, q ∷ qs, ground (arith, y, e), l)
      | inr n ↦ (d ∷ p, q, qs, ground (arith, n, e), l)
    ]

-- What stands behind the last separator is the last part.
pub last_part-split :
    (c : ℕ) (front part : List ℕ)
    → has c part ≡ false
    → last_part (split c (front ++ c ∷ part)) ≡ part
last_part-split c front part h =
    let (p, q, qs, e, l) = split_two c front part in
    ap last_part e ∙ l ∙ ap last_part (split_whole c part h)

-- A text is cut at the first separator, or has none.
pub first_cut :
    (c : ℕ) (text : List ℕ)
    → (has c text ≡ false)
      ⊎ ((part : List ℕ) × (rest : List ℕ) × (has c part ≡ false) × (text ≡ part ++ c ∷ rest))
first_cut c [] = inl refl
first_cut c (d ∷ text) = elim (Bool-cases (d == c)) [
  | inl y ↦ inr ([], text, refl, ap (λ e. e ∷ text) ((==_iff d c).0 y))
  | inr n ↦ elim (first_cut c text) [
    | inl h ↦ inl (ground (arith, n, h))
    | inr (part, rest, h, e) ↦ inr (d ∷ part, rest, ground (arith, n, h), ap (◌∷◌ d) e)
  ]
]

-- A text is cut at the last separator, or has none.
pub last_cut :
    (c : ℕ) (text : List ℕ)
    → (has c text ≡ false)
      ⊎ ((front : List ℕ) × (part : List ℕ) × (has c part ≡ false) × (text ≡ front ++ c ∷ part))
last_cut c [] = inl refl
last_cut c (d ∷ text) = elim (last_cut c text) [
  | inr (front, part, h, e) ↦ inr (d ∷ front, part, h, ap (◌∷◌ d) e)
  | inl h ↦ elim (Bool-cases (d == c)) [
    | inl y ↦ inr ([], text, h, ap (λ e. e ∷ text) ((==_iff d c).0 y))
    | inr n ↦ inl (ground (arith, n, h))
  ]
]
