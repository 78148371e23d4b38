-- ===== src/Values/Paths.antt =====
-- Paths of `GetValue` of utils/misc.go.
use go_cedar.Base.{
  ℕ, ◌≡◌, refl, ◌↔◌, inl, inr, List, [], ◌∷◌, ◌++◌, Option, none, some, Outcome, ok, panic, ◌>>=◌,
  ℤ, pos, negsuc, arith, ap, Outcome-cases, ◌∙◌, sym,
}
use go_cedar.Values.{Value, Items, slice_of, map_of, other, parse_int, item_at, go_into, get_value}

abbrev pub from : Option Value → List (List ℕ) → Outcome (Option Value)
from none path = ok none
from (some x) path = get_value x path

get_value-some :
    (x y : Value) (key : List ℕ) (path : List (List ℕ))
    → go_into x key ≡ ok (some y)
    → get_value x (key ∷ path) ≡ get_value y path
unfolding get_value
get_value-some x y key path e = ground (arith, e)

-- The value at a path of two parts is the one at the second part from the one at the first part.
pub get_value-append :
    (x : Value) (path more : List (List ℕ))
    → get_value x (path ++ more) ≡ (get_value x path >>= λ y. from y more)
unfolding get_value
get_value-append x [] more = refl
get_value-append x (key ∷ path) more = elim (Outcome-cases (go_into x key)) [
  | inl e ↦ ground (arith, e)
  | inr (inl e) ↦ ground (arith, e)
  | inr (inr (none, e)) ↦ ground (arith, e)
  | inr (inr (some y, e)) ↦
      get_value-some x y key (path ++ more) e
      ∙ get_value-append y path more
      ∙ ap (λ o. o >>= λ z. from z more) (sym (get_value-some x y key path e))
]

-- The path comes to a slice and goes on with a key that is a negative number.
abbrev pub MeetsNegative : Value → List (List ℕ) → Type 0
MeetsNegative x path =
    (front : List (List ℕ)) × (key : List ℕ) × (rest : List (List ℕ)) × (items : Items) × (n : ℕ)
    × (path ≡ front ++ key ∷ rest)
    × (get_value x front ≡ ok (some (slice_of items)))
    × (parse_int key ≡ some (negsuc n))

go_into-panic :
    (x : Value) (key : List ℕ)
    → go_into x key ≡ panic
    → (items : Items) × (n : ℕ) × (x ≡ slice_of items) × (parse_int key ≡ some (negsuc n))
unfolding go_into item_at
go_into-panic (other n) key h = cc
go_into-panic (map_of entries) key h = cc
go_into-panic (slice_of items) key h = negative (parse_int key) refl h
  where
    negative :
        (i : Option ℤ)
        → parse_int key ≡ i
        → item_at i items ≡ panic
        → (is : Items) × (n : ℕ) × (slice_of items ≡ slice_of is)
          × (parse_int key ≡ some (negsuc n))
    negative none e h = cc
    negative (some (pos n)) e h = cc
    negative (some (negsuc n)) e h = (items, n, refl, e)

panic-MeetsNegative :
    (x : Value) (path : List (List ℕ)) → get_value x path ≡ panic → MeetsNegative x path
unfolding get_value
panic-MeetsNegative x [] h = cc
panic-MeetsNegative x (key ∷ path) h = elim (Outcome-cases (go_into x key)) [
  | inl e ↦
      let (items, n, f, g) = go_into-panic x key e in
      ([], key, path, items, n, refl, ap (λ y. ok (some y)) f, g)
  | inr (inl e) ↦ absurd (ground (arith, e, h))
  | inr (inr (none, e)) ↦ absurd (ground (arith, e, h))
  | inr (inr (some y, e)) ↦
      let (front, k, rest, items, n, f, g, i) = panic-MeetsNegative y path (ground (arith, e, h)) in
      (key ∷ front, k, rest, items, n, ap (◌∷◌ key) f, get_value-some x y key front e ∙ g, i)
]

MeetsNegative-panic :
    (x : Value) (path : List (List ℕ)) → MeetsNegative x path → get_value x path ≡ panic
unfolding get_value go_into item_at
MeetsNegative-panic x path (front, key, rest, items, n, f, g, i) =
    ap (get_value x) f
    ∙ get_value-append x front (key ∷ rest)
    ∙ ap (λ o. o >>= λ y. from y (key ∷ rest)) g
    ∙ ground (arith, i)

-- `GetValue` panics exactly for the paths that come to a slice and go on with a negative number.
pub get_value-panic :
    (x : Value) (path : List (List ℕ)) → (get_value x path ≡ panic) ↔ MeetsNegative x path
get_value-panic x path = (panic-MeetsNegative x path, MeetsNegative-panic x path)
