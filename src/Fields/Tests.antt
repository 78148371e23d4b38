-- ===== src/Fields/Tests.antt =====
-- The maps of log/fields.go at concrete names.
use go_cedar.Base.{ℕ, ◌≡◌, refl, List, [], ◌∷◌, some}
use go_cedar.Fields.{Value, text, other, field, assign_all, assign_pairs, with_fields}

-- The name "a" with the value 1.
abbrev one_field : List (List ℕ × Value ℕ)
one_field = (b'a' ∷ [], other 1) ∷ []

replaced :
    field (b'a' ∷ []) (with_fields one_field (text (b'a' ∷ []) ∷ other 2 ∷ [])) ≡ some (other 2)
unfolding with_fields assign_pairs assign_all
replaced = refl
