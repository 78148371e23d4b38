-- ===== src/Strings/Tests.antt =====
-- The functions of utils/strings.go at concrete strings.
use go_cedar.Base.{◌≡◌, refl, [], ◌∷◌}
use go_cedar.Strings.{filter_loop, filter_empty_strings}

filtered_two :
    filter_empty_strings ([] ∷ (b'a' ∷ []) ∷ [] ∷ (b'b' ∷ []) ∷ []) ≡ (b'a' ∷ []) ∷ (b'b' ∷ []) ∷ []
unfolding filter_empty_strings filter_loop
filtered_two = refl
