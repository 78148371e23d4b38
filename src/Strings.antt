-- ===== src/Strings.antt =====
-- utils/strings.go. A string is the list of its bytes.
pub mod Trimming
mod Tests
use go_cedar.Base.{
  ℕ, zero, suc, ◌+◌, ◌≤◌, ◌<◌, ◌≡◌, refl, List, [], ◌∷◌, ◌++◌, Bool, true, false, length, take, ltb,
  leb, if◌then◌else◌, length-append, take-append, arith, ◌-◌, ap, ◌∙◌, sym,
}

-- The loop appends to `filtered`.
unfoldable pub filter_loop : List (List ℕ) → List (List ℕ) → List (List ℕ)
filter_loop [] filtered = filtered
filter_loop ([] ∷ s) filtered = filter_loop s filtered
filter_loop ((c ∷ cs) ∷ s) filtered = filter_loop s (filtered ++ (c ∷ cs) ∷ [])

unfoldable pub filter_empty_strings : List (List ℕ) → List (List ℕ)
unfolding filter_loop
filter_empty_strings s = filter_loop s []

-- For a length that is not negative.
unfoldable pub trim_string_to_len : List ℕ → ℕ → List ℕ
trim_string_to_len s n = if leb (length s) n then s else take n s ++ b'.' ∷ b'.' ∷ b'.' ∷ []
