-- ===== src/Fields.antt =====
-- log/fields.go: maps from names to values. A string is the list of its bytes; a map is a list of its
-- entries in the order of an iteration, where the first entry of a name counts.
pub mod Merging
mod Tests
use go_cedar.Base.{
  same_text, ℕ, zero, suc, ◌+◌, ◌*◌, List, [], ◌∷◌, ◌++◌, Bool, true, false, ◌&&◌, Option, none,
  some, length, ◌==◌, if◌then◌else◌,
}

-- An `interface{}`: nil, a string, or another value.
pub data Value (A : Type 0) : Type 0 where
  nil : Value A
  text : List ℕ → Value A
  other : A → Value A

module _ {A : Type 0} where
  abbrev pub field : List ℕ → List (List ℕ × Value A) → Option (Value A)
  field k [] = none
  field k ((j, v) ∷ f) = if same_text j k then some v else field k f

  -- `f[k] = v`
  abbrev pub assign : List ℕ → Value A → List (List ℕ × Value A) → List (List ℕ × Value A)
  assign k v [] = (k, v) ∷ []
  assign k v ((j, w) ∷ f) = if same_text j k then (j, v) ∷ f else (j, w) ∷ assign k v f

  -- `for k, v := range g { f[k] = v }`
  unfoldable pub assign_all :
      List (List ℕ × Value A) → List (List ℕ × Value A) → List (List ℕ × Value A)
  assign_all [] f = f
  assign_all ((k, v) ∷ g) f = assign_all g (assign k v f)

  -- The loop over the pairs of `xs`; a pair whose first part is no string is left out.
  unfoldable pub assign_pairs : List (Value A) → List (List ℕ × Value A) → List (List ℕ × Value A)
  assign_pairs [] f = f
  assign_pairs (x ∷ []) f = f
  assign_pairs (text k ∷ v ∷ xs) f = assign_pairs xs (assign k v f)
  assign_pairs (nil ∷ v ∷ xs) f = assign_pairs xs f
  assign_pairs (other a ∷ v ∷ xs) f = assign_pairs xs f

  unfoldable pub with_fields : List (List ℕ × Value A) → List (Value A) → List (List ℕ × Value A)
  with_fields f xs = assign_pairs xs (assign_all f [])

  unfoldable pub merge : List (List ℕ × Value A) → List (List ℕ × Value A) → List (List ℕ × Value A)
  merge f f2 = assign_all f2 (assign_all f [])

  abbrev pub nils : ℕ → List (Value A)
  nils zero = []
  nils (suc n) = nil ∷ nils n

  -- The loop of `Slice`.
  unfoldable pub append_fields : List (List ℕ × Value A) → List (Value A) → List (Value A)
  append_fields [] s = s
  append_fields ((k, v) ∷ f) s = append_fields f (s ++ text k ∷ v ∷ [])

  -- `make` gives the slice a length, not only a capacity.
  unfoldable pub slice : List (List ℕ × Value A) → List (Value A)
  slice f = append_fields f (nils (length f * 2))
