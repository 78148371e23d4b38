-- ===== src/Fields/Merging.antt =====
-- What `With`, `Merge` and `Slice` of log/fields.go give.
use mathlib.Core.List.{append_assoc, append-nil}
use go_cedar.Base.{
  same_text, same_text_refl, same_text_sound, ℕ, ◌*◌, ◌≡◌, refl, List, [], ◌∷◌, ◌++◌, Option, none,
  some, length, if◌then◌else◌, arith, ap, ◌∙◌, sym, Bool-cases, inl, inr,
}
use go_cedar.Fields.{
  Value, nil, text, other, field, assign, assign_all, assign_pairs, with_fields, merge, nils,
  append_fields, slice,
}

module _ {A : Type 0} where
  -- The one that is there, or else the other.
  abbrev pub or_else : Option (Value A) → Option (Value A) → Option (Value A)
  or_else none b = b
  or_else (some a) b = some a

  or_else_assoc : (a b c : Option (Value A)) → or_else a (or_else b c) ≡ or_else (or_else a b) c
  or_else_assoc none b c = refl
  or_else_assoc (some a) b c = refl

  -- The value of the last pair with the name, and of the last entry with it.
  abbrev pub last_pair : List ℕ → List (Value A) → Option (Value A)
  last_pair k [] = none
  last_pair k (x ∷ []) = none
  last_pair k (text j ∷ v ∷ xs) = or_else (last_pair k xs) (if same_text j k then some v else none)
  last_pair k (nil ∷ v ∷ xs) = last_pair k xs
  last_pair k (other a ∷ v ∷ xs) = last_pair k xs

  abbrev pub last_entry : List ℕ → List (List ℕ × Value A) → Option (Value A)
  last_entry k [] = none
  last_entry k ((j, v) ∷ g) = or_else (last_entry k g) (if same_text j k then some v else none)

  field-assign :
      (k j : List ℕ) (v : Value A) (f : List (List ℕ × Value A))
      → field k (assign j v f) ≡ or_else (if same_text j k then some v else none) (field k f)
  field-assign k j v [] = ground arith
  field-assign k j v ((i, w) ∷ f) = elim (Bool-cases (same_text i j)) [
    | inl e ↦ ground (arith, e, same_text_sound i j e)
    | inr e ↦ elim (Bool-cases (same_text i k)) [
      | inl p ↦ elim (Bool-cases (same_text j k)) [
        | inl q ↦
            absurd
              (ground (arith, e, same_text_sound i k p, same_text_sound j k q, same_text_refl k))
        | inr q ↦ ground (arith, e, p, q)
      ]
      | inr p ↦ ground (arith, e, p, field-assign k j v f)
    ]
  ]

  field-assign_all :
      (k : List ℕ) (g f : List (List ℕ × Value A))
      → field k (assign_all g f) ≡ or_else (last_entry k g) (field k f)
  unfolding assign_all
  field-assign_all k [] f = refl
  field-assign_all k ((j, v) ∷ g) f =
      field-assign_all k g (assign j v f)
      ∙ ap (or_else (last_entry k g)) (field-assign k j v f)
      ∙ or_else_assoc (last_entry k g) _ (field k f)

  field-assign_pairs :
      (k : List ℕ) (xs : List (Value A)) (f : List (List ℕ × Value A))
      → field k (assign_pairs xs f) ≡ or_else (last_pair k xs) (field k f)
  unfolding assign_pairs
  field-assign_pairs k [] f = refl
  field-assign_pairs k (nil ∷ []) f = refl
  field-assign_pairs k (text j ∷ []) f = refl
  field-assign_pairs k (other a ∷ []) f = refl
  field-assign_pairs k (nil ∷ v ∷ xs) f = field-assign_pairs k xs f
  field-assign_pairs k (other a ∷ v ∷ xs) f = field-assign_pairs k xs f
  field-assign_pairs k (text j ∷ v ∷ xs) f =
      field-assign_pairs k xs (assign j v f)
      ∙ ap (or_else (last_pair k xs)) (field-assign k j v f)
      ∙ or_else_assoc (last_pair k xs) _ (field k f)

  or_else-none : (a : Option (Value A)) → or_else a none ≡ a
  or_else-none none = refl
  or_else-none (some a) = refl

  -- A name has the value of its last pair in `xs` whose first part is a string, or else its value in
  -- `f`.
  pub field-with_fields :
      (k : List ℕ) (f : List (List ℕ × Value A)) (xs : List (Value A))
      → field k (with_fields f xs) ≡ or_else (last_pair k xs) (last_entry k f)
  unfolding with_fields
  field-with_fields k f xs =
      field-assign_pairs k xs (assign_all f [])
      ∙ ap (or_else (last_pair k xs)) (field-assign_all k f [] ∙ or_else-none (last_entry k f))

  -- A name has its value in the second map, or else its value in the first.
  pub field-merge :
      (k : List ℕ) (f f2 : List (List ℕ × Value A))
      → field k (merge f f2) ≡ or_else (last_entry k f2) (last_entry k f)
  unfolding merge
  field-merge k f f2 =
      field-assign_all k f2 (assign_all f [])
      ∙ ap (or_else (last_entry k f2)) (field-assign_all k f [] ∙ or_else-none (last_entry k f))

  abbrev pub flatten : List (List ℕ × Value A) → List (Value A)
  flatten [] = []
  flatten ((k, v) ∷ f) = text k ∷ v ∷ flatten f

  append_fields-append :
      (f : List (List ℕ × Value A)) (s : List (Value A)) → append_fields f s ≡ s ++ flatten f
  unfolding append_fields
  append_fields-append [] s = sym (append-nil s)
  append_fields-append ((k, v) ∷ f) s =
      append_fields-append f (s ++ text k ∷ v ∷ []) ∙ append_assoc s (text k ∷ v ∷ []) (flatten f)

  -- `Slice` gives as many nils as there are names and values, and then the names and values.
  pub slice-padded : (f : List (List ℕ × Value A)) → slice f ≡ nils (length f * 2) ++ flatten f
  unfolding slice
  slice-padded f = append_fields-append f (nils (length f * 2))
