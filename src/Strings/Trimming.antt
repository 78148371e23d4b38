-- ===== src/Strings/Trimming.antt =====
-- What the functions of utils/strings.go leave of their strings.
use mathlib.Core.List.{append_assoc, append-nil}
use go_cedar.Base.{
  length-take, ℕ, zero, suc, ◌+◌, ◌≤◌, ◌≡◌, refl, List, [], ◌∷◌, ◌++◌, length, take, length-append,
  arith, ap, ◌∙◌, sym, subst,
}
use go_cedar.Strings.{filter_loop, filter_empty_strings, trim_string_to_len}

-- No string of the list is empty.
abbrev pub NoneEmpty : List (List ℕ) → Type 0
NoneEmpty [] = Unit
NoneEmpty ([] ∷ s) = ⊥
NoneEmpty ((c ∷ cs) ∷ s) = NoneEmpty s

abbrev non_empty : List (List ℕ) → List (List ℕ)
non_empty [] = []
non_empty ([] ∷ s) = non_empty s
non_empty ((c ∷ cs) ∷ s) = (c ∷ cs) ∷ non_empty s

filter_loop-append : (s t : List (List ℕ)) → filter_loop s t ≡ t ++ non_empty s
unfolding filter_loop
filter_loop-append [] t = sym (append-nil t)
filter_loop-append ([] ∷ s) t = filter_loop-append s t
filter_loop-append ((c ∷ cs) ∷ s) t =
    filter_loop-append s (t ++ (c ∷ cs) ∷ []) ∙ append_assoc t ((c ∷ cs) ∷ []) (non_empty s)

non_empty-NoneEmpty : (s : List (List ℕ)) → NoneEmpty (non_empty s)
non_empty-NoneEmpty [] = tt
non_empty-NoneEmpty ([] ∷ s) = non_empty-NoneEmpty s
non_empty-NoneEmpty ((c ∷ cs) ∷ s) = non_empty-NoneEmpty s

non_empty_same : (t : List (List ℕ)) → NoneEmpty t → non_empty t ≡ t
non_empty_same [] h = refl
non_empty_same ([] ∷ t) h = absurd h
non_empty_same ((c ∷ cs) ∷ t) h = ap (λ l. (c ∷ cs) ∷ l) (non_empty_same t h)

-- The result holds no empty string, and strings of which none is empty are all kept, in their order.
pub filter_empty_strings-NoneEmpty :
    (s t : List (List ℕ))
    → NoneEmpty t
    → NoneEmpty (filter_empty_strings s) × (filter_empty_strings t ≡ t)
unfolding filter_empty_strings
filter_empty_strings-NoneEmpty s t h = (
  subst NoneEmpty (sym (filter_loop-append s [])) (non_empty-NoneEmpty s),
  filter_loop-append t [] ∙ non_empty_same t h,
)

take_of_take : (n : ℕ) (s t : List ℕ) → n ≤ length s → take n (take n s ++ t) ≡ take n s
take_of_take zero s t h = refl
take_of_take (suc n) [] t h = absurd (omega arith)
take_of_take (suc n) (c ∷ s) t h = ap (λ l. c ∷ l) (take_of_take n s t (omega arith))

-- The result starts with the same bytes, up to the given length, and is longer than that by the
-- three dots at most.
pub take-trim_string_to_len :
    (s : List ℕ) (n : ℕ)
    → (take n (trim_string_to_len s n) ≡ take n s) × (length (trim_string_to_len s n) ≤ n + 3)
unfolding trim_string_to_len
take-trim_string_to_len s n = ground (
  arith,
  take_of_take n s (b'.' ∷ b'.' ∷ b'.' ∷ []),
  length-take n s,
  length-append (take n s) (b'.' ∷ b'.' ∷ b'.' ∷ []),
)
