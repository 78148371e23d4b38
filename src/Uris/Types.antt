-- ===== src/Uris/Types.antt =====
-- The content type that utils/http.go guesses.
use go_cedar.Base.{
  ℕ, suc, ◌≡◌, ◌⊎◌, inl, inr, List, ◌∷◌, ◌++◌, map, false, arith, ap, ◌∙◌, split, split_whole,
  split_two, last_cut, last_part, has, length, ltb, if◌then◌else◌,
}
use go_cedar.Uris.{
  ContentType, application_octet_stream, to_lower, choose, content_types,
  guess_content_type_from_filename,
}

-- The type goes by what stands behind the last dot, in lower case; a name without a dot has none.
pub guess-extension :
    (filename : List ℕ)
    → ((has b'.' filename ≡ false)
        × (guess_content_type_from_filename filename ≡ application_octet_stream))
      ⊎ ((front : List ℕ) × (ext : List ℕ) × (has b'.' ext ≡ false)
          × (filename ≡ front ++ b'.' ∷ ext)
          × (guess_content_type_from_filename filename ≡ choose (map to_lower ext) content_types))
unfolding guess_content_type_from_filename
guess-extension filename = elim (last_cut b'.' filename) [
  | inl n ↦ inl (n, ap after (split_whole b'.' filename n))
  | inr (front, ext, n, e) ↦
      let (p, q, qs, f, l) = split_two b'.' front ext in
      let g : last_part (q ∷ qs) ≡ ext = l ∙ ap last_part (split_whole b'.' ext n) in
      inr (
        front,
        ext,
        n,
        e,
        ap (λ s. after (split b'.' s)) e
            ∙ ap after f
            ∙ taken (length qs) (choose (map to_lower (last_part (q ∷ qs))) content_types)
            ∙ ap (λ s. choose (map to_lower s) content_types) g,
      )
]
  where
    after : List (List ℕ) → ContentType
    after parts =
        if ltb 1 (length parts)
        then choose (map to_lower (last_part parts)) content_types
        else application_octet_stream

    taken :
        (n : ℕ) (type : ContentType)
        → (if ltb 1 (suc (suc n)) then type else application_octet_stream) ≡ type
    taken n type = ground arith
