-- ===== src/Requests/Printing.antt =====
-- A tag of the usual form gives `unmarshalRequestRegexp` of utils/http.go the sources it was made of.
use go_cedar.Base.{suc, ◌∙◌, ap, ℕ, List, [], ◌∷◌, ◌++◌, false, some, ◌≡◌, refl, arith, length, has}
use go_cedar.Requests.Tags.{
  matched_length, Source, header, query, source_name, until_quote, non_empty, match_source,
  match_start, find_all,
}

-- `header:"name" `
abbrev pub print_source : Source → List ℕ → List ℕ → List ℕ
print_source source name rest = source_name source ++ b':' ∷ b'"' ∷ (name ++ b'"' ∷ b' ' ∷ rest)

abbrev pub print_tag : List (Source × List ℕ) → List ℕ
print_tag [] = []
print_tag ((source, name) ∷ matches) = print_source source name (print_tag matches)

-- Names without quotation marks, none of them empty.
abbrev pub AllNames : List (Source × List ℕ) → Type 0
AllNames [] = Unit
AllNames ((source, name) ∷ matches) =
    (non_empty name ≡ some name) × (has b'"' name ≡ false) × AllNames matches

until_quote-append :
    (name rest : List ℕ) → has b'"' name ≡ false → until_quote (name ++ b'"' ∷ rest) ≡ some name
until_quote-append [] rest h = refl
until_quote-append (c ∷ name) rest h = ground (arith, h, until_quote-append name rest)

find_all-skip :
    (name rest : List ℕ)
    → find_all (suc (length name)) (name ++ b'"' ∷ b' ' ∷ rest) ≡ find_all 0 (b' ' ∷ rest)
unfolding find_all
find_all-skip [] rest = refl
find_all-skip (c ∷ name) rest = find_all-skip name rest

find_all-space : (rest : List ℕ) → find_all 0 (b' ' ∷ rest) ≡ find_all 0 rest
unfolding find_all match_start match_source
find_all-space rest = refl

match_start-print :
    (source : Source) (name rest : List ℕ)
    → non_empty name ≡ some name
    → has b'"' name ≡ false
    → match_start (print_source source name rest) ≡ some (source, name)
unfolding match_start match_source
match_start-print header name rest n h = ground (arith, until_quote-append name (b' ' ∷ rest) h, n)
match_start-print query name rest n h = ground (arith, until_quote-append name (b' ' ∷ rest) h, n)

header_skipped :
    (name rest : List ℕ)
    → find_all
        (suc (suc (suc (suc (suc (suc (suc (suc (length name)))))))))
        (b'e' ∷ b'a' ∷ b'd' ∷ b'e' ∷ b'r' ∷ b':' ∷ b'"' ∷ (name ++ b'"' ∷ b' ' ∷ rest))
      ≡ find_all 0 rest
unfolding find_all
header_skipped name rest = find_all-skip name rest ∙ find_all-space rest

query_skipped :
    (name rest : List ℕ)
    → find_all
        (suc (suc (suc (suc (suc (suc (suc (length name))))))))
        (b'u' ∷ b'e' ∷ b'r' ∷ b'y' ∷ b':' ∷ b'"' ∷ (name ++ b'"' ∷ b' ' ∷ rest))
      ≡ find_all 0 rest
unfolding find_all
query_skipped name rest = find_all-skip name rest ∙ find_all-space rest

find_all-match :
    (c : ℕ) (text : List ℕ) (source : Source) (name : List ℕ) (k : ℕ)
    → match_start (c ∷ text) ≡ some (source, name)
    → matched_length source name ≡ suc k
    → find_all 0 (c ∷ text) ≡ (source, name) ∷ find_all k text
unfolding find_all
find_all-match c text source name k h e =
    rw (h, find_all) (ap (λ j. (source, name) ∷ find_all j text) (omega (arith, e)))

find_all-print :
    (source : Source) (name rest : List ℕ)
    → non_empty name ≡ some name
    → has b'"' name ≡ false
    → find_all 0 (print_source source name rest) ≡ (source, name) ∷ find_all 0 rest
find_all-print header name rest n h =
    find_all-match b'h'
      (b'e' ∷ b'a' ∷ b'd' ∷ b'e' ∷ b'r' ∷ b':' ∷ b'"' ∷ (name ++ b'"' ∷ b' ' ∷ rest)) header name
      (suc (suc (suc (suc (suc (suc (suc (suc (length name)))))))))
      (match_start-print header name rest n h) (omega arith)
    ∙ ap (λ r. (header, name) ∷ r) (header_skipped name rest)
find_all-print query name rest n h =
    find_all-match b'q' (b'u' ∷ b'e' ∷ b'r' ∷ b'y' ∷ b':' ∷ b'"' ∷ (name ++ b'"' ∷ b' ' ∷ rest))
      query name (suc (suc (suc (suc (suc (suc (suc (length name))))))))
      (match_start-print query name rest n h) (omega arith)
    ∙ ap (λ r. (query, name) ∷ r) (query_skipped name rest)

-- A tag that is written as `header:"name"` and `query:"name"`, with a space behind each, is read as
-- these sources and names in their order, when the names are not empty and have no quotation mark.
pub find_all-print_tag :
    (matches : List (Source × List ℕ)) → AllNames matches → find_all 0 (print_tag matches) ≡ matches
unfolding find_all
find_all-print_tag [] a = refl
find_all-print_tag ((source, name) ∷ matches) (n, h, a) =
    find_all-print source name (print_tag matches) n h
    ∙ ap (λ r. (source, name) ∷ r) (find_all-print_tag matches a)
