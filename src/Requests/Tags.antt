-- ===== src/Requests/Tags.antt =====
-- The tags of the fields of a request, as `unmarshalRequestRegexp` of utils/http.go reads them. Text is
-- the list of its bytes.
use go_cedar.Base.{
  strip, ℕ, zero, suc, ◌+◌, ◌-◌, List, [], ◌∷◌, Option, none, some, length, ◌==◌, if◌then◌else◌,
}

pub data Source : Type 0 where
  header query : Source

abbrev pub source_name : Source → List ℕ
source_name header = b'h' ∷ b'e' ∷ b'a' ∷ b'd' ∷ b'e' ∷ b'r' ∷ []
source_name query = b'q' ∷ b'u' ∷ b'e' ∷ b'r' ∷ b'y' ∷ []

-- `[^"]*"`: what stands before the next quotation mark.
abbrev pub until_quote : List ℕ → Option (List ℕ)
until_quote [] = none
until_quote (c ∷ text) =
    let rest = until_quote text in
    if c == b'"' then some [] else elim rest [ none ↦ none | some name ↦ some (c ∷ name) ]

abbrev pub non_empty : List ℕ → Option (List ℕ)
non_empty [] = none
non_empty (c ∷ name) = some (c ∷ name)

infixl 5 ◌>>=◌
abbrev pub ◌>>=◌ : {A B : Type 0} → Option A → (A → Option B) → Option B
none >>= f = none
some a >>= f = f a

-- `header:"([^"]+)"` or `query:"([^"]+)"` where the text starts.
unfoldable pub match_source : Source → List ℕ → Option (List ℕ)
match_source source text =
    strip (source_name source) text >>= strip (b':' ∷ b'"' ∷ []) >>= until_quote >>= non_empty

abbrev pub or_else : {A : Type 0} → Option A → Option A → Option A
or_else none other = other
or_else (some a) other = some a

unfoldable pub match_start : List ℕ → Option (Source × List ℕ)
match_start text =
    or_else (match_source header text >>= λ name. some (header, name))
      (match_source query text >>= λ name. some (query, name))

abbrev pub matched_length : Source → List ℕ → ℕ
matched_length source name = length (source_name source) + length name + 3

-- `FindAllStringSubmatch`: the matches from left to right. The number is that of the bytes which
-- still belong to the last match.
unfoldable pub find_all : ℕ → List ℕ → List (Source × List ℕ)
find_all skipped [] = []
find_all (suc skipped) (c ∷ text) = find_all skipped text
find_all zero (c ∷ text) = elim (match_start (c ∷ text)) [
  | none ↦ find_all 0 text
  | some (source, name) ↦ (source, name) ∷ find_all (matched_length source name - 1) text
]
