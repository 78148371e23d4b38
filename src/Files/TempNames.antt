-- ===== src/Files/TempNames.antt =====
-- Which file `CreateTemp` of utils/files.go opens.
use go_cedar.Base.{ℕ, List, [], ◌∷◌, ◌++◌, true, false, none, some, ◌≡◌, refl, ◌∙◌, ap, arith, has}
use go_cedar.Files.Temp.{
  Names, add_to_parts, or_rest, opened, parts, text_or_empty, join, or_temp_dir, open_file,
  try_names, create_temp,
}

abbrev pub AllTaken : (List ℕ → List ℕ) → Names → List (List ℕ) → Type 0
AllTaken name names [] = Unit
AllTaken name names (time ∷ times) =
    (names.exists (name time) ≡ true)
    × (names.broken (name time) ≡ false)
    × AllTaken name names times

parts-none : (text : List ℕ) → has b'*' text ≡ false → parts text ≡ (text, none)
parts-none [] h = refl
parts-none (c ∷ text) h =
    ap (add_to_parts c text) (parts-none text (ground (arith, h))) ∙ ground (arith, h)

parts-star :
    (prefix suffix : List ℕ)
    → has b'*' suffix ≡ false
    → parts (prefix ++ b'*' ∷ suffix) ≡ (prefix, some suffix)
parts-star [] suffix h = ap (add_to_parts b'*' suffix) (parts-none suffix h)
parts-star (c ∷ prefix) suffix h =
    ap (add_to_parts c (prefix ++ b'*' ∷ suffix)) (parts-star prefix suffix h)

open_file-none :
    (names : Names) (name : List ℕ)
    → names.exists name ≡ true
    → names.broken name ≡ false
    → open_file true names name ≡ none
unfolding open_file
open_file-none names name e b = rw (b, e) refl

open_file-some :
    (names : Names) (name : List ℕ)
    → names.exists name ≡ false
    → names.broken name ≡ false
    → open_file true names name ≡ some (opened name)
unfolding open_file
open_file-some names name e b = rw (b, e) refl

first_free :
    (name : List ℕ → List ℕ) (names : Names) (before after : List (List ℕ)) (time : List ℕ)
    → AllTaken name names before
    → names.exists (name time) ≡ false
    → names.broken (name time) ≡ false
    → try_names name true names (before ++ time ∷ after) ≡ opened (name time)
unfolding try_names
first_free name names [] after time a e b =
    ap (λ o. or_rest o (try_names name true names after)) (open_file-some names (name time) e b)
first_free name names (t ∷ before) after time (x, y, a) e b =
    ap (λ o. or_rest o (try_names name true names (before ++ time ∷ after)))
      (open_file-none names (name t) x y)
    ∙ first_free name names before after time a e b

-- The name that is made at a reading of the clock.
abbrev pub temp_name : List ℕ → List ℕ → List ℕ → List ℕ → List ℕ
temp_name dir prefix suffix time = join dir prefix ++ time ++ suffix

-- With `O_EXCL`, and readings of the clock at which the names that are made exist, up to one at which
-- the name does not and can be opened: `CreateTemp` makes the file of that name, which has the reading
-- at the place of the pattern's last star, in the given directory or that for temporary files.
pub create_temp-first_free :
    (temp_dir dir prefix suffix : List ℕ) (names : Names) (before after : List (List ℕ))
    (time : List ℕ)
    → has b'*' suffix ≡ false
    → AllTaken (temp_name (or_temp_dir temp_dir dir) prefix suffix) names before
    → names.exists (temp_name (or_temp_dir temp_dir dir) prefix suffix time) ≡ false
    → names.broken (temp_name (or_temp_dir temp_dir dir) prefix suffix time) ≡ false
    → create_temp temp_dir dir (prefix ++ b'*' ∷ suffix) true names (before ++ time ∷ after)
      ≡ opened (temp_name (or_temp_dir temp_dir dir) prefix suffix time)
unfolding create_temp
create_temp-first_free temp_dir dir prefix suffix names before after time h a e b =
    ap
      (λ p.
        try_names (λ t. join (or_temp_dir temp_dir dir) p.0 ++ t ++ text_or_empty p.1) true names
          (before ++ time ∷ after))
      (parts-star prefix suffix h)
    ∙ first_free (temp_name (or_temp_dir temp_dir dir) prefix suffix) names before after time a e b

-- For a pattern that begins with its last star, a name that does not exist and can be opened is made of
-- the directory's own name and the reading of the clock, so that the file lies beside the directory.
pub create_temp-beside :
    (temp_dir suffix : List ℕ) (c : ℕ) (dir : List ℕ) (names : Names) (after : List (List ℕ))
    (time : List ℕ)
    → has b'*' suffix ≡ false
    → names.exists ((c ∷ dir) ++ time ++ suffix) ≡ false
    → names.broken ((c ∷ dir) ++ time ++ suffix) ≡ false
    → create_temp temp_dir (c ∷ dir) (b'*' ∷ suffix) true names (time ∷ after)
      ≡ opened ((c ∷ dir) ++ time ++ suffix)
create_temp-beside temp_dir suffix c dir names after time h e b =
    create_temp-first_free temp_dir (c ∷ dir) [] suffix names [] after time h tt e b
