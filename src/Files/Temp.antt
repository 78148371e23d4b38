-- ===== src/Files/Temp.antt =====
-- `CreateTemp` of utils/files.go. Names are texts. The readings of the clock, as
-- `strconv.FormatInt` prints them, are a list that is given.
use go_cedar.Base.{ℕ, List, [], ◌∷◌, ◌++◌, Bool, Option, none, some, ◌==◌, if◌then◌else◌, ◌&&◌}

-- What `os.OpenFile` meets: which names exist, and at which it fails for another reason.
pub record Names : Type 0 where
  pub exists : List ℕ → Bool
  pub broken : List ℕ → Bool

-- `waits`: no reading that was given was accepted.
pub data Opened : Type 0 where
  opened failed : List ℕ → Opened
  waits : Opened

-- The parts of a pattern before and behind its last star; without a star all of it is the first.
abbrev pub add_to_parts : ℕ → List ℕ → List ℕ × Option (List ℕ) → List ℕ × Option (List ℕ)
add_to_parts c pattern (prefix, some suffix) = (c ∷ prefix, some suffix)
add_to_parts c pattern (prefix, none) = if c == b'*' then ([], some pattern) else (c ∷ prefix, none)

abbrev pub parts : List ℕ → List ℕ × Option (List ℕ)
parts [] = ([], none)
parts (c ∷ pattern) = add_to_parts c pattern (parts pattern)

abbrev pub text_or_empty : Option (List ℕ) → List ℕ
text_or_empty none = []
text_or_empty (some text) = text

-- `path.Join`, for a directory that is written with no slash at its end and a first part with no
-- slashes and dots.
abbrev pub join : List ℕ → List ℕ → List ℕ
join dir [] = dir
join dir (c ∷ prefix) = dir ++ b'/' ∷ c ∷ prefix

abbrev pub or_temp_dir : List ℕ → List ℕ → List ℕ
or_temp_dir temp_dir [] = temp_dir
or_temp_dir temp_dir (c ∷ dir) = c ∷ dir

-- `os.OpenFile` with `O_CREATE`: `none` is an error of a file that exists.
unfoldable pub open_file : Bool → Names → List ℕ → Option Opened
open_file exclusive names name =
    if names.broken name
    then some (failed name)
    else if exclusive && names.exists name
    then none
    else some (opened name)

abbrev pub or_rest : Option Opened → Opened → Opened
or_rest none rest = rest
or_rest (some result) rest = result

-- The loop over the readings of the clock.
unfoldable pub try_names : (List ℕ → List ℕ) → Bool → Names → List (List ℕ) → Opened
try_names name exclusive names [] = waits
try_names name exclusive names (time ∷ times) =
    or_rest (open_file exclusive names (name time)) (try_names name exclusive names times)

-- `os.TempDir()` is `temp_dir`.
unfoldable pub create_temp : List ℕ → List ℕ → List ℕ → Bool → Names → List (List ℕ) → Opened
create_temp temp_dir dir pattern exclusive names times =
    let (prefix, suffix) = parts pattern in
    try_names (λ time. join (or_temp_dir temp_dir dir) prefix ++ time ++ text_or_empty suffix)
      exclusive names times
