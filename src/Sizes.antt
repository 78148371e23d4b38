-- ===== src/Sizes.antt =====
-- `FileSize` of utils/files.go: sizes as text. Text is the list of its code points. Numbers of floating
-- point are a parameter.
pub mod Scan
pub mod Units
pub mod Reading
mod Tests
use go_cedar.Base.{
  ℕ, zero, suc, ◌+◌, ◌-◌, ◌*◌, List, [], ◌∷◌, ◌++◌, map, Bool, ◌&&◌, Option, none, some, length,
  drop, ltb, leb, ◌==◌, if◌then◌else◌, same_text, strip,
}
use go_cedar.Process.{decimal}

abbrev pub kb_size : ℕ
kb_size = 1024

abbrev pub mb_size : ℕ
mb_size = 1000000

abbrev pub gb_size : ℕ
gb_size = 1000 * mb_size

abbrev pub tb_size : ℕ
tb_size = 1000 * gb_size

abbrev pub b_text : List ℕ
b_text = b'b' ∷ []

abbrev pub kb_text : List ℕ
kb_text = b'k' ∷ b_text

abbrev pub mb_text : List ℕ
mb_text = b'm' ∷ b_text

abbrev pub gb_text : List ℕ
gb_text = b'g' ∷ b_text

abbrev pub tb_text : List ℕ
tb_text = b't' ∷ b_text

-- `strings.ToLower`: besides the capitals, only the Kelvin sign has a letter of the units as its lower
-- case; other letters are left as they are.
abbrev pub to_lower : ℕ → ℕ
to_lower c = if leb b'A' c && leb c b'Z' then c + 32 else if c == 0x212A then b'k' else c

abbrev pub is_digit : ℕ → Bool
is_digit c = leb b'0' c && leb c b'9'

-- `\d*`, and what follows it.
abbrev pub digits_of : List ℕ → List ℕ
digits_of [] = []
digits_of (c ∷ text) = let more = digits_of text in if is_digit c then c ∷ more else []

abbrev pub after_digits : List ℕ → List ℕ
after_digits [] = []
after_digits (c ∷ text) = let rest = after_digits text in if is_digit c then rest else c ∷ text

-- `\.?\d*`
abbrev pub fraction_of : List ℕ → List ℕ
fraction_of [] = []
fraction_of (c ∷ text) = if c == b'.' then c ∷ digits_of text else []

-- `(tb|gb|mb|kb|b)?`
abbrev pub unit_of : List (List ℕ) → List ℕ → List ℕ
unit_of [] text = []
unit_of (unit ∷ units) text =
    let other = unit_of units text in elim (strip unit text) [ some rest ↦ unit | none ↦ other ]

abbrev pub unit_texts : List (List ℕ)
unit_texts = tb_text ∷ gb_text ∷ mb_text ∷ kb_text ∷ b_text ∷ []

abbrev pub with_fraction : List ℕ → List ℕ → Option (List ℕ)
with_fraction [] rest = none
with_fraction (d ∷ digits) rest = some ((d ∷ digits) ++ fraction_of rest)

abbrev pub with_unit : Option (List ℕ) → List ℕ → Option (List ℕ × List ℕ)
with_unit none text = none
with_unit (some num) text = some (num, unit_of unit_texts (drop (length num) text))

-- The number and the unit where the text starts.
unfoldable pub match_start : List ℕ → Option (List ℕ × List ℕ)
match_start text = with_unit (with_fraction (digits_of text) (after_digits text)) text

-- `FindAllStringSubmatch`: the number is that of the code points which belong to the last match.
unfoldable pub find_all : ℕ → List ℕ → List (List ℕ × List ℕ)
find_all skipped [] = []
find_all (suc skipped) (c ∷ text) = find_all skipped text
find_all zero (c ∷ text) = elim (match_start (c ∷ text)) [
  | none ↦ find_all 0 text
  | some (num, unit) ↦ (num, unit) ∷ find_all (length num + length unit - 1) text
]

pub data Result : Type 0 where
  ok : ℕ → Result
  bad_filesize bad_number bad_unit : Result

-- `strconv.ParseFloat`, the product of a float with `float64(n)`, the conversion to `uint64`, and the
-- text of a number divided by another with two digits behind its point.
module _ {F : Type 0} (parse_float : List ℕ → Option F) (times : F → ℕ → F) (to_size : F → ℕ)
    (quotient_text : ℕ → ℕ → List ℕ) where
  unfoldable pub marshal_text : ℕ → List ℕ
  marshal_text s =
      if ltb tb_size s
      then quotient_text s tb_size ++ tb_text
      else if ltb gb_size s
      then quotient_text s gb_size ++ gb_text
      else if ltb mb_size s
      then quotient_text s mb_size ++ mb_text
      else if ltb kb_size s
      then quotient_text s kb_size ++ kb_text
      else decimal s ++ b_text

  -- The cases of the `switch`.
  unfoldable pub scale : F → List ℕ → Result
  scale x unit =
      if same_text unit []
      then ok (to_size x)
      else if same_text unit b_text
      then ok (to_size x)
      else if same_text unit kb_text
      then ok (to_size (times x kb_size))
      else if same_text unit mb_text
      then ok (to_size (times x mb_size))
      else if same_text unit gb_text
      then ok (to_size (times x gb_size))
      else if same_text unit tb_text
      then ok (to_size (times x tb_size))
      else bad_unit

  unfoldable pub scale_number : Option F → List ℕ → Result
  scale_number none unit = bad_number
  scale_number (some x) unit = scale x unit

  unfoldable pub size_of_match : List (List ℕ × List ℕ) → Result
  size_of_match ((num, unit) ∷ []) = scale_number (parse_float num) unit
  size_of_match other = bad_filesize

  unfoldable pub unmarshal_text : List ℕ → Result
  unmarshal_text text = size_of_match (find_all 0 (map to_lower text))

  abbrev pub size_or_zero : Result → ℕ
  size_or_zero (ok n) = n
  size_or_zero other = 0

  -- `ParseFileSize`: the variable that is set is 0 before.
  unfoldable pub parse_file_size : List ℕ → ℕ × Result
  parse_file_size s = (size_or_zero (unmarshal_text s), unmarshal_text s)

  -- `FileSize.String`
  unfoldable pub string : ℕ → List ℕ
  string s = marshal_text s
