-- ===== src/Values.antt =====
-- `GetValue` of utils/misc.go: the value at a path in maps and slices of the empty interface.
pub mod Paths
mod Tests
use go_cedar.Base.{
  ℕ, zero, suc, ◌+◌, ◌-◌, ◌*◌, ◌^◌, List, [], ◌∷◌, Bool, true, false, ◌&&◌, Option, none, some, ltb,
  leb, ◌==◌, if◌then◌else◌, Outcome, ok, blocked, panic, same_text, ℤ, pos, negsuc,
}

-- A value that is neither a map nor a slice is coded by a number.
mutual
  pub data Value : Type 0 where
    other : ℕ → Value
    map_of : Entries → Value
    slice_of : Items → Value

  pub data Entries : Type 0 where
    no_entry : Entries
    entry_then : List ℕ → Value → Entries → Entries

  pub data Items : Type 0 where
    no_item : Items
    item_then : Value → Items → Items

unfoldable pub entry : List ℕ → Entries → Option Value
entry key no_entry = none
entry key (entry_then other_key v rest) = if same_text other_key key then some v else entry key rest

unfoldable pub item : ℕ → Items → Option Value
item i no_item = none
item zero (item_then v rest) = some v
item (suc i) (item_then v rest) = item i rest

abbrev pub digits_value : List ℕ → ℕ → Option ℕ
digits_value [] n = some n
digits_value (c ∷ text) n =
    let rest = digits_value text (n * 10 + (c - b'0')) in
    if leb b'0' c && leb c b'9' then rest else none

-- Digits, one at least.
abbrev pub digits : List ℕ → Option ℕ
digits [] = none
digits (c ∷ text) = digits_value (c ∷ text) 0

abbrev pub signed : Bool → Option ℕ → Option ℤ
signed negative none = none
signed true (some zero) = some (pos 0)
signed true (some (suc n)) = if ltb n (2 ^ 63) then some (negsuc n) else none
signed false (some n) = if ltb n (2 ^ 63) then some (pos n) else none

-- `strconv.ParseInt(key, 10, 64)`
unfoldable pub parse_int : List ℕ → Option ℤ
parse_int [] = none
parse_int (c ∷ text) =
    if c == b'-'
    then signed true (digits text)
    else if c == b'+'
    then signed false (digits text)
    else signed false (digits (c ∷ text))

-- `asSlice[sliceIdx]`, where only an index above the last one has been tested for.
unfoldable pub item_at : Option ℤ → Items → Outcome (Option Value)
item_at none items = ok none
item_at (some (pos i)) items = ok (item i items)
item_at (some (negsuc i)) items = panic

-- One round of the loop; `none` is the result `nil, false`.
unfoldable pub go_into : Value → List ℕ → Outcome (Option Value)
go_into (map_of entries) key = ok (entry key entries)
go_into (slice_of items) key = item_at (parse_int key) items
go_into (other n) key = ok none

unfoldable pub get_value : Value → List (List ℕ) → Outcome (Option Value)
get_value x [] = ok (some x)
get_value x (key ∷ keypath) = elim (go_into x key) [
  | ok (some y) ↦ get_value y keypath
  | ok none ↦ ok none
  | blocked ↦ blocked
  | panic ↦ panic
]
