-- ===== src/Values/Tests.antt =====
-- Values of utils/misc.go at concrete paths.
use go_cedar.Base.{◌≡◌, refl, ◌↔◌, [], ◌∷◌, some, ok, panic}
use go_cedar.Values.{
  Value, other, map_of, slice_of, no_entry, entry_then, no_item, item_then, get_value, go_into,
  entry, item, item_at, parse_int,
}
use go_cedar.Values.Paths.{MeetsNegative, get_value-panic}

-- {"a": [7, 8]}
abbrev document : Value
document =
    map_of (
      entry_then (b'a' ∷ []) (slice_of (item_then (other 7) (item_then (other 8) no_item)))
        no_entry)

second_item : get_value document ((b'a' ∷ []) ∷ (b'1' ∷ []) ∷ []) ≡ ok (some (other 8))
unfolding get_value go_into entry item_at item parse_int
second_item = refl

get_value-panic_example :
    (get_value document ((b'a' ∷ []) ∷ (b'-' ∷ b'1' ∷ []) ∷ []) ≡ panic)
    ↔ MeetsNegative document ((b'a' ∷ []) ∷ (b'-' ∷ b'1' ∷ []) ∷ [])
get_value-panic_example = get_value-panic document ((b'a' ∷ []) ∷ (b'-' ∷ b'1' ∷ []) ∷ [])
