-- ===== src/BufMap/Removal.antt =====
-- What `Remove` of bufs/map.go does to the entries behind the one that it deletes.
use go_cedar.Base.{ℕ, ◌+◌, ◌^◌, ◌<◌, ◌≡◌, List, [], ◌∷◌, false, none, some, lookup, insert, arith}
use go_cedar.BufMap.{equal, delete, probe, get, put, remove}
use go_cedar.BufMap.Probing.{equal_refl}

module _ {Entry : Type 0} (map_key : Entry → List ℕ) (hash : List ℕ → ℕ) where
  -- When two entries with different keys of one hash are put into an empty map, and the first is
  -- removed, then `Get` does not find the second, which is still in the map.
  pub get-remove :
      (e f : Entry) (h : ℕ)
      → equal (map_key e) (map_key f) ≡ false
      → hash (map_key e) ≡ h
      → hash (map_key f) ≡ h
      → h + 1 < 2 ^ 64
      → (put map_key hash e [] ≡ some (none, (h, e) ∷ []))
        × (put map_key hash f ((h, e) ∷ []) ≡ some (none, (h, e) ∷ (h + 1, f) ∷ []))
        × (remove map_key hash (map_key e) ((h, e) ∷ (h + 1, f) ∷ [])
            ≡ some (some e, (h + 1, f) ∷ []))
        × (get map_key hash (map_key f) ((h + 1, f) ∷ []) ≡ some (none, h))
  unfolding put get remove delete probe lookup insert
  get-remove e f h d k l b = ground (arith, equal_refl (map_key e))
