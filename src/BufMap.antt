-- ===== src/BufMap.antt =====
-- bufs/map.go: `BufMap`, a map from byte strings to entries that probes the addresses after a hash.
-- The hash of hash/maphash, with the seed of the map, is a parameter.
pub mod Probing
pub mod Removal
mod Tests
use go_cedar.Base.{
  ℕ, zero, suc, ◌+◌, ◌%◌, ◌^◌, List, [], ◌∷◌, Bool, true, false, ◌&&◌, Option, none, some, ◌==◌,
  if◌then◌else◌, lookup, insert, length,
}

-- `bytes.Equal`
abbrev pub equal : List ℕ → List ℕ → Bool
equal [] [] = true
equal [] (d ∷ t) = false
equal (c ∷ s) [] = false
equal (c ∷ s) (d ∷ t) = (c == d) && equal s t

-- `delete(m, at)`
unfoldable pub delete {ℓ} : {V : Type ℓ} → ℕ → List (ℕ × V) → List (ℕ × V)
delete at [] = []
delete at ((j, v) ∷ m) = let rest = delete at m in if j == at then rest else (j, v) ∷ rest

module _ {Entry : Type 0} (map_key : Entry → List ℕ) where
  -- The loop of `get` from an address: the entry with the key and its address, or no entry and the
  -- first free address. With no fuel left there is no result.
  unfoldable pub probe : ℕ → List ℕ → ℕ → List (ℕ × Entry) → Option (Option Entry × ℕ)
  probe zero key at m = none
  probe (suc fuel) key at m =
      let rest = probe fuel key ((at + 1) % 2 ^ 64) m in
      elim (lookup at m) [
        | none ↦ some (none, at)
        | some entry ↦ if equal (map_key entry) key then some (some entry, at) else rest
      ]

module _ {Entry : Type 0} (map_key : Entry → List ℕ) (hash : List ℕ → ℕ) where
  unfoldable pub get : List ℕ → List (ℕ × Entry) → Option (Option Entry × ℕ)
  get key m = probe map_key (suc (length m)) key (hash key % 2 ^ 64) m

  -- The entry that is replaced, and the map.
  unfoldable pub put : Entry → List (ℕ × Entry) → Option (Option Entry × List (ℕ × Entry))
  put entry m = elim (get (map_key entry) m) [
    | none ↦ none
    | some (existing, at) ↦ some (existing, insert at entry m)
  ]

  unfoldable pub remove : List ℕ → List (ℕ × Entry) → Option (Option Entry × List (ℕ × Entry))
  remove key m = elim (get key m) [
    | none ↦ none
    | some (none, at) ↦ some (none, m)
    | some (some entry, at) ↦ some (some entry, delete at m)
  ]
