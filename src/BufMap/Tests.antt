-- ===== src/BufMap/Tests.antt =====
-- A `BufMap` of bufs/map.go whose entries are their own keys and all have the hash 3.
use go_cedar.Base.{ℕ, ◌+◌, ◌≡◌, refl, List, [], ◌∷◌, Option, none, some, arith}
use go_cedar.BufMap.{get, put, remove}
use go_cedar.BufMap.Probing.{get-put}
use go_cedar.BufMap.Removal.{get-remove}

abbrev own_key : List ℕ → List ℕ
own_key e = e

abbrev same_hash : List ℕ → ℕ
same_hash key = 3

get-put_example :
    (existing : Option (List ℕ)) × (m' : List (ℕ × List ℕ)) × (at : ℕ) × (put own_key same_hash
        (5 ∷ [])
        ((3, 4 ∷ []) ∷ [])
      ≡ some (existing, m'))
    × (get own_key same_hash (5 ∷ []) m' ≡ some (some (5 ∷ []), at))
get-put_example = get-put own_key same_hash (5 ∷ []) ((3, 4 ∷ []) ∷ []) (omega arith)

get-remove_example :
    (put own_key same_hash (5 ∷ []) [] ≡ some (none, (3, 5 ∷ []) ∷ []))
    × (put own_key same_hash (6 ∷ []) ((3, 5 ∷ []) ∷ [])
        ≡ some (none, (3, 5 ∷ []) ∷ (3 + 1, 6 ∷ []) ∷ []))
    × (remove own_key same_hash (5 ∷ []) ((3, 5 ∷ []) ∷ (3 + 1, 6 ∷ []) ∷ [])
        ≡ some (some (5 ∷ []), (3 + 1, 6 ∷ []) ∷ []))
    × (get own_key same_hash (6 ∷ []) ((3 + 1, 6 ∷ []) ∷ []) ≡ some (none, 3))
get-remove_example = get-remove own_key same_hash (5 ∷ []) (6 ∷ []) 3 refl refl refl (omega arith)
