-- ===== src/Hashes/Tests.antt =====
-- `APHash64` of bufs/hash.go on short buffers.
use go_cedar.Base.{◌<◌, ◌^◌, ◌≡◌, ◌≢◌, refl, [], ◌∷◌, arith}
use go_cedar.Hashes.{ap_hash64, hash_from}
use go_cedar.Hashes.LastByte.{ap_hash64-last_byte}

hash_of_nothing : ap_hash64 [] ≡ 0xaaaaaaaaaaaaaaaa
unfolding ap_hash64 hash_from
hash_of_nothing = refl

ap_hash64-last_byte_example :
    (ap_hash64 (7 ∷ []) < 2 ^ 64) × (ap_hash64 (7 ∷ 1 ∷ []) ≢ ap_hash64 (7 ∷ 2 ∷ []))
ap_hash64-last_byte_example =
    ap_hash64-last_byte (7 ∷ []) 1 2 (omega arith) (omega arith) (omega arith)
      (λ e. absurd (omega (arith, e)))
