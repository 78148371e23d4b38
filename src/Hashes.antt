-- ===== src/Hashes.antt =====
-- `APHash64` of bufs/hash.go, on 64-bit words. The hashes of the runtime are no part of it.
pub mod LastByte
mod Tests
use go_cedar.Base.{
  ℕ, suc, ◌+◌, ◌-◌, ◌*◌, ◌/◌, ◌%◌, ◌^◌, List, [], ◌∷◌, ◌==◌, if◌then◌else◌, bit_xor,
}

-- `<<` on 64 bits
abbrev pub shift_left : ℕ → ℕ → ℕ
shift_left x k = x * 2 ^ k % 2 ^ 64

abbrev pub shift_right : ℕ → ℕ → ℕ
shift_right x k = x / 2 ^ k

-- `^x + 1`
abbrev pub complement_suc : ℕ → ℕ
complement_suc x = (2 ^ 64 - 1 - x + 1) % 2 ^ 64

abbrev pub mix_even : ℕ → ℕ → ℕ
mix_even hash b = bit_xor hash (bit_xor (bit_xor (shift_left hash 7) b) (shift_right hash 3))

abbrev pub mix_odd : ℕ → ℕ → ℕ
mix_odd hash b =
    bit_xor hash (complement_suc (bit_xor (bit_xor (shift_left hash 11) b) (shift_right hash 5)))

-- One round of the loop, at the byte with index `i`.
unfoldable pub mix : ℕ → ℕ → ℕ → ℕ
mix i hash b = if i % 2 == 0 then mix_even hash b else mix_odd hash b

unfoldable pub hash_from : ℕ → ℕ → List ℕ → ℕ
hash_from i hash [] = hash
hash_from i hash (b ∷ buf) = hash_from (suc i) (mix i hash b) buf

unfoldable pub ap_hash64 : List ℕ → ℕ
ap_hash64 buf = hash_from 0 0xaaaaaaaaaaaaaaaa buf
