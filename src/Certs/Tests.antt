-- ===== src/Certs/Tests.antt =====
-- The keys of utils/certs.go on a small curve.
use go_cedar.Base.{ℕ, ◌+◌, ◌≡◌, refl, ◌⊎◌, inl, inr, arith}
use go_cedar.Certs.{rsa_public, device_id_from_x509_pubkey}
use go_cedar.Certs.DeviceIds.{device_id_unique}

-- Two values of the second coordinate for each of the first.
abbrev TwoPoints : ℕ → ℕ → Type 0
TwoPoints x y = (y ≡ 2) ⊎ (y ≡ 5)

two_points : (x y y' : ℕ) → TwoPoints x y → TwoPoints x y' → (y ≡ y') ⊎ (y + y' ≡ 7)
two_points x y y' (inl h) (inl g) = inl (omega arith)
two_points x y y' (inl h) (inr g) = inr (omega arith)
two_points x y y' (inr h) (inl g) = inr (omega arith)
two_points x y y' (inr h) (inr g) = inl (omega arith)

device_id_unique_example : ((◌≡◌ {A = ℕ} 300 300) × (◌≡◌ {A = ℕ} 5 5))
device_id_unique_example =
    device_id_unique 2 7 TwoPoints 300 5 300 5 two_points refl (omega arith) (omega arith)
      (inr refl) (inr refl) refl

-- All RSA keys have the same identifier.
rsa_keys_alike :
    (n m : ℕ)
    → device_id_from_x509_pubkey (rsa_public n) ≡ device_id_from_x509_pubkey (rsa_public m)
unfolding device_id_from_x509_pubkey
rsa_keys_alike n m = refl
