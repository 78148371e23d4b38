-- ===== src/Base/Outcomes.antt =====
-- What a step of a goroutine comes to: it goes on, it waits, or it panics.
use mathlib.Core.Path.{◌≡◌, refl}
use mathlib.Core.Logic.{◌⊎◌, inl, inr}
use mathlib.Core.Option.{Option, none, some}

pub data Outcome {ℓ} (A : Type ℓ) : Type ℓ where
  ok : A → Outcome A
  blocked panic : Outcome A

infixl 5 ◌>>=◌
abbrev pub ◌>>=◌ {ℓ κ} : {A : Type ℓ} {B : Type κ} → Outcome A → (A → Outcome B) → Outcome B
ok a >>= f = f a
blocked >>= f = blocked
panic >>= f = panic

-- A step that cannot be made now.
abbrev pub or_block {ℓ} : {A : Type ℓ} → Option A → Outcome A
or_block none = blocked
or_block (some a) = ok a

abbrev pub or_panic {ℓ} : {A : Type ℓ} → Option A → Outcome A
or_panic none = panic
or_panic (some a) = ok a

pub Outcome-cases {ℓ} :
    {A : Type ℓ} (r : Outcome A) → (r ≡ panic) ⊎ (r ≡ blocked) ⊎ ((a : A) × (r ≡ ok a))
Outcome-cases (ok a) = inr (inr (a, refl))
Outcome-cases blocked = inr (inl refl)
Outcome-cases panic = inl refl
