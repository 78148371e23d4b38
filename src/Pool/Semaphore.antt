-- ===== src/Pool/Semaphore.antt =====
-- The weighted semaphore of golang.org/x/sync, which process/pool.go is given, with what its
-- documentation says of units of weight 1; and the client's items with their `ID` method.
use go_cedar.Base.{ℕ, suc, ◌≤◌, ◌<◌, ◌≡◌, Option, none, some}

pub record Semaphore : Type 1 where
  pub Sem : Type 0
  pub new_weighted : ℕ → Sem
  -- `none`: the call waits.
  pub acquire : Sem → Option Sem
  -- `none`: the call panics.
  pub release : Sem → Option Sem
  -- The units that are out, and how many there are.
  pub units : Sem → ℕ
  pub size : Sem → ℕ
  pub new_weighted_lem : (n : ℕ) → (units (new_weighted n) ≡ 0) × (size (new_weighted n) ≡ n)
  pub acquire_some :
      (s : Sem) (t : Sem)
      → acquire s ≡ some t
      → (units t ≡ suc (units s)) × (units s < size s) × (size t ≡ size s)
  pub acquire_none : (s : Sem) → acquire s ≡ none → size s ≤ units s
  pub release_some :
      (s : Sem) (t : Sem) → release s ≡ some t → (units s ≡ suc (units t)) × (size t ≡ size s)
  pub release_none : (s : Sem) → release s ≡ none → units s ≡ 0

-- What a pool is given.
pub record Setting : Type 1 where
  pub semaphore : Semaphore
  pub open semaphore use *
  pub Item : Type 0
  pub item_id : Item → ℕ
