-- ===== src/Mailbox.antt =====
-- utils/mailbox.go: a queue of bounded size with a wake-up channel.
pub mod Reversal
pub mod Fifo
pub mod Bounds
mod Tests
use go_cedar.Base.{
  ℕ, zero, suc, ◌+◌, ◌-◌, List, [], ◌∷◌, Bool, true, false, ◌&&◌, Option, none, some, length,
  get_elem?, set, take, ltb, ◌==◌, if◌then◌else◌,
}

-- `notified`: the one place of the channel `chNotify` is taken. The newest item stands first.
pub record Mailbox {ℓ} (A : Type ℓ) : Type ℓ where
  pub notified : Bool
  pub queue : List A
  pub capacity : ℕ

module _ {ℓ} {A : Type ℓ} where
  -- The capacity of the slice that `make` reserves is not observable.
  unfoldable pub new_mailbox : ℕ → Mailbox A
  new_mailbox capacity = record { notified = false; queue = []; capacity = capacity }

  -- `queue[:len(queue)-1]`
  abbrev pub drop_last : List A → List A
  drop_last q = take (length q - 1) q

  unfoldable pub deliver : A → Mailbox A → Mailbox A
  deliver x m =
      let queue : List A = x ∷ m.queue in
      record m {
        queue =
            if ltb m.capacity (length queue) && ltb 0 m.capacity then drop_last queue else queue;
        notified = true;
      }

  -- The result `none` is Go's nil.
  unfoldable pub retrieve : Mailbox A → Mailbox A × Option A
  retrieve m =
      if length m.queue == 0
      then (m, none)
      else (record m { queue = drop_last m.queue }, get_elem? m.queue (length m.queue - 1))

  -- `q[i], q[j] = q[j], q[i]`
  unfoldable pub swap : ℕ → ℕ → List A → List A
  swap i j q = elim (get_elem? q i) [
    | none ↦ q
    | some a ↦ elim (get_elem? q j) [ none ↦ q | some b ↦ set (set q i b) j a ]
  ]

  -- The loop of `RetrieveAll`, with one unit of fuel for each round.
  unfoldable pub reverse_loop : ℕ → ℕ → ℕ → List A → List A
  reverse_loop zero i j q = q
  reverse_loop (suc fuel) i j q =
      let rest = reverse_loop fuel (i + 1) (j - 1) (swap i j q) in if ltb i j then rest else q

  unfoldable pub reverse_in_place : List A → List A
  reverse_in_place q = reverse_loop (length q) 0 (length q - 1) q

  unfoldable pub retrieve_all : Mailbox A → Mailbox A × List A
  retrieve_all m = (record m { queue = [] }, reverse_in_place m.queue)

  -- A pending wake-up stays.
  unfoldable pub clear : Mailbox A → Mailbox A
  clear m = record m { queue = [] }
