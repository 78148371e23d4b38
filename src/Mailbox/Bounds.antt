-- ===== src/Mailbox/Bounds.antt =====
-- The size of a mailbox of utils/mailbox.go.
use go_cedar.Base.{ℕ, zero, suc, ◌-◌, ◌≤◌, ◌<◌, List, [], ◌∷◌, arith, length, take}
use go_cedar.Mailbox.{Mailbox, new_mailbox, deliver, retrieve, retrieve_all, clear}
use go_cedar.Mailbox.Fifo.{Call, deliver_call, retrieve_call, retrieve_all_call, clear_call, call}

module _ {ℓ} {A : Type ℓ} where
  pub length-take-le :
      (n : ℕ) (xs : List A) → (length (take n xs) ≤ n) × (length (take n xs) ≤ length xs)
  length-take-le zero xs = omega arith
  length-take-le (suc n) [] = omega arith
  length-take-le (suc n) (x ∷ xs) = omega (arith, length-take-le n xs)

-- The queue is within a capacity that is not 0.
pub record IsValid {ℓ} {A : Type ℓ} (m : Mailbox A) : Type 0 where
  pub bounded : 0 < m.capacity → length m.queue ≤ m.capacity

module _ {ℓ} {A : Type ℓ} where
  pub new_mailbox-IsValid : (c : ℕ) → IsValid (new_mailbox {A = A} c)
  unfolding new_mailbox
  new_mailbox-IsValid c = omega arith

  -- Every call keeps a queue that is within its capacity within it, unless the capacity is 0.
  pub call-IsValid : (o : Call A) (m : Mailbox A) → IsValid m → IsValid (call o m).0
  unfolding call deliver retrieve retrieve_all clear
  call-IsValid (deliver_call x) m v =
      ground (arith, length-take-le (length (x ∷ m.queue) - 1) (x ∷ m.queue))
  call-IsValid retrieve_call m v = ground (arith, length-take-le (length m.queue - 1) m.queue)
  call-IsValid retrieve_all_call m v = omega arith
  call-IsValid clear_call m v = omega arith
