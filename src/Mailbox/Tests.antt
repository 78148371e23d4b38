-- ===== src/Mailbox/Tests.antt =====
-- A mailbox of utils/mailbox.go at concrete calls.
use go_cedar.Base.{ℕ, ◌≡◌, refl, List, [], ◌∷◌, true}
use go_cedar.Mailbox.{
  Mailbox, deliver, retrieve, retrieve_all, reverse_in_place, reverse_loop, swap,
}
use go_cedar.Mailbox.Fifo.{
  contents, Call, deliver_call, retrieve_call, retrieve_all_call, call, calls, calls_queue,
  calls-queue,
}

abbrev box : Mailbox ℕ
box = record { notified = true; queue = 5 ∷ 4 ∷ 3 ∷ []; capacity = 3 }

-- The oldest item, 3, gives way to 6.
deliver_full_box : contents (deliver 6 box) ≡ 4 ∷ 5 ∷ 6 ∷ []
unfolding deliver
deliver_full_box = refl

abbrev history : List (Call ℕ)
history = deliver_call 6 ∷ retrieve_call ∷ deliver_call 7 ∷ retrieve_all_call ∷ []

history_runs : calls history box ≡ 4 ∷ 5 ∷ 6 ∷ 7 ∷ []
unfolding calls call deliver retrieve retrieve_all reverse_in_place reverse_loop swap
history_runs = refl

calls-queue_example : calls history box ≡ calls_queue 3 history (3 ∷ 4 ∷ 5 ∷ [])
calls-queue_example = calls-queue history box
