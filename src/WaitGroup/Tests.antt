-- ===== src/WaitGroup/Tests.antt =====
-- A `WaitGroupChan` of utils/channels.go that hears the numbers 2, -1 and -1.
use go_cedar.Base.{pos, ◌≡◌, refl, [], ◌∷◌, false, true, ◌||◌, panic}
use go_cedar.WaitGroup.{
  WaitGroupChan, new_wait_group_chan, enter_add, calls_add, adds, exec, add, exchange, receive,
  settle, reply, answer,
}
use go_cedar.WaitGroup.Safety.{Reach, begin, next, wait_closed_once, is_panic, is_misuse}
use go_cedar.WaitGroup.Count.{IsCounting}

new_group : WaitGroupChan
unfolding new_wait_group_chan
new_group = new_wait_group_chan false

-- A client is in `Add(2)`.
adding_group : WaitGroupChan
unfolding new_group
adding_group = record new_group { adding = pos 2 ∷ [] }

adding-Reach : Reach false adding_group
unfolding adding_group exec enter_add
adding-Reach =
    next new_group (calls_add (pos 2)) adding_group (begin new_group (unfold new_group in refl))
      refl

wait_closed_once_example :
    (adding_group.ch_wait ≡ (adding_group.done || adding_group.returned))
    × (is_panic (exec (adds 0) adding_group) ≡ is_misuse (adds 0) adding_group)
wait_closed_once_example = wait_closed_once false adding_group (adds 0) adding-Reach

new_group-IsCounting : IsCounting (pos 0) new_group
unfolding new_group
new_group-IsCounting = record { count = refl; unfinished = refl; at_work = refl; open_wait = refl }

-- `Add(2)` is no misuse there; with the count at its end it is, and the client panics.
adds-panic :
    (is_panic (exec (adds 0) adding_group) ≡ false)
    × (exec (adds 0) (record adding_group { done = true; ch_wait = true }) ≡ panic)
unfolding exec adding_group new_group new_wait_group_chan add exchange receive settle reply answer
    is_panic
adds-panic = (refl, refl)
