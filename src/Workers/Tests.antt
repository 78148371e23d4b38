-- ===== src/Workers/Tests.antt =====
-- Two workers of process/pool_worker.go, the first of which comes to work on an item.
use go_cedar.Base.{ℕ, ◌≡◌, refl, ◌≢◌, false, some, lookup, insert, take_out, ok, panic, get_elem?}
use go_cedar.Mailbox.{new_mailbox, deliver, retrieve_all, reverse_in_place, reverse_loop, swap}
use go_cedar.Pool.Ops.{
  new_pool, add, announce, get_entry, is_offered, complete, set_state, release_unit, retry_later,
}
use go_cedar.Pool.World.{
  Event, adds, wakes, collects, looks, start, enter_get, leave_get, hand_over, read_entry, wake,
  collect, look, give_back, on_pool, exec,
}
use go_cedar.Workers.{
  Crew, working, Act, checks, passes, takes, looks_up, ends, start_crew, act, work, surround,
  adding, waking, collecting, looking,
}
use go_cedar.Workers.Exclusive.{CrewReach, begins, by_worker, by_others, same_item_same_worker}
use go_cedar.Workers.Panics.{crew_never_panics}
use go_cedar.Pool.Tests.{plain}

-- The crew after a step of its first worker, and after a step of the others.
worked : Act → Crew (ℕ × ℕ) ℕ → Crew (ℕ × ℕ) ℕ
unfolding exec get_entry enter_get hand_over read_entry leave_get give_back retry_later complete
    set_state release_unit act work lookup insert take_out
worked a s = elim (work plain 0 a s) [ ok s' ↦ s' | _ ↦ s ]

surrounded : Event ℕ → Crew (ℕ × ℕ) ℕ → Crew (ℕ × ℕ) ℕ
unfolding exec on_pool add announce deliver is_offered wake collect look retrieve_all
    reverse_in_place reverse_loop swap lookup insert surround
surrounded e s = elim (surround plain e s) [ ok s' ↦ s' | _ ↦ s ]

crew0 : Crew (ℕ × ℕ) ℕ
unfolding start_crew start new_pool new_mailbox
crew0 = start_crew plain 2 100

crew4 : Crew (ℕ × ℕ) ℕ
unfolding surrounded crew0
crew4 = surrounded looks (surrounded collects (surrounded wakes (surrounded (adds 7) crew0)))

crew8 : Crew (ℕ × ℕ) ℕ
unfolding worked crew4
crew8 = worked looks_up (worked takes (worked passes (worked (checks false) crew4)))

crew4-CrewReach : CrewReach plain 2 100 crew4
unfolding crew4
crew4-CrewReach =
    by_others _ looks _
      (by_others _ collects _
        (by_others _ wakes _
          (by_others crew0 (adds 7) (surrounded (adds 7) crew0) (begins _ (unfold crew0 in refl))
            (adding 7) tt refl)
          waking tt refl)
        collecting tt refl)
      looking tt refl

crew8-CrewReach : CrewReach plain 2 100 crew8
unfolding crew8
crew8-CrewReach =
    by_worker _ 0 looks_up _
      (by_worker _ 0 takes _
        (by_worker _ 0 passes _
          (by_worker crew4 0 (checks false) (worked (checks false) crew4) crew4-CrewReach refl)
          refl)
        refl)
      refl

first_works : get_elem? crew8.workers 0 ≡ some (working 7)
unfolding crew8
first_works = refl

same_item_same_worker_example : ◌≡◌ {A = ℕ} 0 0
same_item_same_worker_example =
    same_item_same_worker plain 2 100 crew8 0 0 7 7 crew8-CrewReach first_works first_works refl

crew_never_panics_example : work plain 0 (ends false 0) crew8 ≢ panic
crew_never_panics_example = crew_never_panics plain 2 100 crew8 0 (ends false 0) crew8-CrewReach
