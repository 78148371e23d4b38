-- ===== src/Periodic/Tests.antt =====
-- Runs of the periodic task of process/periodic_task.go.
use go_cedar.Base.{suc, ◌+◌, ◌≤◌, ◌≡◌, refl, List, [], ◌∷◌, arith, length, Outcome, ok}
use go_cedar.Mailbox.{deliver, new_mailbox}
use go_cedar.Periodic.{
  exec, go_on, enqueue, close, PeriodicTask, new_periodic_task, Event, is_done, ticks, cancels,
  calls_enqueue, calls_close,
}
use go_cedar.Periodic.Wakeups.{
  Reach, start, step, exec_all, to_run, runs_within_enqueues, enqueued_task_begins,
}

abbrev rest : Outcome PeriodicTask → PeriodicTask
rest (ok t) = t
rest other = new_periodic_task

abbrev after : List Event → PeriodicTask
after es = rest (exec_all es new_periodic_task)

-- Two calls of `Enqueue` before the goroutine comes to any, then a tick.
abbrev twice : PeriodicTask
twice = after (calls_enqueue ∷ calls_enqueue ∷ ticks ∷ [])

twice-Reach : Reach twice
unfolding exec_all exec go_on enqueue new_periodic_task
twice-Reach = step ticks (step calls_enqueue (step calls_enqueue start refl) refl) refl

runs_within_enqueues_example :
    (twice.runs + length (twice.mailbox).queue ≤ twice.enqueues)
    × (length (twice.mailbox).queue ≤ 1)
runs_within_enqueues_example = runs_within_enqueues twice twice-Reach

enqueued_task_begins_example :
    (u : PeriodicTask) × (exec_all (to_run twice.phase) twice ≡ ok u) × (u.runs ≡ suc twice.runs)
unfolding exec_all exec go_on enqueue new_periodic_task deliver new_mailbox
enqueued_task_begins_example = enqueued_task_begins twice twice-Reach (λ h. cc h) (omega arith)

-- `Close`, and then the end of the context.
abbrev ended : PeriodicTask
ended = after (calls_close ∷ cancels ∷ is_done ∷ [])

ended-Reach : Reach ended
unfolding exec_all exec go_on close new_periodic_task
ended-Reach = step is_done (step cancels (step calls_close start refl) refl) refl
