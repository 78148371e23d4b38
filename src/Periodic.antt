-- ===== src/Periodic.antt =====
-- process/periodic_task.go: the goroutine of a `PeriodicTask` between its ticker, its mailbox and its
-- task. An event is what one goroutine does between two points where another may run. The ticker is
-- whatever sends on its channel; the mailbox holds values of the empty struct.
pub mod Soundness
pub mod Wakeups
mod Tests
use go_cedar.Base.{
  ℕ, zero, suc, ◌+◌, List, [], ◌∷◌, Bool, true, false, Option, none, some, if◌then◌else◌, Outcome,
  ok, blocked, ◌>>=◌,
}
use go_cedar.Mailbox.{Mailbox, new_mailbox, deliver, retrieve}

-- Where the goroutine stands: in the `select`, before `Enqueue` or before `Retrieve` in one of its
-- cases, in the task, or returned.
pub data Phase : Type 0 where
  selecting ticked notified_once running returned : Phase

-- `ctx_done`: the context of the goroutine is done. `runs` counts the calls of the task that have
-- begun, and `enqueues` those of `Enqueue` that have ended.
pub record PeriodicTask : Type 0 where
  pub mailbox : Mailbox {0} (Unit {0})
  pub ticker_closed : Bool
  pub ctx_done : Bool
  pub phase : Phase
  pub runs : ℕ
  pub enqueues : ℕ

unfoldable pub new_periodic_task : PeriodicTask
new_periodic_task = record {
  mailbox = new_mailbox 1;
  ticker_closed = false;
  ctx_done = false;
  phase = selecting;
  runs = 0;
  enqueues = 0;
}

unfoldable pub enqueue : PeriodicTask → PeriodicTask
enqueue task = record task { mailbox = deliver tt task.mailbox; enqueues = suc task.enqueues }

-- `Close` closes the ticker, and nothing else.
unfoldable pub close : PeriodicTask → PeriodicTask
close task = record task { ticker_closed = true }

-- `case <-task.mailbox.Notify()`
unfoldable pub take_notification : PeriodicTask → Outcome PeriodicTask
take_notification task =
    if (task.mailbox).notified
    then ok
        (record task { mailbox = record task.mailbox { notified = false }; phase = notified_once })
    else blocked

-- `x := task.mailbox.Retrieve()`, and the task if there is one.
unfoldable pub retrieve_and_run : PeriodicTask → PeriodicTask
retrieve_and_run task =
    let (m, x) = retrieve task.mailbox in
    elim x [
      | none ↦ record task { mailbox = m; phase = selecting }
      | some _ ↦ record task { mailbox = m; phase = running; runs = suc task.runs }
    ]

-- `is_done`, `ticks` and `is_notified` are cases of the `select`; `enqueues_tick`, `retrieves` and
-- `ends_task` are what follows in them. `cancels` is the end of the context, and the others are calls
-- of clients.
pub data Event : Type 0 where
  is_done ticks is_notified enqueues_tick retrieves ends_task : Event
  cancels calls_enqueue calls_close : Event

-- The steps of the goroutine from where it stands.
unfoldable pub go_on : Event → Phase → PeriodicTask → Outcome PeriodicTask
go_on is_done selecting task =
    if task.ctx_done then ok (record task { phase = returned }) else blocked
go_on ticks selecting task = ok (record task { phase = ticked })
go_on is_notified selecting task = take_notification task
go_on enqueues_tick ticked task = ok (record (enqueue task) { phase = selecting })
go_on retrieves notified_once task = ok (retrieve_and_run task)
go_on ends_task running task = ok (record task { phase = selecting })
go_on e p task = blocked

unfoldable pub exec : Event → PeriodicTask → Outcome PeriodicTask
exec cancels task = ok (record task { ctx_done = true })
exec calls_enqueue task = ok (enqueue task)
exec calls_close task = ok (close task)
exec is_done task = go_on is_done task.phase task
exec ticks task = go_on ticks task.phase task
exec is_notified task = go_on is_notified task.phase task
exec enqueues_tick task = go_on enqueues_tick task.phase task
exec retrieves task = go_on retrieves task.phase task
exec ends_task task = go_on ends_task task.phase task
