-- ===== src/Process/Tree.antt =====
-- process/process.go at work: processes at their addresses, the goroutine that `StartChild` starts
-- for each child, and the calls of clients. No process overrides the methods of `Process`. An event
-- is what one goroutine does between two points where another may run.
pub mod Invariant
pub mod Closing
pub mod Moves
pub mod Steps
pub mod Done
pub mod Ranks
pub mod Order
pub mod Progress
pub mod Measure
pub mod Ending
pub mod Completion
pub mod Waits
pub mod Bounds
pub mod Reuse
pub mod Returns
pub mod Race
pub mod Names
pub mod Export
use go_cedar.Base.{
  ℕ, zero, suc, ◌+◌, ◌-◌, List, [], ◌∷◌, ◌++◌, Bool, true, false, Option, none, some, ◌==◌,
  if◌then◌else◌, lookup, insert, take_out, Outcome, ok, blocked, panic, ◌>>=◌, or_block,
}
use go_cedar.Process.{
  Process, Chan, nil, live, shut, CloseOnce, fresh, waiting, drained, finished, is_started, is_shut,
  is_zero, zero_process, on_context_init, call_close, drain, finish_close, remove_sub,
}

-- Where `StartChild` and the goroutine that it starts stand for one child: past the check of the
-- parent's state, in the `select`, in `child.Close()`, at `<-child.Done()`, past
-- `p.running.Done()`, or at an end.
pub data Phase : Type 0 where
  admitted watching closing_child awaiting removing gone : Phase

pub record Watch : Type 0 where
  pub parent : ℕ
  pub phase : Phase

-- `watches` is keyed by the child. Of the goroutines that `Autoclose` has started, `autoclosing` has
-- those that are to call `running.Wait()`, `asleep` those that wait in it, and `released` those that
-- the last `running.Done()` has woken and that have not resumed.
pub record Tree : Type 0 where
  pub spawn_counter : ℕ
  pub procs : ℕ → Process
  pub watches : List (ℕ × Watch)
  pub autoclosing : List ℕ
  pub asleep : List ℕ
  pub released : List ℕ

abbrev pub set_proc : ℕ → Process → Tree → Tree
set_proc k p t = record t { procs = λ j. if k == j then p else t.procs j }

abbrev pub set_watch : ℕ → Watch → Tree → Tree
set_watch child w t = record t { watches = insert child w t.watches }

-- `StartChild` up to the check: `child.OnContextInit(label)`.
unfoldable pub init_child : ℕ → List ℕ → Tree → Tree
init_child child label t =
    let n = t.spawn_counter in
    record (set_proc child (on_context_init label n) t) { spawn_counter = n + 1 }

-- A parent that is not started is refused with `ErrUnstarted`, and the child stays as it is.
unfoldable pub admit : ℕ → ℕ → List ℕ → Tree → Tree
admit parent child label t =
    let t' = init_child child label t in
    if is_started (t'.procs parent).state
    then set_watch child (record { parent = parent; phase = admitted }) t'
    else t'

-- `p.subs = append(p.subs, child)`, `p.running.Add(1)`, and the goroutine starts.
unfoldable pub attach : ℕ → Watch → Tree → Outcome Tree
attach child w t = elim w.phase [
  | admitted ↦
      let p = t.procs w.parent in
      ok (
        set_watch child (record w { phase = watching })
          (set_proc w.parent (record p { subs = p.subs ++ child ∷ []; running = p.running + 1 }) t))
  | _ ↦ blocked
]

-- `case <-p.Closing()`
unfoldable pub see_parent : ℕ → Watch → Tree → Outcome Tree
see_parent child w t = elim w.phase [
  | watching ↦
      if is_shut (t.procs w.parent).ch_closing
      then ok (set_watch child (record w { phase = closing_child }) t)
      else blocked
  | _ ↦ blocked
]

-- `case <-child.Closing()`
unfoldable pub see_child : ℕ → Watch → Tree → Outcome Tree
see_child child w t = elim w.phase [
  | watching ↦
      if is_shut (t.procs child).ch_closing
      then ok (set_watch child (record w { phase = awaiting }) t)
      else blocked
  | _ ↦ blocked
]

abbrev pub is_finished : CloseOnce → Bool
is_finished finished = true
is_finished _ = false

-- `child.Close()`, called and run in the child's monitor: it begins, or it has returned.
unfoldable pub close_child : ℕ → Watch → Tree → Outcome Tree
close_child child w t = elim w.phase [
  | closing_child ↦ call_close (t.procs child).close_once (t.procs child) >>= λ p. ok (
      set_watch child
        (record w { phase = if is_finished p.close_once then awaiting else closing_child })
        (set_proc child p t))
  | _ ↦ blocked
]

abbrev pub without : ℕ → List ℕ → List ℕ
without k [] = []
without k (j ∷ js) = if j == k then without k js else j ∷ without k js

abbrev pub only : ℕ → List ℕ → List ℕ
only k [] = []
only k (j ∷ js) = if j == k then j ∷ only k js else only k js

-- A counter that comes to zero wakes those that wait for it.
abbrev pub wake_waiters : ℕ → ℕ → Tree → Tree
wake_waiters k running t = record t {
  asleep = if is_zero running then without k t.asleep else t.asleep;
  released = if is_zero running then only k t.asleep ++ t.released else t.released;
}

-- `<-child.Done()` and `p.running.Done()`, which panics at zero.
unfoldable pub see_done : ℕ → Watch → Tree → Outcome Tree
see_done child w t = elim w.phase [
  | awaiting ↦
      if is_shut (t.procs child).ch_closed
      then (let p = t.procs w.parent in
          if is_zero p.running
          then panic
          else ok (
              set_watch child (record w { phase = removing })
                (set_proc w.parent (record p { running = p.running - 1 })
                  (wake_waiters w.parent (p.running - 1) t))))
      else blocked
  | _ ↦ blocked
]

unfoldable pub remove : ℕ → Watch → Tree → Outcome Tree
remove child w t = elim w.phase [
  | removing ↦
      let p = t.procs w.parent in
      ok (
        set_watch child (record w { phase = gone })
          (set_proc w.parent (record p { subs = remove_sub child p.subs }) t))
  | _ ↦ blocked
]

unfoldable pub on_proc : (Process → Outcome Process) → ℕ → Tree → Outcome Tree
on_proc f k t = f (t.procs k) >>= λ p. ok (set_proc k p t)

unfoldable pub autoclose : ℕ → Tree → Tree
autoclose k t = record t { autoclosing = k ∷ t.autoclosing }

-- The goroutine of `Autoclose` calls `running.Wait()`: at zero it passes and calls `Close`.
unfoldable pub fire_autoclose : ℕ → Tree → Outcome Tree
fire_autoclose k t = do
  rest ← or_block (take_out k t.autoclosing)
  if is_zero (t.procs k).running
      then on_proc (λ p. call_close p.close_once p) k (record t { autoclosing = rest })
      else ok (record t { autoclosing = rest; asleep = k ∷ t.asleep })

-- A goroutine that has been woken resumes in `running.Wait()`, which panics when the counter has been
-- raised again in the meantime. The same wait in `Close` is left out: only an `Add` past a check that
-- was made before `Close` could raise the counter there.
unfoldable pub resume_autoclose : ℕ → Tree → Outcome Tree
resume_autoclose k t = do
  rest ← or_block (take_out k t.released)
  if is_zero (t.procs k).running
      then on_proc (λ p. call_close p.close_once p) k (record t { released = rest })
      else panic

-- The steps of a child's monitor.
pub data Move : Type 0 where
  attaches sees_parent sees_child closes_child sees_done removes : Move

unfoldable pub move : Move → ℕ → Watch → Tree → Outcome Tree
move attaches child w t = attach child w t
move sees_parent child w t = see_parent child w t
move sees_child child w t = see_child child w t
move closes_child child w t = close_child child w t
move sees_done child w t = see_done child w t
move removes child w t = remove child w t

-- `starts` is `StartChild` of `NilContext`, `admits` of another parent; `hooks` sets the callbacks.
pub data Event : Type 0 where
  starts : ℕ → List ℕ → Event
  admits : ℕ → ℕ → List ℕ → Event
  moves : Move → ℕ → Event
  hooks : ℕ → Bool → Bool → Event
  calls_close drains finishes calls_autoclose autocloses resumes : ℕ → Event

unfoldable pub exec : Event → Tree → Outcome Tree
exec (starts child label) t = ok (init_child child label t)
exec (admits parent child label) t = ok (admit parent child label t)
exec (moves m child) t = or_block (lookup child t.watches) >>= λ w. move m child w t
exec (hooks k closing closed) t =
    ok (set_proc k (record (t.procs k) { on_closing = closing; on_closed = closed }) t)
exec (calls_close k) t = on_proc (λ p. call_close p.close_once p) k t
exec (drains k) t = on_proc (λ p. drain p.close_once p) k t
exec (finishes k) t = on_proc (λ p. finish_close p.close_once p) k t
exec (calls_autoclose k) t = ok (autoclose k t)
exec (autocloses k) t = fire_autoclose k t
exec (resumes k) t = resume_autoclose k t

-- No process has been started.
abbrev pub empty_tree : Tree
empty_tree = record {
  spawn_counter = 0;
  procs = λ k. zero_process;
  watches = [];
  autoclosing = [];
  asleep = [];
  released = [];
}
