-- ===== src/Process.antt =====
-- process/process.go and process/api.process.go: the fields of a `Process`, and what its methods do
-- to them. `Process/Tree` puts processes, parents and their goroutines together.
pub mod Tree
pub mod Subs
pub mod Labels
pub mod Digits
mod Tests
mod EndTests
mod ReuseTests
mod NameTests
pub mod Functions
use go_cedar.Base.{
  ℕ, zero, suc, ◌+◌, ◌-◌, ◌/◌, ◌%◌, List, [], ◌∷◌, ◌++◌, Bool, true, false, Option, none, some, ltb,
  ◌==◌, if◌then◌else◌, Outcome, ok, blocked, panic, ◌>>=◌,
}

pub data State : Type 0 where
  unstarted started closing closed : State

-- A channel of `struct{}` on which nothing is sent.
pub data Chan : Type 0 where
  nil live shut : Chan

-- How far the function under `closeOnce.Do` has come: not called, in `running.Wait()`, past it, or
-- returned.
pub data CloseOnce : Type 0 where
  fresh waiting drained finished : CloseOnce

pub data Callback : Type 0 where
  on_closing_call on_closed_call : Callback

-- `running` is the counter of the wait group. A `Context` in `subs` is the address of its process.
-- A callback field is false where it is nil; `called` records the callbacks that have run, the last
-- one first.
pub record Process : Type 0 where
  pub on_closing : Bool
  pub on_closed : Bool
  pub called : List Callback
  pub id : ℕ
  pub state : State
  pub label : List ℕ
  pub close_once : CloseOnce
  pub ch_closing : Chan
  pub ch_closed : Chan
  pub running : ℕ
  pub subs : List ℕ

-- `Process{}`
abbrev pub zero_process : Process
zero_process = record {
  on_closing = false;
  on_closed = false;
  called = [];
  id = 0;
  state = unstarted;
  label = [];
  close_once = fresh;
  ch_closing = nil;
  ch_closed = nil;
  running = 0;
  subs = [];
}

decimal_loop : ℕ → ℕ → List ℕ → List ℕ
decimal_loop zero n digits = digits
decimal_loop (suc fuel) n digits =
    let rest = decimal_loop fuel (n / 10) ((b'0' + n % 10) ∷ digits) in
    if ltb n 10 then (b'0' + n) ∷ digits else rest

-- A number in decimal digits, as `fmt.Sprint` prints it.
unfoldable pub decimal : ℕ → List ℕ
unfolding decimal_loop
decimal n = decimal_loop (suc n) n []

-- The new value of `gSpawnCounter` is also the new process's number. Text is a list of code points.
unfoldable pub next_process_label : List ℕ → ℕ → List ℕ × ℕ
next_process_label base_label counter =
    let pid = counter + 1 in (base_label ++ b' ' ∷ b'#' ∷ decimal pid, pid)

-- Whatever the process held before is lost, its callbacks too.
unfoldable pub on_context_init : List ℕ → ℕ → Process
on_context_init label counter =
    let (unique_label, pid) = next_process_label label counter in
    record zero_process {
      label = unique_label;
      id = pid;
      ch_closing = live;
      ch_closed = live;
      state = started;
    }

-- `close(ch)`
abbrev pub close_chan : Chan → Outcome Chan
close_chan nil = panic
close_chan live = ok shut
close_chan shut = panic

abbrev pub run_callback : Bool → Callback → List Callback → List Callback
run_callback false c called = called
run_callback true c called = c ∷ called

-- `Close` up to `running.Wait()`, in the goroutine that enters `closeOnce.Do` first.
unfoldable pub begin_close : Process → Outcome Process
begin_close p = close_chan p.ch_closing >>= λ ch. ok (record p {
  close_once = waiting;
  state = closing;
  ch_closing = ch;
  called = run_callback p.on_closing on_closing_call p.called;
  on_closing = false;
})

-- A call of `Close`: a first call begins; a later one changes nothing, and waits for the first.
unfoldable pub call_close : CloseOnce → Process → Outcome Process
call_close fresh p = begin_close p
call_close waiting p = blocked
call_close drained p = blocked
call_close finished p = ok p

abbrev pub is_zero : ℕ → Bool
is_zero zero = true
is_zero (suc n) = false

-- `running.Wait()` returns, and the state is set.
unfoldable pub drain : CloseOnce → Process → Outcome Process
drain waiting p =
    if is_zero p.running then ok (record p { close_once = drained; state = closed }) else blocked
drain _ p = blocked

-- The rest of `Close`.
unfoldable pub finish_close : CloseOnce → Process → Outcome Process
finish_close drained p = close_chan p.ch_closed >>= λ ch. ok (record p {
  close_once = finished;
  ch_closed = ch;
  called = run_callback p.on_closed on_closed_call p.called;
  on_closed = false;
})
finish_close _ p = blocked

abbrev pub is_started : State → Bool
is_started started = true
is_started _ = false

abbrev pub is_shut : Chan → Bool
is_shut shut = true
is_shut _ = false

pub data ProcessError : Type 0 where
  err_unstarted canceled : ProcessError

-- The field `err` is never set, so `Err` reports `context.Canceled` once the process is done.
unfoldable pub err : Process → Option ProcessError
err p = if is_shut p.ch_closed then some canceled else none

-- The removal loop at the end of a child's monitor. After a removal at `i` the next item has moved
-- to `i`, and the loop goes on at `i + 1`.
unfoldable pub remove_sub : ℕ → List ℕ → List ℕ
remove_sub child [] = []
remove_sub child (x ∷ []) = if x == child then [] else x ∷ []
remove_sub child (x ∷ y ∷ rest) =
    if x == child then y ∷ remove_sub child rest else x ∷ remove_sub child (y ∷ rest)

unfoldable pub get_children : Process → List ℕ → List ℕ
get_children p given = given ++ p.subs
