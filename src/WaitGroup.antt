-- ===== src/WaitGroup.antt =====
-- utils/channels.go: `WaitGroupChan`, its goroutine and the calls of its clients. An event is what one
-- goroutine does between two points where another may run. The counter is taken to stay within an int.
pub mod Count
pub mod Safety
mod Tests
use go_cedar.Base.{
  ℕ, zero, suc, ◌+◌, ◌-◌, List, [], ◌∷◌, ◌++◌, Bool, true, false, ◌||◌, Option, none, some, ltb,
  if◌then◌else◌, Outcome, ok, blocked, panic, or_block, ◌>>=◌, get_elem?, ℤ, pos, negsuc, ◌+ℤ◌,
}

-- What the goroutine answers to an `Add` or a `Done`.
pub data Reply : Type 0 where
  accepted already_finished too_many_dones : Reply

-- `ch_wait`, `ch_stop` and `ctx_done` are true where the channel is closed. `done` is the local
-- variable of the goroutine, and `returned` says that it has returned. `adding` and `finishing` are
-- the clients in the `select` of `Add`, with their numbers, and in that of `Done`. `replies` are the
-- answers so far, the last one first.
pub record WaitGroupChan : Type 0 where
  pub i : ℤ
  pub ch_wait : Bool
  pub ctx_done : Bool
  pub ch_stop : Bool
  pub wait_calls : Bool
  pub done : Bool
  pub returned : Bool
  pub adding : List ℤ
  pub finishing : ℕ
  pub replies : List Reply

-- The flag says whether the context is done already; a nil context never is.
unfoldable pub new_wait_group_chan : Bool → WaitGroupChan
new_wait_group_chan ctx_done = record {
  i = pos 0;
  ch_wait = false;
  ctx_done = ctx_done;
  ch_stop = false;
  wait_calls = false;
  done = false;
  returned = false;
  adding = [];
  finishing = 0;
  replies = [];
}

-- `close(wg.chWait)`
unfoldable pub close_wait : WaitGroupChan → Outcome WaitGroupChan
close_wait wg = if wg.ch_wait then panic else ok (record wg { ch_wait = true })

-- The cases of `chCtxDone` and `chStop`.
unfoldable pub leave : Bool → WaitGroupChan → Outcome WaitGroupChan
leave signalled wg =
    if wg.returned
    then blocked
    else if signalled
    then ((if wg.done then ok wg else close_wait wg) >>= λ wg'. ok (record wg' { returned = true }))
    else blocked

unfoldable pub reply : Reply → WaitGroupChan → WaitGroupChan
reply r wg = record wg { replies = r ∷ wg.replies }

-- The case of `chAdd` once `wg.i` has its new value.
unfoldable pub settle : ℤ → WaitGroupChan → Outcome WaitGroupChan
settle (negsuc n) wg = close_wait (reply too_many_dones wg) >>= λ wg'.
    ok (record wg' { i = negsuc n; returned = true })
settle (pos zero) wg =
    close_wait (record wg { done = true }) >>= λ wg'. ok (reply accepted (record wg' { i = pos 0 }))
settle (pos (suc n)) wg = ok (reply accepted (record wg { i = pos (suc n) }))

-- The case of `chAdd`: what the goroutine does, its answer included.
unfoldable pub receive : ℤ → WaitGroupChan → Outcome WaitGroupChan
receive n wg =
    if wg.returned
    then blocked
    else if wg.done
    then ok (reply already_finished (record wg { returned = true }))
    else settle (wg.i +ℤ n) wg

unfoldable pub close : WaitGroupChan → Outcome WaitGroupChan
close wg = if wg.ch_stop then panic else ok (record wg { ch_stop = true })

-- `Add` up to its `select`; after `Wait` it panics.
unfoldable pub enter_add : ℤ → WaitGroupChan → Outcome WaitGroupChan
enter_add n wg = if wg.wait_calls then panic else ok (record wg { adding = n ∷ wg.adding })

abbrev pub remove_at : ℕ → List ℤ → List ℤ
remove_at k [] = []
remove_at zero (n ∷ ns) = ns
remove_at (suc k) (n ∷ ns) = n ∷ remove_at k ns

-- `if err != "" { panic(err) }` of a client, at the answers so far.
unfoldable pub answer : List Reply → WaitGroupChan → Outcome WaitGroupChan
answer [] wg = ok wg
answer (accepted ∷ before) wg = ok wg
answer (already_finished ∷ before) wg = panic
answer (too_many_dones ∷ before) wg = panic

-- The client waits for its answer, so that the exchange is one step.
unfoldable pub exchange : ℤ → WaitGroupChan → Outcome WaitGroupChan
exchange n wg = receive n wg >>= λ wg'. answer wg'.replies wg'

-- The client at `k` of `adding` is heard by the goroutine.
unfoldable pub add : ℕ → WaitGroupChan → Outcome WaitGroupChan
add k wg = or_block (get_elem? wg.adding k) >>= λ n.
    exchange n (record wg { adding = remove_at k wg.adding })

-- The client at `k` of `adding` sees that all is over.
unfoldable pub skip_add : ℕ → WaitGroupChan → Outcome WaitGroupChan
skip_add k wg = or_block (get_elem? wg.adding k) >>= λ n.
    if wg.ctx_done || wg.ch_stop then ok (record wg { adding = remove_at k wg.adding }) else blocked

unfoldable pub enter_done : WaitGroupChan → WaitGroupChan
enter_done wg = record wg { finishing = suc wg.finishing }

-- A client in `Done` is heard by the goroutine.
unfoldable pub finish : ℕ → WaitGroupChan → Outcome WaitGroupChan
finish zero wg = blocked
finish (suc n) wg = exchange (negsuc 0) (record wg { finishing = n })

-- A client in `Done` sees that all is over.
unfoldable pub skip_done : ℕ → WaitGroupChan → Outcome WaitGroupChan
skip_done zero wg = blocked
skip_done (suc n) wg =
    if wg.ctx_done || wg.ch_stop || wg.ch_wait then ok (record wg { finishing = n }) else blocked

unfoldable pub wait : WaitGroupChan → WaitGroupChan
wait wg = record wg { wait_calls = true }

-- `cancels` is the end of the context. `sees_ctx` and `sees_stop` are cases of the goroutine. The
-- others are calls, or a branch that a client's `select` takes.
pub data Event : Type 0 where
  cancels sees_ctx sees_stop closes calls_done finishes skips_done waits : Event
  calls_add : ℤ → Event
  adds skips_add : ℕ → Event

unfoldable pub exec : Event → WaitGroupChan → Outcome WaitGroupChan
exec cancels wg = ok (record wg { ctx_done = true })
exec sees_ctx wg = leave wg.ctx_done wg
exec sees_stop wg = leave wg.ch_stop wg
exec closes wg = close wg
exec (calls_add n) wg = enter_add n wg
exec (adds k) wg = add k wg
exec (skips_add k) wg = skip_add k wg
exec calls_done wg = ok (enter_done wg)
exec finishes wg = finish wg.finishing wg
exec skips_done wg = skip_done wg.finishing wg
exec waits wg = ok (wait wg)
