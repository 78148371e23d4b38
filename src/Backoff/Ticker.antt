-- ===== src/Backoff/Ticker.antt =====
-- utils/time.go: the goroutine of `ExponentialBackoffTicker`, and the calls of its clients. An event
-- is what one goroutine does between two points where another may run.
use go_cedar.Base.{
  ℕ, ◌≡◌, refl, ◌≢◌, Bool, true, false, arith, if◌then◌else◌, Outcome, ok, blocked, panic,
}
use go_cedar.Backoff.{Backoff, next, reset, new_backoff}

-- Where the goroutine of `Start` stands: not started, at the top of its loop, in the outer `select`,
-- in the inner one with a tick to send, behind its loop with the deferred `close(t.chDone)` to run, or
-- ended.
pub data Loop : Type 0 where
  unstarted at_top selecting leaving ended : Loop
  sending : ℕ → Loop

-- Where a call of `Close` stands: not made, at `<-t.chDone`, or returned.
pub data Closer : Type 0 where
  uncalled awaiting returned : Closer

-- `ch_stop` and `ch_done` are true where the channel is closed. `duration` is the running timer's.
pub record Ticker : Type 0 where
  pub backoff : Backoff
  pub ch_stop : Bool
  pub ch_done : Bool
  pub loop : Loop
  pub duration : ℕ
  pub closer : Closer

unfoldable pub new_ticker : ℕ → ℕ → Ticker
new_ticker min max = record {
  backoff = new_backoff min max;
  ch_stop = false;
  ch_done = false;
  loop = unstarted;
  duration = 0;
  closer = uncalled;
}

-- `starts` is the call of `Start`; the goroutine `arms` its timer, takes the branch of `chStop`
-- (`stops`), meets a client in `Reset` (`resets`), sees the timer fire (`fires`), or sends its tick
-- (`sends`). Behind its loop it `exits` by the deferred call. A client `closes`, and then `finishes`
-- when `chDone` is closed.
pub data Event : Type 0 where
  starts stops resets sends exits closes finishes : Event
  arms fires : ℕ → Event

unfoldable pub start : Loop → Ticker → Outcome Ticker
start unstarted t = ok (record t { loop = at_top })
start _ t = blocked

unfoldable pub arm : ℕ → Loop → Ticker → Outcome Ticker
arm now at_top t =
    let (eb, d) = next now t.backoff in
    ok (record t { backoff = eb; duration = d; loop = selecting })
arm now _ t = blocked

-- `return` in the branch of `chStop` leaves the inner function only, and the loop goes on.
unfoldable pub stop : Loop → Ticker → Outcome Ticker
stop selecting t = if t.ch_stop then ok (record t { loop = at_top }) else blocked
stop (sending now) t = if t.ch_stop then ok (record t { loop = at_top }) else blocked
stop _ t = blocked

unfoldable pub accept_reset : Loop → Ticker → Outcome Ticker
accept_reset selecting t = ok (record t { backoff = reset t.backoff; loop = at_top })
accept_reset _ t = blocked

unfoldable pub fire : ℕ → Loop → Ticker → Outcome Ticker
fire now selecting t = ok (record t { loop = sending now })
fire now _ t = blocked

unfoldable pub send : Loop → Ticker → Outcome Ticker
send (sending now) t = ok (record t { loop = at_top })
send _ t = blocked

-- `defer close(t.chDone)`
unfoldable pub exit : Loop → Ticker → Outcome Ticker
exit leaving t = if t.ch_done then panic else ok (record t { ch_done = true; loop = ended })
exit _ t = blocked

-- `close(t.chStop)`, which panics at a second call.
unfoldable pub close : Ticker → Outcome Ticker
close t = if t.ch_stop then panic else ok (record t { ch_stop = true; closer = awaiting })

unfoldable pub finish : Closer → Ticker → Outcome Ticker
finish awaiting t = if t.ch_done then ok (record t { closer = returned }) else blocked
finish _ t = blocked

unfoldable pub exec : Event → Ticker → Outcome Ticker
exec starts t = start t.loop t
exec (arms now) t = arm now t.loop t
exec stops t = stop t.loop t
exec resets t = accept_reset t.loop t
exec (fires now) t = fire now t.loop t
exec sends t = send t.loop t
exec exits t = exit t.loop t
exec closes t = close t
exec finishes t = finish t.closer t

-- The moments that a new ticker can come to.
pub data Reach (min max : ℕ) : Ticker → Type 0 where
  begin : (t : Ticker) → t ≡ new_ticker min max → Reach min max t
  then_next :
      (t : Ticker) (e : Event) (t' : Ticker) → Reach min max t → exec e t ≡ ok t' → Reach min max t'

-- Nothing leads behind the loop.
record Loops (t : Ticker) : Type 0 where
  no_exit : t.loop ≢ leaving
  open_done : t.ch_done ≡ false
  waits : t.closer ≢ returned

exec-Loops : (e : Event) (t t' : Ticker) → exec e t ≡ ok t' → Loops t → Loops t'
unfolding exec start arm stop accept_reset fire send exit close finish
exec-Loops e t t' h k = ground arith

Reach-Loops : {min max : ℕ} {t : Ticker} → Reach min max t → Loops t
unfolding new_ticker
Reach-Loops (begin t e) = ground arith
Reach-Loops (then_next t e t' r h) = exec-Loops e t t' h (Reach-Loops r)

-- In no history does the goroutine come behind its loop, where it would close `chDone`, or does a
-- call of `Close` return: `Close` waits for ever.
pub close_never_returns :
    (min max : ℕ) (t : Ticker)
    → Reach min max t
    → (exec exits t ≡ blocked) × (t.closer ≢ returned) × (exec finishes t ≡ blocked)
unfolding exec finish exit
close_never_returns min max t r = let k = Reach-Loops r in ground arith

-- After `Close` has been called the goroutine can always take the branch of `chStop` and start its
-- next round: it never ends.
pub loop_goes_on :
    (t : Ticker) (now : ℕ)
    → t.loop ≡ selecting
    → t.ch_stop ≡ true
    → (u : Ticker) × (exec stops t ≡ ok u) × (u.loop ≡ at_top) × (exec (arms now) u ≢ blocked)
unfolding exec stop arm
loop_goes_on t now l s = (record t { loop = at_top }, ground arith, refl, λ e. cc)
