-- ===== src/Contexts/Chans.antt =====
-- `ContextFromChan` and `ChanContext` of utils/channels.go.
use go_cedar.Base.{
  ℕ, zero, suc, List, [], ◌∷◌, Bool, true, false, if◌then◌else◌, ◌||◌, Outcome, ok, blocked, ◌>>=◌,
}

-- A channel: the values in its buffer or with senders that wait, and whether it is closed.
pub record Chan : Type 0 where
  pub values : ℕ
  pub closed : Bool

abbrev pub has_value : ℕ → Bool
has_value zero = false
has_value (suc n) = true

abbrev pub is_ready : Chan → Bool
is_ready ch = has_value ch.values || ch.closed

-- The channel after a receive that was ready.
abbrev pub receive : ℕ → Chan → Chan
receive zero ch = ch
receive (suc n) ch = record ch { values = n }

pub data Error : Type 0 where
  nil canceled : Error

-- `ChanContext.Err`: a receive, if one is ready.
unfoldable pub err : Chan → Chan × Error
err ch = if is_ready ch then (receive ch.values ch, canceled) else (ch, nil)

-- What calls of `Err` one after another return.
unfoldable pub errs : ℕ → Chan → List Error
errs zero ch = []
errs (suc k) ch = let (ch', e) = err ch in e ∷ errs k ch'

-- The goroutine of `ContextFromChan`.
pub data Waiter : Type 0 where
  selecting ended : Waiter

pub record FromChan : Type 0 where
  pub ch_stop : Chan
  pub cancelled : Bool
  pub waiter : Waiter

unfoldable pub context_from_chan : Chan → FromChan
context_from_chan ch = record { ch_stop = ch; cancelled = false; waiter = selecting }

-- `case <-chStop: cancel()`
unfoldable pub stop : Waiter → FromChan → Outcome FromChan
stop selecting c =
    if is_ready c.ch_stop
    then ok
        (record { ch_stop = receive c.ch_stop.values c.ch_stop; cancelled = true; waiter = ended })
    else blocked
stop ended c = blocked

-- `case <-ctx.Done():`
unfoldable pub leave : Waiter → FromChan → Outcome FromChan
leave selecting c = if c.cancelled then ok (record c { waiter = ended }) else blocked
leave ended c = blocked

-- `cancels` calls the function that is returned, `changes` is what others do to the channel, and the
-- other two are the goroutine's.
pub data Event : Type 0 where
  stops leaves cancels : Event
  changes : Chan → Event

unfoldable pub exec : Event → FromChan → Outcome FromChan
exec stops c = stop c.waiter c
exec leaves c = leave c.waiter c
exec cancels c = ok (record c { cancelled = true })
exec (changes ch) c = ok (record c { ch_stop = ch })

unfoldable pub exec_all : List Event → FromChan → Outcome FromChan
exec_all [] c = ok c
exec_all (e ∷ es) c = exec e c >>= exec_all es
