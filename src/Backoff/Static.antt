-- ===== src/Backoff/Static.antt =====
-- `StaticTicker` of utils/time.go over the ticker of the time package, whose channel has room for one
-- tick.
use go_cedar.Base.{
  ℕ, ◌+◌, ◌≤◌, ◌≡◌, refl, List, [], ◌∷◌, Bool, true, false, if◌then◌else◌, Outcome, ok, blocked,
  panic, ◌>>=◌, arith,
}
use go_cedar.Backoff.{signed_lt}

pub record StaticTicker : Type 0 where
  pub interval : ℕ
  pub runs : Bool
  pub ticked : Bool

-- `time.NewTicker` panics at an interval that is not positive.
unfoldable pub new_static_ticker : ℕ → Outcome StaticTicker
new_static_ticker interval =
    if signed_lt 0 interval
    then ok (record { interval = interval; runs = true; ticked = false })
    else panic

-- `Reset`
unfoldable pub start : StaticTicker → Outcome StaticTicker
start t = if signed_lt 0 t.interval then ok (record t { runs = true }) else panic

-- `Stop` leaves the channel as it is.
unfoldable pub close : StaticTicker → StaticTicker
close t = record t { runs = false }

-- The interval is over: a tick is sent, or dropped where there is one already.
unfoldable pub tick : StaticTicker → Outcome StaticTicker
tick t = if t.runs then ok (record t { ticked = true }) else blocked

-- A receive from `Notify`.
unfoldable pub receive : StaticTicker → Outcome StaticTicker
receive t = if t.ticked then ok (record t { ticked = false }) else blocked

pub data Event : Type 0 where
  ticks receives closes : Event

unfoldable pub exec : Event → StaticTicker → Outcome StaticTicker
exec ticks t = tick t
exec receives t = receive t
exec closes t = ok (close t)

unfoldable pub exec_all : List Event → StaticTicker → Outcome StaticTicker
exec_all [] t = ok t
exec_all (e ∷ es) t = exec e t >>= exec_all es

abbrev pub is_receive : Event → ℕ
is_receive receives = 1
is_receive ticks = 0
is_receive closes = 0

abbrev pub received : List Event → ℕ
received [] = 0
received (e ∷ es) = is_receive e + received es

abbrev bit : Bool → ℕ
bit true = 1
bit false = 0

silent :
    (es : List Event) (t u : StaticTicker)
    → t.runs ≡ false
    → exec_all es t ≡ ok u
    → received es ≤ bit t.ticked
unfolding exec_all exec tick receive close
silent [] t u r x = omega arith
silent (ticks ∷ es) t u r x = absurd (ground (arith, r, x))
silent (receives ∷ es) t u r x = ground (arith, silent es (record t { ticked = false }) u r)
silent (closes ∷ es) t u r x = omega (arith, silent es (record t { runs = false }) u refl x)

-- A ticker that was closed and is not started again gives one tick more at most.
pub closed_ticker_silent :
    (es : List Event) (t u : StaticTicker) → exec_all es (close t) ≡ ok u → received es ≤ 1
unfolding close
closed_ticker_silent es t u x = ground (arith, silent es (record t { runs = false }) u refl x)
