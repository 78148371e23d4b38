-- ===== src/Requests/Client.antt =====
-- `HTTPClient` of utils/http.go: the goroutine that closes idle connections, and `Close`. The requests
-- themselves are net/http's.
use go_cedar.Base.{
  ℕ, ◌+◌, Bool, true, false, ltb, List, [], ◌∷◌, if◌then◌else◌, Outcome, ok, blocked, panic, ◌>>=◌,
}

pub data Reaper : Type 0 where
  absent selecting returned : Reaper

-- `idle_closed` counts the calls of `CloseIdleConnections`.
pub record HttpClient : Type 0 where
  pub stop_closed : Bool
  pub reaper : Reaper
  pub ticker_runs : Bool
  pub idle_closed : ℕ

-- The interval in nanoseconds, where 0 stands for those that are not positive.
unfoldable pub make_http_client : ℕ → HttpClient
make_http_client interval = record {
  stop_closed = false;
  reaper = if ltb 0 interval then selecting else absent;
  ticker_runs = ltb 0 interval;
  idle_closed = 0;
}

-- `close` panics at a channel that is closed.
unfoldable pub close : HttpClient → Outcome HttpClient
close c = if c.stop_closed then panic else ok (record c { stop_closed = true })

-- The ticker fires and the goroutine takes it; it may do so after `Close` too.
unfoldable pub tick : Reaper → HttpClient → Outcome HttpClient
tick selecting c = ok (record c { idle_closed = c.idle_closed + 1 })
tick other c = blocked

-- `return` with the deferred calls.
unfoldable pub stop : Reaper → HttpClient → Outcome HttpClient
stop selecting c =
    if c.stop_closed
    then ok (record c { reaper = returned; idle_closed = c.idle_closed + 1; ticker_runs = false })
    else blocked
stop other c = blocked

pub data Event : Type 0 where
  closes ticks stops : Event

unfoldable pub exec : Event → HttpClient → Outcome HttpClient
exec closes c = close c
exec ticks c = tick c.reaper c
exec stops c = stop c.reaper c

unfoldable pub exec_all : List Event → HttpClient → Outcome HttpClient
exec_all [] c = ok c
exec_all (e ∷ es) c = exec e c >>= exec_all es
