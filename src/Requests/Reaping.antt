-- ===== src/Requests/Reaping.antt =====
-- When the goroutine of `HTTPClient` of utils/http.go ends, and what it leaves.
use go_cedar.Base.{
  ℕ, ◌≡◌, refl, ◌≢◌, inl, inr, Bool, true, false, List, [], ◌∷◌, arith, ok, panic, Outcome-cases,
  Bool-cases, ◌+◌,
}
use go_cedar.Requests.Client.{
  HttpClient, Reaper, absent, selecting, returned, Event, closes, ticks, stops, make_http_client,
  close, tick, stop, exec, exec_all,
}

-- Where there is no goroutine, or it has returned, no ticker runs.
record Reaps (c : HttpClient) : Type 0 where
  no_ticker : c.reaper ≢ selecting → c.ticker_runs ≡ false

exec-Reaps : (e : Event) (c c' : HttpClient) → exec e c ≡ ok c' → Reaps c → Reaps c'
unfolding exec close
exec-Reaps closes c c' x r = ground arith
exec-Reaps ticks c c' x r = unfold tick in ground arith
exec-Reaps stops c c' x r = unfold stop in ground arith

new-Reaps : (interval : ℕ) → Reaps (make_http_client interval)
unfolding make_http_client
new-Reaps interval = ground arith

exec_all-Reaps : (es : List Event) (c c' : HttpClient) → exec_all es c ≡ ok c' → Reaps c → Reaps c'
unfolding exec_all
exec_all-Reaps [] c c' x r = ground (arith, x, r)
exec_all-Reaps (e ∷ es) c c' x r = elim (Outcome-cases (exec e c)) [
  | inl h ↦ absurd (ground (arith, h))
  | inr (inl h) ↦ absurd (ground (arith, h))
  | inr (inr (u, h)) ↦ exec_all-Reaps es u c' (ground (arith, h)) (exec-Reaps e c u h r)
]

-- After every history of a new client in which `Close` was called: another call of `Close` panics,
-- and the goroutine's ticker runs no more, or the goroutine can go on to where it does not.
pub client_reaped :
    (interval : ℕ) (es : List Event) (c : HttpClient)
    → exec_all es (make_http_client interval) ≡ ok c
    → c.stop_closed ≡ true
    → (exec closes c ≡ panic)
      × ((more : List Event) × (c' : HttpClient) × (exec_all more c ≡ ok c')
          × (c'.ticker_runs ≡ false))
unfolding exec_all exec close stop
client_reaped interval es c x s =
    let r = exec_all-Reaps es (make_http_client interval) c x (new-Reaps interval) in
    (
      ground arith,
      elim (Bool-cases (is_selecting c.reaper)) [
        | inl h ↦ (
          stops ∷ [],
          record c { reaper = returned; idle_closed = c.idle_closed + 1; ticker_runs = false },
          ground (arith, h, s),
          refl,
        )
        | inr h ↦ ([], c, refl, r.no_ticker (λ e. ground (arith, e, h)))
      ],
    )
  where
    is_selecting : Reaper → Bool
    is_selecting selecting = true
    is_selecting absent = false
    is_selecting returned = false
