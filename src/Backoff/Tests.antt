-- ===== src/Backoff/Tests.antt =====
-- The delays and the ticker of utils/time.go at concrete limits.
use go_cedar.Base.{ℕ, ◌≡◌, refl, ◌≢◌, List, [], ◌∷◌, true, false, blocked}
use go_cedar.Backoff.{next, new_backoff}
use go_cedar.Backoff.Delays.{delays}
use go_cedar.Backoff.Ticker.{
  Ticker, selecting, at_top, Closer, returned, new_ticker, starts, arms, closes, exits, finishes,
  start, arm, close, exec, Reach, begin, then_next, close_never_returns,
}

abbrev four_calls : List ℕ
four_calls = 1 ∷ 2 ∷ 3 ∷ 4 ∷ []

delays_run : delays four_calls (new_backoff 100 500) ≡ 100 ∷ 200 ∷ 400 ∷ 500 ∷ []
unfolding delays next
delays_run = refl

abbrev closing : Ticker
closing = record {
  backoff = record { min = 100; max = 500; current = 200; previous_incr = 1 };
  ch_stop = true;
  ch_done = false;
  loop = selecting;
  duration = 100;
  closer = Closer.awaiting;
}

closing-Reach : Reach 100 500 closing
unfolding new_ticker exec start arm close next
closing-Reach =
    then_next (record closing { ch_stop = false; closer = Closer.uncalled }) closes _
      (then_next (record (new_ticker 100 500) { loop = at_top }) (arms 1) _
        (then_next (new_ticker 100 500) starts _ (begin _ refl) refl) refl)
      refl

close_never_returns_example :
    (exec exits closing ≡ blocked) × (closing.closer ≢ returned) × (exec finishes closing ≡ blocked)
close_never_returns_example = close_never_returns 100 500 closing closing-Reach
