-- ===== src/Backoff.antt =====
-- utils/time.go: the delays of `ExponentialBackoff`. A `time.Duration` is the 64-bit pattern of an
-- int64, below 2 ^ 64; a `time.Time` is a number of nanoseconds, and 0 is the zero time.
pub mod Delays
pub mod Ticker
pub mod Static
mod Tests
use go_cedar.Base.{ℕ, ◌+◌, ◌-◌, ◌*◌, ◌%◌, ◌^◌, Bool, true, false, ltb, ◌==◌, if◌then◌else◌}

pub record Backoff : Type 0 where
  pub min : ℕ
  pub max : ℕ
  pub current : ℕ
  pub previous_incr : ℕ

-- The patterns in the order of the integers that they stand for.
abbrev pub signed_lt : ℕ → ℕ → Bool
signed_lt a b = ltb ((a + 2 ^ 63) % 2 ^ 64) ((b + 2 ^ 63) % 2 ^ 64)

-- `t.Add(d)`
abbrev pub add_duration : ℕ → ℕ → ℕ
add_duration t d = if ltb d (2 ^ 63) then t + d else t - (2 ^ 64 - d)

-- `t.Sub(u)`, for times that are less than 2 ^ 63 ns apart.
abbrev pub sub_times : ℕ → ℕ → ℕ
sub_times t u = (t + 2 ^ 64 - u) % 2 ^ 64

-- `first_now` and `second_now` are what the two calls of `time.Now` return.
unfoldable pub ready : ℕ → ℕ → Backoff → Bool × ℕ
ready first_now second_now eb =
    if eb.previous_incr == 0
    then (true, 0)
    else (let when_ready = add_duration eb.previous_incr eb.current in
        if ltb when_ready first_now then (true, 0) else (false, sub_times when_ready second_now))

-- The delay, and the backoff after it.
unfoldable pub next : ℕ → Backoff → Backoff × ℕ
next now eb =
    let current = if eb.current == 0 then eb.min else eb.current in
    let doubled = (current * 2) % 2 ^ 64 in
    (
      record eb {
        current = if signed_lt eb.max doubled then eb.max else doubled;
        previous_incr = now;
      },
      current,
    )

unfoldable pub reset : Backoff → Backoff
reset eb = record eb { current = eb.min }

-- `ExponentialBackoff{Min: min, Max: max}`
abbrev pub new_backoff : ℕ → ℕ → Backoff
new_backoff min max = record { min = min; max = max; current = 0; previous_incr = 0 }
