-- ===== src/Workers/Scheduler.antt =====
-- `StaticScheduler` of process/pool_worker.go. Times and durations are numbers.
use go_cedar.Base.{ℕ, ◌+◌}

pub record StaticScheduler : Type 0 where
  pub check_for_retries_interval : ℕ
  pub retry_after : ℕ

unfoldable pub new_static_scheduler : ℕ → ℕ → StaticScheduler
new_static_scheduler interval after = record {
  check_for_retries_interval = interval;
  retry_after = after;
}

-- `RetryWhen`, for any item.
unfoldable pub retry_when_of : StaticScheduler → ℕ → ℕ
retry_when_of s now = now + s.retry_after
