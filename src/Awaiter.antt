-- ===== src/Awaiter.antt =====
-- testutils/expectations.go: a channel on which a test waits, in nanoseconds from the call on.
pub mod Waiting
use go_cedar.Base.{
  ℕ, zero, suc, ◌+◌, ◌*◌, ◌-◌, List, [], ◌∷◌, Bool, true, false, Option, none, some, if◌then◌else◌,
  ltb, Outcome, ok, blocked,
}

-- The number of values in the buffer, which has room for ten.
abbrev pub Awaiter : Type 0
Awaiter = ℕ

abbrev pub new_awaiter : Awaiter
new_awaiter = 0

unfoldable pub it_happened : Awaiter → Outcome Awaiter
it_happened a = if ltb a 10 then ok (a + 1) else blocked

-- The parameters that the loop tells apart, a duration that is not negative or a message.
pub data Param : Type 0 where
  duration_param : ℕ → Param
  message_param other_param : Param

unfoldable pub duration_of : List Param → ℕ → ℕ
duration_of [] duration = duration
duration_of (duration_param d ∷ params) duration = duration_of params d
duration_of (message_param ∷ params) duration = duration_of params duration
duration_of (other_param ∷ params) duration = duration_of params duration

abbrev pub ten_seconds : ℕ
ten_seconds = 10 * 1000000000

-- Which case of the `select` is taken: `happened_by n` tells whether a value is there after `n`
-- nanoseconds. Where a value comes just when the time is over, either may be taken, as `first`
-- decides.
unfoldable pub receives : (ℕ → Bool) → Bool → ℕ → Bool
receives happened_by first zero = if happened_by 0 then first else false
receives happened_by first (suc duration) =
    if happened_by duration then true else if happened_by (suc duration) then first else false

-- Whether the test goes on.
unfoldable pub await_or_fail : (ℕ → Bool) → Bool → List Param → Bool
await_or_fail happened_by first params = receives happened_by first (duration_of params ten_seconds)

unfoldable pub never_happened_or_fail : (ℕ → Bool) → Bool → List Param → Bool
never_happened_or_fail happened_by first params =
    if receives happened_by first (duration_of params ten_seconds) then false else true
