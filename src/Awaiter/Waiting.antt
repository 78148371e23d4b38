-- ===== src/Awaiter/Waiting.antt =====
-- The two expectations of testutils/expectations.go exclude one another.
use go_cedar.Base.{ℕ, ◌≡◌, refl, List, [], ◌∷◌, ◌++◌, Bool, not, arith}
use go_cedar.Awaiter.{
  Param, duration_param, message_param, other_param, duration_of, await_or_fail,
  never_happened_or_fail,
}

-- Where the same case is taken, exactly one of the two lets the test go on.
pub never-await :
    (happened_by : ℕ → Bool) (first : Bool) (params : List Param)
    → never_happened_or_fail happened_by first params ≡ not (await_or_fail happened_by first params)
unfolding never_happened_or_fail await_or_fail
never-await happened_by first params = ground arith

-- The last duration counts.
pub last_duration :
    (params : List Param) (d default : ℕ)
    → duration_of (params ++ duration_param d ∷ []) default ≡ d
unfolding duration_of
last_duration [] d default = refl
last_duration (duration_param e ∷ params) d default = last_duration params d e
last_duration (message_param ∷ params) d default = last_duration params d default
last_duration (other_param ∷ params) d default = last_duration params d default
