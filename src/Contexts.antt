-- ===== src/Contexts.antt =====
-- utils/channels.go: `CombinedContext` with its goroutine. A signal is coded by a number, and `fired`
-- tells which signals are done; a `time.Duration` is done when its timeout has come.
pub mod Ends
pub mod Chans
pub mod ChanEnds
mod Tests
use go_cedar.Base.{
  ℕ, List, [], ◌∷◌, ◌++◌, Bool, true, false, ◌&&◌, ◌||◌, if◌then◌else◌, Outcome, ok, blocked, ◌>>=◌,
}

pub data Signal : Type 0 where
  from_context from_chan from_duration : ℕ → Signal
  from_other : Signal

-- The goroutine waits in `reflect.Select`, or has ended; `absent` when there are no signals.
pub data Waiter : Type 0 where
  absent selecting ended : Waiter

-- `cancelled`: the inner context `ctx` has been cancelled, and `child_cancelled`: the one that is
-- returned. Without signals the inner context itself is returned.
pub record Combined : Type 0 where
  pub cases : List ℕ
  pub waiter : Waiter
  pub cancelled : Bool
  pub child_cancelled : Bool

-- The cases of the `switch`; any other signal is left out.
unfoldable pub select_cases : List Signal → List ℕ
select_cases [] = []
select_cases (from_context n ∷ signals) = n ∷ select_cases signals
select_cases (from_chan n ∷ signals) = n ∷ select_cases signals
select_cases (from_duration n ∷ signals) = n ∷ select_cases signals
select_cases (from_other ∷ signals) = select_cases signals

-- The inner context is one more case, which `is_ready` adds.
unfoldable pub combined_context : List Signal → Combined
combined_context [] = record {
  cases = [];
  waiter = absent;
  cancelled = false;
  child_cancelled = false;
}
combined_context (signal ∷ signals) = record {
  cases = select_cases (signal ∷ signals);
  waiter = selecting;
  cancelled = false;
  child_cancelled = false;
}

abbrev pub any_fired : (ℕ → Bool) → List ℕ → Bool
any_fired fired [] = false
any_fired fired (n ∷ cases) = fired n || any_fired fired cases

unfoldable pub is_ready : (ℕ → Bool) → Combined → Bool
is_ready fired c = any_fired fired c.cases || c.cancelled

-- `reflect.Select` returns, and `cancel` is called.
unfoldable pub wake : (ℕ → Bool) → Waiter → Combined → Outcome Combined
wake fired selecting c =
    if is_ready fired c then ok (record c { waiter = ended; cancelled = true }) else blocked
wake fired other c = blocked

-- The function that is returned: that of the inner context, where there is no goroutine, and otherwise
-- that of the context made last.
unfoldable pub cancel : Waiter → Combined → Combined
cancel absent c = record c { cancelled = true }
cancel other c = record c { child_cancelled = true }

-- The context that is returned is done.
unfoldable pub is_done : Combined → Bool
is_done c = c.cancelled || c.child_cancelled

pub data Event : Type 0 where
  wakes cancels : Event

unfoldable pub exec : (ℕ → Bool) → Event → Combined → Outcome Combined
exec fired wakes c = wake fired c.waiter c
exec fired cancels c = ok (cancel c.waiter c)
