-- ===== src/Process/EndTests.antt =====
-- A parent of process/process.go with one child is closed, and its goroutines come to rest.
use go_cedar.Base.{
  some, ℕ, ◌+◌, ◌*◌, ◌≤◌, ◌<◌, ◌≡◌, refl, ◌≢◌, inl, inr, ap, Outcome-cases, blocked, List, [], ◌∷◌,
  ◌++◌, Bool, true, false, lookup, insert, take_out, Outcome, ok, panic, arith, length, count,
}
use go_cedar.Process.{
  nil, shut, on_context_init, begin_close, call_close, drain, finish_close, remove_sub,
}
use go_cedar.Process.Tree.{
  Tree, init_child, admit, attach, see_parent, see_child, close_child, see_done, remove, on_proc,
  autoclose, fire_autoclose, resume_autoclose, attaches, sees_parent, closes_child, sees_done,
  removes, move, Event, starts, admits, moves, hooks, calls_close, drains, finishes,
  calls_autoclose, autocloses, resumes, exec, empty_tree,
}
use go_cedar.Process.Tree.Closing.{Allowed}
use go_cedar.Process.Tree.Order.{OrderlyReach, begins, goes_on, NotOwnParent}
use go_cedar.Process.Tree.Progress.{GoesOn}
use go_cedar.Process.Tree.Race.{run}
use go_cedar.Process.Tree.Completion.{AreInternal, close_completes}
use go_cedar.Process.Tree.Bounds.{closing_ends}
use go_cedar.Process.Tree.Returns.{close_returns}
use go_cedar.Process.Functions.{Program, Action, ends_function, act_all}
use go_cedar.Process.Functions.Ends.{AreOwn, function_ends}

result : Outcome Tree → Tree → Tree
result (ok t') t = t'
result blocked t = t
result panic t = t

abbrev succeeds : Outcome Tree → Bool
succeeds (ok t) = true
succeeds blocked = false
succeeds panic = false

step : Event → Tree → Tree
unfolding result
step e t = result (exec e t) t

follow :
    (e : Event) (t : Tree)
    → OrderlyReach t
    → Allowed e t
    → NotOwnParent e
    → succeeds (exec e t) ≡ true
    → OrderlyReach (step e t)
unfolding step
follow e t r a n h = elim (Outcome-cases (exec e t)) [
  | inl x ↦ absurd (cc (ap succeeds x))
  | inr (inl x) ↦ absurd (cc (ap succeeds x))
  | inr (inr (t', x)) ↦ goes_on t e (result (exec e t) t) r a n (rw x)
]

-- Its line names all that a run computes with.
computes : Unit {0}
unfolding step exec on_proc call_close begin_close drain finish_close init_child on_context_init
    admit move attach see_parent see_child close_child see_done remove autoclose fire_autoclose
    resume_autoclose lookup insert take_out remove_sub
computes = tt

root : Tree
root = step (starts 0 []) empty_tree

family : Tree
unfolding root
family = step (moves attaches 1) (step (admits 0 1 []) root)

closing_family : Tree
unfolding family
closing_family = step (calls_close 0) family

root-OrderlyReach : OrderlyReach root
unfolding root computes
root-OrderlyReach = follow (starts 0 []) empty_tree (begins _ refl) refl tt refl

family-OrderlyReach : OrderlyReach family
unfolding family computes
family-OrderlyReach =
    follow (moves attaches 1) (step (admits 0 1 []) root)
      (follow (admits 0 1 []) root root-OrderlyReach refl (λ e. omega arith) refl)
      (λ w h. ground arith) tt refl

closing_family-OrderlyReach : OrderlyReach closing_family
unfolding closing_family computes
closing_family-OrderlyReach = follow (calls_close 0) family family-OrderlyReach (λ e. cc) tt refl

-- What the goroutines do then.
abbrev rest_of_close : List Event
rest_of_close =
    moves sees_parent 1
    ∷ moves closes_child 1
    ∷ drains 1
    ∷ finishes 1
    ∷ moves closes_child 1
    ∷ moves sees_done 1
    ∷ moves removes 1
    ∷ drains 0
    ∷ finishes 0
    ∷ []

closed_family : Tree
unfolding closing_family run computes
closed_family = result (run rest_of_close closing_family) closing_family

runs : run rest_of_close closing_family ≡ ok closed_family
unfolding closed_family run computes closing_family
runs = refl

covered : (k : ℕ) → (closing_family.procs k).ch_closing ≢ nil → 0 < count k (0 ∷ 1 ∷ [])
unfolding closing_family computes
covered k h = ground arith

-- `Autoclose` has been called on the parent, too.
autoclosing_family : Tree
unfolding closing_family
autoclosing_family = step (calls_autoclose 0) closing_family

autoclosing_family-OrderlyReach : OrderlyReach autoclosing_family
unfolding autoclosing_family computes
autoclosing_family-OrderlyReach =
    follow (calls_autoclose 0) closing_family closing_family-OrderlyReach tt tt refl

-- Its goroutine falls asleep, is woken by the child's end, and resumes when the parent is done.
abbrev with_autoclose : List Event
with_autoclose = autocloses 0 ∷ (rest_of_close ++ resumes 0 ∷ [])

autoclosed_family : Tree
unfolding autoclosing_family run computes
autoclosed_family = result (run with_autoclose autoclosing_family) autoclosing_family

autocloses_too : run with_autoclose autoclosing_family ≡ ok autoclosed_family
unfolding autoclosed_family run computes autoclosing_family closing_family
autocloses_too = refl

covered_too : (k : ℕ) → (autoclosing_family.procs k).ch_closing ≢ nil → 0 < count k (0 ∷ 1 ∷ [])
unfolding autoclosing_family closing_family computes
covered_too k h = ground arith

closing_ends_example :
    11
    ≤ 3 * 2
      + 5 * length autoclosing_family.watches
      + (2 * length autoclosing_family.autoclosing
          + length autoclosing_family.asleep
          + length autoclosing_family.released)
closing_ends_example =
    closing_ends (0 ∷ 1 ∷ []) with_autoclose autoclosing_family autoclosed_family
      autoclosing_family-OrderlyReach covered_too
      (tt, (tt, (tt, (tt, (tt, (tt, (tt, (tt, (tt, (tt, (tt, tt))))))))))) autocloses_too

at_rest : GoesOn closed_family → ⊥
unfolding closed_family run computes closing_family
at_rest (drains k, t', i, h) = ground arith
at_rest (finishes k, t', i, h) = ground arith
at_rest (moves m c, t', i, h) = ground arith
at_rest (starts child label, t', i, h) = i
at_rest (admits parent child label, t', i, h) = i
at_rest (hooks k a b, t', i, h) = i
at_rest (calls_close k, t', i, h) = i
at_rest (calls_autoclose k, t', i, h) = i
at_rest (autocloses k, t', i, h) = i
at_rest (resumes k, t', i, h) = i

close_completes_example : (closed_family.procs 0).ch_closed ≡ shut
close_completes_example =
    close_completes rest_of_close closing_family closed_family 0 closing_family-OrderlyReach
      (tt, (tt, (tt, (tt, (tt, (tt, (tt, (tt, (tt, tt))))))))) runs at_rest
      (unfold closing_family computes in λ e. cc)

close_returns_example :
    (es : List Event) × (t : Tree) × AreInternal es
    × (run es closing_family ≡ ok t)
    × OrderlyReach t
    × ((t.procs 0).ch_closed ≡ shut)
close_returns_example =
    close_returns (0 ∷ 1 ∷ []) closing_family 0 closing_family-OrderlyReach covered
      (unfold closing_family computes in λ e. cc)

-- The child's function runs while the parent is closed.
abbrev running_child : Program
running_child = record { tree = closing_family; functions = 1 ∷ []; closers = [] }

function_ends_example :
    (more : List Action) × (h : Program) × AreOwn more
    × (act_all (ends_function 1 ∷ more) running_child ≡ ok h)
    × ((h.tree.procs 1).ch_closed ≡ shut)
    × (take_out 1 (1 ∷ []) ≡ some h.functions)
function_ends_example =
    function_ends (0 ∷ 1 ∷ []) running_child 1 closing_family-OrderlyReach covered
      (unfold closing_family computes in λ e. cc) (omega arith)
