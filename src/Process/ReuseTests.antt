-- ===== src/Process/ReuseTests.antt =====
-- A parent of process/process.go whose `Autoclose` waits for its only child.
use go_cedar.Base.{
  ◌≡◌, refl, ◌≢◌, inl, inr, [], Bool, true, false, lookup, insert, take_out, Outcome, Outcome-cases,
  ok, blocked, panic, arith, ap,
}
use go_cedar.Process.{on_context_init, begin_close, call_close, drain, finish_close, remove_sub}
use go_cedar.Process.Tree.{
  Tree, init_child, admit, attach, see_parent, see_child, close_child, see_done, remove, on_proc,
  autoclose, fire_autoclose, resume_autoclose, attaches, sees_child, sees_done, move, Event, starts,
  admits, moves, calls_close, drains, finishes, calls_autoclose, autocloses, resumes, exec,
  empty_tree,
}
use go_cedar.Process.Tree.Reuse.{Careful, CarefulReach, begins, goes_on, processes_never_panic}

result : Outcome Tree → Tree → Tree
result (ok t') t = t'
result blocked t = t
result panic t = t

abbrev succeeds : Outcome Tree → Bool
succeeds (ok t) = true
succeeds blocked = false
succeeds panic = false

step : Event → Tree → Tree
unfolding result
step e t = result (exec e t) t

follow :
    (e : Event) (t : Tree)
    → CarefulReach t
    → Careful e t
    → succeeds (exec e t) ≡ true
    → CarefulReach (step e t)
unfolding step
follow e t r a h = elim (Outcome-cases (exec e t)) [
  | inl x ↦ absurd (cc (ap succeeds x))
  | inr (inl x) ↦ absurd (cc (ap succeeds x))
  | inr (inr (t', x)) ↦ goes_on t e (result (exec e t) t) r a (rw x)
]

-- Its line names all that a run computes with.
computes : Unit {0}
unfolding step exec on_proc call_close begin_close drain finish_close init_child on_context_init
    admit move attach see_parent see_child close_child see_done remove autoclose fire_autoclose
    resume_autoclose lookup insert take_out remove_sub
computes = tt

family : Tree
unfolding step
family = step (moves attaches 1) (step (admits 0 1 []) (step (starts 0 []) empty_tree))

-- The goroutine of `Autoclose` sleeps.
asleep : Tree
unfolding family
asleep = step (autocloses 0) (step (calls_autoclose 0) family)

-- The child ends, and the goroutine is woken.
woken : Tree
unfolding asleep
woken =
    step (moves sees_done 1) (
      step (moves sees_child 1) (step (finishes 1) (step (drains 1) (step (calls_close 1) asleep))))

family-CarefulReach : CarefulReach family
unfolding family computes
family-CarefulReach =
    follow (moves attaches 1) (step (admits 0 1 []) (step (starts 0 []) empty_tree))
      (follow (admits 0 1 []) (step (starts 0 []) empty_tree)
        (follow (starts 0 []) empty_tree (begins _ refl) refl refl) refl refl)
      (λ w h. (ground arith, refl)) refl

asleep-CarefulReach : CarefulReach asleep
unfolding asleep family computes
asleep-CarefulReach =
    follow (autocloses 0) (step (calls_autoclose 0) family)
      (follow (calls_autoclose 0) family family-CarefulReach tt refl) (λ e. cc) refl

woken-CarefulReach : CarefulReach woken
unfolding woken asleep family computes
woken-CarefulReach =
    follow (moves sees_done 1)
      (step (moves sees_child 1)
        (step (finishes 1) (step (drains 1) (step (calls_close 1) asleep))))
      (follow (moves sees_child 1)
        (step (finishes 1) (step (drains 1) (step (calls_close 1) asleep)))
        (follow (finishes 1) (step (drains 1) (step (calls_close 1) asleep))
          (follow (drains 1) (step (calls_close 1) asleep)
            (follow (calls_close 1) asleep asleep-CarefulReach (λ e. cc) refl) tt refl)
          tt refl)
        tt refl)
      tt refl

processes_never_panic_example : exec (resumes 0) woken ≢ panic
processes_never_panic_example =
    processes_never_panic woken (resumes 0) woken-CarefulReach
      (unfold woken asleep family computes in λ e. cc)

-- A child that is attached before the goroutine resumes makes it panic.
used_again : exec (resumes 0) (step (moves attaches 2) (step (admits 0 2 []) woken)) ≡ panic
unfolding woken asleep family computes
used_again = refl
