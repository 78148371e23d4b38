-- ===== src/Process/Tests.antt =====
-- The processes of process/process.go at a concrete history: a parent with one child is closed.
use go_cedar.Base.{
  ◌≡◌, refl, inl, inr, ap, Outcome-cases, blocked, [], ◌∷◌, Bool, true, false, lookup, insert,
  take_out, Outcome, ok, panic, arith,
}
use go_cedar.Process.{
  live, shut, decimal, next_process_label, on_context_init, begin_close, call_close, drain,
  finish_close,
}
use go_cedar.Process.Tree.{
  Tree, admitted, removing, init_child, admit, attach, see_parent, see_child, close_child, see_done,
  remove, on_proc, autoclose, fire_autoclose, resume_autoclose, attaches, sees_parent, closes_child,
  sees_done, move, Event, starts, admits, moves, calls_close, drains, finishes, exec, empty_tree,
}
use go_cedar.Process.Tree.Closing.{Allowed}
use go_cedar.Process.Tree.Done.{Reach, begin, next, self, child_of, done_after_descendants}
use go_cedar.Process.Tree.Race.{run, Yields, attach_after_done}

label_7 : next_process_label (b'p' ∷ []) 41 ≡ (b'p' ∷ b' ' ∷ b'#' ∷ b'4' ∷ b'2' ∷ [], 42)
unfolding next_process_label decimal
label_7 = refl

result : Outcome Tree → Tree → Tree
result (ok t') t = t'
result blocked t = t
result panic t = t

abbrev succeeds : Outcome Tree → Bool
succeeds (ok t) = true
succeeds blocked = false
succeeds panic = false

-- The processes after an event that can happen, and the same after any other.
step : Event → Tree → Tree
unfolding result
step e t = result (exec e t) t

-- A step that can be made leads to another reachable state.
follow :
    (e : Event) (t : Tree) → Reach t → Allowed e t → succeeds (exec e t) ≡ true → Reach (step e t)
unfolding step
follow e t r a h = elim (Outcome-cases (exec e t)) [
  | inl x ↦ absurd (cc (ap succeeds x))
  | inr (inl x) ↦ absurd (cc (ap succeeds x))
  | inr (inr (t', x)) ↦ next t e (result (exec e t) t) r a (rw x)
]

-- Its line names all that a run computes with.
computes : Unit {0}
unfolding step exec on_proc call_close begin_close drain finish_close init_child on_context_init
    admit move attach see_parent see_child close_child see_done remove autoclose fire_autoclose
    resume_autoclose lookup insert take_out
computes = tt

-- A parent at 0, and a child at 1 that is admitted and then attached.
parent_only : Tree
parent_only = step (starts 0 []) empty_tree

with_admitted : Tree
unfolding parent_only
with_admitted = step (admits 0 1 []) parent_only

with_child : Tree
unfolding with_admitted
with_child = step (moves attaches 1) with_admitted

-- The parent closes, its monitor closes the child, and the parent is done.
parent_closing : Tree
unfolding with_child
parent_closing = step (calls_close 0) with_child

parent_seen : Tree
unfolding parent_closing
parent_seen = step (moves sees_parent 1) parent_closing

child_closing : Tree
unfolding parent_seen
child_closing = step (moves closes_child 1) parent_seen

child_drained : Tree
unfolding child_closing
child_drained = step (drains 1) child_closing

child_finished : Tree
unfolding child_drained
child_finished = step (finishes 1) child_drained

child_closed : Tree
unfolding child_finished
child_closed = step (moves closes_child 1) child_finished

child_counted : Tree
unfolding child_closed
child_counted = step (moves sees_done 1) child_closed

parent_drained : Tree
unfolding child_counted
parent_drained = step (drains 0) child_counted

parent_done : Tree
unfolding parent_drained
parent_done = step (finishes 0) parent_drained

parent_done_shut : (parent_done.procs 0).ch_closed ≡ shut
unfolding parent_done computes
parent_done_shut = refl

parent_only-Reach : Reach parent_only
unfolding parent_only computes
parent_only-Reach = follow (starts 0 []) empty_tree (begin _ refl) refl refl

with_admitted-Reach : Reach with_admitted
unfolding with_admitted computes
with_admitted-Reach = follow (admits 0 1 []) parent_only parent_only-Reach refl refl

with_child-Reach : Reach with_child
unfolding with_child computes
with_child-Reach =
    follow (moves attaches 1) with_admitted with_admitted-Reach (λ w h. ground arith) refl

parent_closing-Reach : Reach parent_closing
unfolding parent_closing computes
parent_closing-Reach = follow (calls_close 0) with_child with_child-Reach (λ e. cc) refl

parent_seen-Reach : Reach parent_seen
unfolding parent_seen computes
parent_seen-Reach = follow (moves sees_parent 1) parent_closing parent_closing-Reach tt refl

child_closing-Reach : Reach child_closing
unfolding child_closing computes
child_closing-Reach = follow (moves closes_child 1) parent_seen parent_seen-Reach tt refl

child_drained-Reach : Reach child_drained
unfolding child_drained computes
child_drained-Reach = follow (drains 1) child_closing child_closing-Reach tt refl

child_finished-Reach : Reach child_finished
unfolding child_finished computes
child_finished-Reach = follow (finishes 1) child_drained child_drained-Reach tt refl

child_closed-Reach : Reach child_closed
unfolding child_closed computes
child_closed-Reach = follow (moves closes_child 1) child_finished child_finished-Reach tt refl

child_counted-Reach : Reach child_counted
unfolding child_counted computes
child_counted-Reach = follow (moves sees_done 1) child_closed child_closed-Reach tt refl

parent_drained-Reach : Reach parent_drained
unfolding parent_drained computes
parent_drained-Reach = follow (drains 0) child_counted child_counted-Reach tt refl

parent_done-Reach : Reach parent_done
unfolding parent_done computes
parent_done-Reach = follow (finishes 0) parent_drained parent_drained-Reach tt refl

done_after_descendants_example : (parent_done.procs 1).ch_closed ≡ shut
unfolding parent_done computes
done_after_descendants_example =
    done_after_descendants {t = parent_done} {k = 0} {c = 1} parent_done-Reach refl
      (child_of 0 1 (record { parent = 0; phase = removing }) self refl refl (λ e. cc))

-- A child at 1 is attached to the parent at 0 that has closed in the meantime.
attach_after_done_example :
    Yields
      (λ t'.
        ((t'.procs 0).ch_closed ≡ shut)
        × ((t'.procs 1).ch_closed ≡ live)
        × ((t'.procs 0).running ≡ 1))
      (run (calls_close 0 ∷ drains 0 ∷ finishes 0 ∷ moves attaches 1 ∷ []) with_admitted)
unfolding with_admitted computes
attach_after_done_example =
    attach_after_done with_admitted 0 1 (record { parent = 0; phase = admitted }) refl refl refl
      (omega arith) refl refl refl refl refl
