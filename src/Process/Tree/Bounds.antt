-- ===== src/Process/Tree/Bounds.antt =====
-- The goroutines of process/process.go, those of `Autoclose` among them, come to rest.
use go_cedar.Base.{
  ℕ, ◌+◌, ◌*◌, ◌≤◌, ◌<◌, ◌≡◌, inl, inr, List, [], ◌∷◌, length, ok, arith, Option-cases, Bool-cases,
  take_out, subst, ◌≢◌, refl,
}
use go_cedar.Process.{Process, nil, is_zero, call_close, begin_close}
use go_cedar.Process.Tree.{
  Tree, Watch, Event, moves, drains, finishes, autocloses, resumes, starts, admits, hooks,
  calls_close, calls_autoclose, exec, fire_autoclose, resume_autoclose, on_proc,
}
use go_cedar.Process.Tree.Invariant.{Inv, IsConsistent}
use go_cedar.Process.Tree.Closing.{Allowed}
use go_cedar.Process.Tree.Moves.{on_proc_made}
use go_cedar.Process.Tree.Progress.{IsInternal}
use go_cedar.Process.Tree.Measure.{
  close_rank, close_sum, phase_sum, steps_left, Covers, close_sum-set-le,
}
use go_cedar.Process.Tree.Ending.{internal_decreases}
use go_cedar.Process.Tree.Order.{OrderlyReach, goes_on, NotOwnParent, OrderlyReach-Reach}
use go_cedar.Process.Tree.Done.{Reach-Inv}
use go_cedar.Process.Tree.Race.{run}
use go_cedar.Process.Tree.Completion.{
  AreSteady, Steady, same-AreSteady, set_proc-AreSteady, call_close-Steady, internal-AreSteady,
  internal-Allowed, run_cons,
}
use go_cedar.Process.Tree.Waits.{waits_left, length-take_out, internal-waits_left}

-- Every step that a goroutine makes of itself: those of `Autoclose` too.
abbrev pub IsOwnStep : Event → Type 0
IsOwnStep (autocloses k) = Unit
IsOwnStep (resumes k) = Unit
IsOwnStep e = IsInternal e

abbrev pub AreOwnSteps : List Event → Type 0
AreOwnSteps [] = Unit
AreOwnSteps (e ∷ es) = IsOwnStep e × AreOwnSteps es

-- What a step that can be made shows and leaves.
record Advances (ks : List ℕ) (t : Tree) (e : Event) (t' : Tree) : Type 0 where
  allowed : Allowed e t
  other : NotOwnParent e
  steady : AreSteady t t'
  less : steps_left ks t' + waits_left t' < steps_left ks t + waits_left t

call_close-rank :
    (p p' : Process)
    → call_close p.close_once p ≡ ok p'
    → close_rank p'.close_once ≤ close_rank p.close_once
unfolding call_close begin_close
call_close-rank p p' h = ground arith

call_close-made :
    (p p' : Process) → IsConsistent p → call_close p.close_once p ≡ ok p' → p.ch_closing ≢ nil
unfolding call_close begin_close
call_close-made p p' s h n = ground arith

-- `Close`, called in a goroutine of `Autoclose` that ends.
record Closes (ks : List ℕ) (t : Tree) (k : ℕ) (t' : Tree) : Type 0 where
  was_made : (t.procs k).ch_closing ≢ nil
  steady : AreSteady t t'
  no_more : steps_left ks t' ≤ steps_left ks t
  waits : waits_left t' ≡ waits_left t

on_proc-Closes :
    (ks : List ℕ) (t t' : Tree) (k : ℕ)
    → IsConsistent (t.procs k)
    → on_proc (λ p. call_close p.close_once p) k t ≡ ok t'
    → Closes ks t k t'
on_proc-Closes ks t t' k s h =
    let (p, e, g) = on_proc_made (λ p. call_close p.close_once p) k t t' h in
    subst (Closes ks t k) g (record {
      was_made = call_close-made (t.procs k) p s e;
      steady = set_proc-AreSteady t k p (call_close-Steady (t.procs k) p s e);
      no_more = omega (arith, close_sum-set-le ks k p t (call_close-rank (t.procs k) p e));
      waits = refl;
    })

fire_autoclose-Advances :
    (ks : List ℕ) (t t' : Tree) (k : ℕ)
    → Inv t
    → fire_autoclose k t ≡ ok t'
    → Advances ks t (autocloses k) t'
unfolding fire_autoclose
fire_autoclose-Advances ks t t' k v h = elim (Option-cases (take_out k t.autoclosing)) [
  | inl n ↦ absurd (ground (arith, n))
  | inr (rest, e) ↦ elim (Bool-cases (is_zero (t.procs k).running)) [
    | inl z ↦
        let u = record t { autoclosing = rest } in
        let c = on_proc-Closes ks u t' k (v.shape k) (ground (arith, e, z)) in
        record {
          allowed = c.was_made;
          other = tt;
          steady = c.steady;
          less = omega (arith, c.no_more, c.waits, length-take_out k t.autoclosing rest e);
        }
    | inr z ↦
        let u = record t { autoclosing = rest; asleep = k ∷ t.asleep } in
        let g : u ≡ t' = ground (arith, e, z, h) in
        subst (Advances ks t (autocloses k)) g (record {
          allowed = λ n. ground (arith, z, v.idle k n);
          other = tt;
          steady = same-AreSteady t;
          less = omega (arith, length-take_out k t.autoclosing rest e);
        })
  ]
]

resume_autoclose-Advances :
    (ks : List ℕ) (t t' : Tree) (k : ℕ)
    → Inv t
    → resume_autoclose k t ≡ ok t'
    → Advances ks t (resumes k) t'
unfolding resume_autoclose
resume_autoclose-Advances ks t t' k v h = elim (Option-cases (take_out k t.released)) [
  | inl n ↦ absurd (ground (arith, n))
  | inr (rest, e) ↦ elim (Bool-cases (is_zero (t.procs k).running)) [
    | inr z ↦ absurd (ground (arith, e, z))
    | inl z ↦
        let u = record t { released = rest } in
        let c = on_proc-Closes ks u t' k (v.shape k) (ground (arith, e, z)) in
        record {
          allowed = (c.was_made, ground (arith, z));
          other = tt;
          steady = c.steady;
          less = omega (arith, c.no_more, c.waits, length-take_out k t.released rest e);
        }
  ]
]

internal-Advances :
    (ks : List ℕ) (t t' : Tree) (e : Event)
    → Inv t
    → Covers ks t
    → IsInternal e
    → exec e t ≡ ok t'
    → Advances ks t e t'
internal-Advances ks t t' e v c i h =
    let (a, n) = internal-Allowed e t i in
    record {
      allowed = a;
      other = n;
      steady = internal-AreSteady t t' v e i h;
      less = omega (arith, internal_decreases ks t t' v c e i h, internal-waits_left t t' e i h);
    }

own_step-Advances :
    (ks : List ℕ) (t t' : Tree) (e : Event)
    → Inv t
    → Covers ks t
    → IsOwnStep e
    → exec e t ≡ ok t'
    → Advances ks t e t'
own_step-Advances ks t t' (autocloses k) v c i h =
    fire_autoclose-Advances ks t t' k v (unfold exec in h)
own_step-Advances ks t t' (resumes k) v c i h =
    resume_autoclose-Advances ks t t' k v (unfold exec in h)
own_step-Advances ks t t' (moves m k) v c i h = internal-Advances ks t t' (moves m k) v c i h
own_step-Advances ks t t' (drains k) v c i h = internal-Advances ks t t' (drains k) v c i h
own_step-Advances ks t t' (finishes k) v c i h = internal-Advances ks t t' (finishes k) v c i h
own_step-Advances ks t t' (starts child label) v c i h = absurd i
own_step-Advances ks t t' (admits parent child label) v c i h = absurd i
own_step-Advances ks t t' (hooks k a b) v c i h = absurd i
own_step-Advances ks t t' (calls_close k) v c i h = absurd i
own_step-Advances ks t t' (calls_autoclose k) v c i h = absurd i

run_bounded :
    (ks : List ℕ) (es : List Event) (t t' : Tree)
    → OrderlyReach t
    → Covers ks t
    → AreOwnSteps es
    → run es t ≡ ok t'
    → length es ≤ steps_left ks t + waits_left t
run_bounded ks [] t t' r c i h = omega arith
run_bounded ks (e ∷ es) t t' r c (i, is) h =
    let (u, x, y) = run_cons e es t t' h in
    let a = own_step-Advances ks t u e (Reach-Inv (OrderlyReach-Reach r)) c i x in
    let c' : Covers ks u = λ k m. c k (Steady.not_made (a.steady k) m) in
    omega (arith, run_bounded ks es u t' (goes_on t e u r a.allowed a.other x) c' is y, a.less)

close_sum-le : (ks : List ℕ) (f : ℕ → Process) → close_sum ks f ≤ 3 * length ks
close_sum-le [] f = omega arith
close_sum-le (k ∷ ks) f = ground (arith, close_sum-le ks f)

phase_sum-le : (m : List (ℕ × Watch)) → phase_sum m ≤ 5 * length m
phase_sum-le [] = omega arith
phase_sum-le ((c, w) ∷ m) = ground (arith, phase_sum-le m)

-- In every state that is reached by steps that `Allowed` admits, with no process started as its own
-- child: the goroutines of `Close`, of the monitors and of `Autoclose` make at most three steps of
-- themselves for each address that holds an initialised process, five for each child, two for each
-- goroutine of `Autoclose` that has not called `running.Wait()` and one for each other, in whatever
-- order they run, until a client calls again.
pub closing_ends :
    (ks : List ℕ) (es : List Event) (t t' : Tree)
    → OrderlyReach t
    → Covers ks t
    → AreOwnSteps es
    → run es t ≡ ok t'
    → length es
      ≤ 3 * length ks
        + 5 * length t.watches
        + (2 * length t.autoclosing + length t.asleep + length t.released)
closing_ends ks es t t' r c i h =
    omega (arith, run_bounded ks es t t' r c i h, close_sum-le ks t.procs, phase_sum-le t.watches)
