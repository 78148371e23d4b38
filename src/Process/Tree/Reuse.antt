-- ===== src/Process/Tree/Reuse.antt =====
-- No panic of the processes of process/process.go while no `StartChild` meets a woken `Autoclose`.
use go_cedar.Base.{
  ℕ, ◌<◌, ◌≡◌, refl, ◌≢◌, inl, inr, List, [], ◌∷◌, some, lookup, ok, blocked, panic, arith,
  Option-cases, Bool-cases, take_out, count-take_out, count-append, Outcome, sym, subst, count,
}
use go_cedar.Process.{
  Process, started, nil, is_zero, call_close, begin_close, drain, finish_close, on_context_init,
  next_process_label,
}
use go_cedar.Process.Tree.{
  Tree, Watch, set_proc, init_child, admit, on_proc, autoclose, fire_autoclose, resume_autoclose,
  only, Move, attaches, sees_parent, sees_child, closes_child, sees_done, removes, move, Event,
  starts, admits, moves, hooks, calls_close, drains, finishes, calls_autoclose, autocloses, resumes,
  exec, empty_tree,
}
use go_cedar.Process.Tree.Moves.{
  attach_made, see_parent_made, see_child_made, see_done_made, remove_made, close_child_made,
  on_proc_made,
}
use go_cedar.Process.Tree.Closing.{Safe, Allowed}
use go_cedar.Process.Tree.Steps.{exec-Safe}
use go_cedar.Process.Tree.Done.{Reach, Reach-Inv}

-- What is required of the callers: `Allowed`, and no child is attached to a parent that has a woken
-- goroutine of `Autoclose`. Nothing is required of when that goroutine resumes.
abbrev pub Careful : Event → Tree → Type 0
Careful (moves attaches child) t =
    (w : Watch)
    → lookup child t.watches ≡ some w
    → ((t.procs w.parent).state ≡ started) × (count w.parent t.released ≡ 0)
Careful (resumes k) t = (t.procs k).ch_closing ≢ nil
Careful e t = Allowed e t

pub data CarefulReach : Tree → Type 0 where
  begins : (t : Tree) → t ≡ empty_tree → CarefulReach t
  goes_on :
      (t : Tree) (e : Event) (t' : Tree)
      → CarefulReach t
      → Careful e t
      → exec e t ≡ ok t'
      → CarefulReach t'

-- The counter that a woken goroutine waited for is still at zero.
AtZero : Tree → Type 0
AtZero t = (k : ℕ) → 0 < count k t.released → (t.procs k).running ≡ 0

set_proc-AtZero :
    (t : Tree) (k : ℕ) (p : Process)
    → p.running ≡ (t.procs k).running
    → AtZero t
    → AtZero (set_proc k p t)
unfolding AtZero
set_proc-AtZero t k p e z j c = ground (arith, z j c, z k, e)

on_proc-AtZero :
    (f : Process → Outcome Process) (k : ℕ) (t t' : Tree)
    → ((p : Process) → f (t.procs k) ≡ ok p → p.running ≡ (t.procs k).running)
    → on_proc f k t ≡ ok t'
    → AtZero t
    → AtZero t'
on_proc-AtZero f k t t' r h z =
    let (p, e, g) = on_proc_made f k t t' h in subst AtZero g (set_proc-AtZero t k p (r p e) z)

call_close-running : (p p' : Process) → call_close p.close_once p ≡ ok p' → p'.running ≡ p.running
unfolding call_close begin_close
call_close-running p p' h = ground arith

count-only : (j k : ℕ) (xs : List ℕ) → j ≢ k → count j (only k xs) ≡ 0
count-only j k [] n = refl
count-only j k (x ∷ xs) n = ground (arith, count-only j k xs n)

move-AtZero :
    (m : Move) (c : ℕ) (w : Watch) (t t' : Tree)
    → lookup c t.watches ≡ some w
    → Careful (moves m c) t
    → move m c w t ≡ ok t'
    → AtZero t
    → AtZero t'
unfolding move AtZero
move-AtZero attaches c w t t' l a h z =
    let (ph, g) = attach_made c w t t' h in
    let free = (a w l).1 in subst AtZero g (λ j b. ground (arith, z j b, free))
move-AtZero sees_parent c w t t' l a h z =
    let (ph, s, g) = see_parent_made c w t t' h in subst AtZero g z
move-AtZero sees_child c w t t' l a h z =
    let (ph, s, g) = see_child_made c w t t' h in subst AtZero g z
move-AtZero closes_child c w t t' l a h z =
    let (p, ph, e, g) = close_child_made c w t t' h in
    subst AtZero g (set_proc-AtZero t c p (call_close-running (t.procs c) p e) z)
move-AtZero sees_done c w t t' l a h z =
    let (ph, s, g) = see_done_made c w t t' h in
    subst AtZero g (λ j b. ground (
      arith,
      z j,
      b,
      count-only j w.parent t.asleep,
      count-append j (only w.parent t.asleep) t.released,
    ))
move-AtZero removes c w t t' l a h z =
    let (ph, g) = remove_made c w t t' h in subst AtZero g (set_proc-AtZero t w.parent _ refl z)

exec-AtZero : (e : Event) (t t' : Tree) → Careful e t → exec e t ≡ ok t' → AtZero t → AtZero t'
unfolding exec
exec-AtZero (starts child label) t t' a h z =
    let g : init_child child label t ≡ t' = ground (arith, h) in
    subst AtZero g
      (unfold init_child on_context_init next_process_label AtZero in λ j c. ground (arith, z j c))
exec-AtZero (admits parent child label) t t' a h z =
    let g : admit parent child label t ≡ t' = ground (arith, h) in
    subst AtZero g (
      unfold admit init_child on_context_init next_process_label AtZero in
      λ j c. ground (arith, z j))
exec-AtZero (moves m child) t t' a h z = elim (Option-cases (lookup child t.watches)) [
  | inl n ↦ absurd (ground (arith, n))
  | inr (w, l) ↦ move-AtZero m child w t t' l a (ground (arith, l)) z
]
exec-AtZero (hooks k x y) t t' a h z =
    let p = record (t.procs k) { on_closing = x; on_closed = y } in
    let g : set_proc k p t ≡ t' = ground (arith, h) in subst AtZero g (set_proc-AtZero t k p refl z)
exec-AtZero (calls_close k) t t' a h z =
    on_proc-AtZero _ k t t' (call_close-running (t.procs k)) h z
exec-AtZero (drains k) t t' a h z =
    on_proc-AtZero (λ p. drain p.close_once p) k t t' (λ p e. unfold drain in ground arith) h z
exec-AtZero (finishes k) t t' a h z =
    on_proc-AtZero (λ p. finish_close p.close_once p) k t t'
      (λ p e. unfold finish_close in ground arith) h z
exec-AtZero (calls_autoclose k) t t' a h z =
    let g : autoclose k t ≡ t' = ground (arith, h) in subst AtZero g (unfold autoclose AtZero in z)
exec-AtZero (autocloses k) t t' a h z =
    unfold fire_autoclose in
    elim (Option-cases (take_out k t.autoclosing)) [
      | inl n ↦ absurd (ground (arith, n))
      | inr (rest, e) ↦ elim (Bool-cases (is_zero (t.procs k).running)) [
        | inl b ↦
            on_proc-AtZero (λ p. call_close p.close_once p) k (record t { autoclosing = rest }) t'
              (call_close-running (t.procs k)) (ground (arith, e, b)) (unfold AtZero in z)
        | inr b ↦
            let g : record t { autoclosing = rest; asleep = k ∷ t.asleep } ≡ t' =
              ground (arith, e, b, h) in
            subst AtZero g (unfold AtZero in z)
      ]
    ]
exec-AtZero (resumes k) t t' a h z =
    unfold resume_autoclose in
    elim (Option-cases (take_out k t.released)) [
      | inl n ↦ absurd (ground (arith, n))
      | inr (rest, e) ↦ elim (Bool-cases (is_zero (t.procs k).running)) [
        | inr b ↦ absurd (ground (arith, e, b))
        | inl b ↦
            on_proc-AtZero (λ p. call_close p.close_once p) k (record t { released = rest }) t'
              (call_close-running (t.procs k)) (ground (arith, e, b))
              (unfold AtZero in λ j c. z j (omega (arith, count-take_out k j t.released e)))
      ]
    ]

-- A woken goroutine that resumes finds its counter at zero.
Careful-Allowed : (e : Event) (t : Tree) → AtZero t → Careful e t → exec e t ≢ blocked → Allowed e t
unfolding AtZero exec resume_autoclose
Careful-Allowed (resumes k) t z a n = elim (Option-cases (take_out k t.released)) [
  | inl x ↦ absurd (n (ground (arith, x)))
  | inr (rest, x) ↦ (a, z k (ground (arith, count-take_out k k t.released x)))
]
Careful-Allowed (moves attaches child) t z a n = λ w l. (a w l).0
Careful-Allowed (moves sees_parent child) t z a n = tt
Careful-Allowed (moves sees_child child) t z a n = tt
Careful-Allowed (moves closes_child child) t z a n = tt
Careful-Allowed (moves sees_done child) t z a n = tt
Careful-Allowed (moves removes child) t z a n = tt
Careful-Allowed (starts child label) t z a n = a
Careful-Allowed (admits parent child label) t z a n = a
Careful-Allowed (hooks k x y) t z a n = a
Careful-Allowed (calls_close k) t z a n = a
Careful-Allowed (drains k) t z a n = a
Careful-Allowed (finishes k) t z a n = a
Careful-Allowed (calls_autoclose k) t z a n = a
Careful-Allowed (autocloses k) t z a n = a

CarefulReach-sound : {t : Tree} → CarefulReach t → Reach t × AtZero t
CarefulReach-sound (begins t e) =
    (Reach.begin t e, subst AtZero (sym e) (unfold AtZero in λ k c. refl))
CarefulReach-sound (goes_on t e t' r a h) =
    let (r', z) = CarefulReach-sound r in
    let b = Careful-Allowed e t z a (λ n. cc (n, h)) in
    (Reach.next t e t' r' b h, exec-AtZero e t t' a h z)

-- In every state that is reached by steps that `Careful` admits, no such step panics, where no child
-- is attached to a parent between the wake-up of a goroutine of `Autoclose` and its resumption: no
-- channel is closed twice or before it is made, no wait group falls below zero, and none is used
-- again before its `Wait` has returned.
pub processes_never_panic : (t : Tree) (e : Event) → CarefulReach t → Careful e t → exec e t ≢ panic
processes_never_panic t e r a h =
    let (r', z) = CarefulReach-sound r in
    let b = Careful-Allowed e t z a (λ n. cc (n, h)) in
    subst Safe h (exec-Safe e t b (Reach-Inv r'))
