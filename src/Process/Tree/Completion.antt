-- ===== src/Process/Tree/Completion.antt =====
-- Every `Close` of process/process.go comes to its end.
use go_cedar.Base.{
  ℕ, ◌≡◌, ◌≢◌, inl, inr, List, [], ◌∷◌, lookup, ok, arith, Option-cases, Bool-cases, Outcome-cases,
  subst,
}
use go_cedar.Process.{Process, nil, shut, call_close, begin_close, drain, finish_close, fresh}
use go_cedar.Process.Tree.{
  Tree, Watch, set_proc, Move, attaches, sees_parent, sees_child, closes_child, sees_done, removes,
  move, Event, starts, admits, moves, hooks, calls_close, drains, finishes, calls_autoclose,
  autocloses, resumes, exec,
}
use go_cedar.Process.Tree.Invariant.{IsConsistent, Inv}
use go_cedar.Process.Tree.Moves.{
  see_parent_made, see_child_made, see_done_made, remove_made, close_child_made, on_proc_made,
}
use go_cedar.Process.Tree.Progress.{IsInternal}
use go_cedar.Process.Tree.Progress.{is_closing, GoesOn, closing-GoesOn}
use go_cedar.Process.Tree.Order.{OrderlyReach, goes_on, NotOwnParent, OrderlyReach-Reach}
use go_cedar.Process.Tree.Closing.{Allowed}
use go_cedar.Process.Tree.Done.{Reach-Inv}
use go_cedar.Process.Tree.Race.{run}

-- What a step of a goroutine keeps of a process.
pub record Steady (p p' : Process) : Type 0 where
  pub not_made : p'.ch_closing ≢ nil → p.ch_closing ≢ nil
  pub still_called : p.close_once ≢ fresh → p'.close_once ≢ fresh

abbrev pub AreSteady : Tree → Tree → Type 0
AreSteady t t' = (j : ℕ) → Steady (t.procs j) (t'.procs j)

pub same-AreSteady : (t : Tree) → AreSteady t t
same-AreSteady t j = record { not_made = λ m. m; still_called = λ c. c }

pub set_proc-AreSteady :
    (t : Tree) (k : ℕ) (p : Process) → Steady (t.procs k) p → AreSteady t (set_proc k p t)
set_proc-AreSteady t k p s j = record {
  not_made = λ m e. ground (arith, s.not_made);
  still_called = λ m e. ground (arith, s.still_called);
}

pub call_close-Steady :
    (p p' : Process) → IsConsistent p → call_close p.close_once p ≡ ok p' → Steady p p'
unfolding call_close begin_close
call_close-Steady p p' s h = record {
  not_made = λ m e. ground arith;
  still_called = λ m e. ground arith;
}

drain-Steady : (p p' : Process) → drain p.close_once p ≡ ok p' → Steady p p'
unfolding drain
drain-Steady p p' h = record { not_made = λ m e. ground arith; still_called = λ m e. ground arith }

finish_close-Steady : (p p' : Process) → finish_close p.close_once p ≡ ok p' → Steady p p'
unfolding finish_close
finish_close-Steady p p' h = record {
  not_made = λ m e. ground arith;
  still_called = λ m e. ground arith;
}

module _ (t t' : Tree) (v : Inv t) where
  move-AreSteady :
      (m : Move) (c : ℕ) (w : Watch)
      → IsInternal (moves m c)
      → move m c w t ≡ ok t'
      → AreSteady t t'
  unfolding move
  move-AreSteady attaches c w i e = absurd i
  move-AreSteady sees_parent c w i e =
      let (ph, s, g) = see_parent_made c w t t' e in subst (AreSteady t) g (same-AreSteady t)
  move-AreSteady sees_child c w i e =
      let (ph, s, g) = see_child_made c w t t' e in subst (AreSteady t) g (same-AreSteady t)
  move-AreSteady closes_child c w i e =
      let (p, ph, f, g) = close_child_made c w t t' e in
      subst (AreSteady t) g
        (set_proc-AreSteady t c p (call_close-Steady (t.procs c) p (v.shape c) f))
  move-AreSteady sees_done c w i e =
      let (ph, s, g) = see_done_made c w t t' e in
      subst (AreSteady t) g
        (set_proc-AreSteady t w.parent _ (record { not_made = λ m. m; still_called = λ c. c }))
  move-AreSteady removes c w i e =
      let (ph, g) = remove_made c w t t' e in
      subst (AreSteady t) g
        (set_proc-AreSteady t w.parent _ (record { not_made = λ m. m; still_called = λ c. c }))

  pub internal-AreSteady : (e : Event) → IsInternal e → exec e t ≡ ok t' → AreSteady t t'
  unfolding exec
  internal-AreSteady (drains k) i h =
      let (p, e, g) = on_proc_made (λ p. drain p.close_once p) k t t' h in
      subst (AreSteady t) g (set_proc-AreSteady t k p (drain-Steady (t.procs k) p e))
  internal-AreSteady (finishes k) i h =
      let (p, e, g) = on_proc_made (λ p. finish_close p.close_once p) k t t' h in
      subst (AreSteady t) g (set_proc-AreSteady t k p (finish_close-Steady (t.procs k) p e))
  internal-AreSteady (moves m c) i h = elim (Option-cases (lookup c t.watches)) [
    | inl x ↦ absurd (ground (arith, x))
    | inr (w, x) ↦ move-AreSteady m c w i (ground (arith, x))
  ]
  internal-AreSteady (starts child label) i h = absurd i
  internal-AreSteady (admits parent child label) i h = absurd i
  internal-AreSteady (hooks k a b) i h = absurd i
  internal-AreSteady (calls_close k) i h = absurd i
  internal-AreSteady (calls_autoclose k) i h = absurd i
  internal-AreSteady (autocloses k) i h = absurd i
  internal-AreSteady (resumes k) i h = absurd i

pub internal-Allowed : (e : Event) (t : Tree) → IsInternal e → Allowed e t × NotOwnParent e
internal-Allowed (drains k) t i = (tt, tt)
internal-Allowed (finishes k) t i = (tt, tt)
internal-Allowed (moves attaches c) t i = absurd i
internal-Allowed (moves sees_parent c) t i = (tt, tt)
internal-Allowed (moves sees_child c) t i = (tt, tt)
internal-Allowed (moves closes_child c) t i = (tt, tt)
internal-Allowed (moves sees_done c) t i = (tt, tt)
internal-Allowed (moves removes c) t i = (tt, tt)
internal-Allowed (starts child label) t i = absurd i
internal-Allowed (admits parent child label) t i = absurd i
internal-Allowed (hooks k a b) t i = absurd i
internal-Allowed (calls_close k) t i = absurd i
internal-Allowed (calls_autoclose k) t i = absurd i
internal-Allowed (autocloses k) t i = absurd i
internal-Allowed (resumes k) t i = absurd i

abbrev pub AreInternal : List Event → Type 0
AreInternal [] = Unit
AreInternal (e ∷ es) = IsInternal e × AreInternal es

pub after_internal :
    (e : Event) (t t' : Tree) → OrderlyReach t → IsInternal e → exec e t ≡ ok t' → OrderlyReach t'
after_internal e t t' r i h = let (a, n) = internal-Allowed e t i in goes_on t e t' r a n h

pub run_cons :
    (e : Event) (es : List Event) (t t' : Tree)
    → run (e ∷ es) t ≡ ok t'
    → (u : Tree) × (exec e t ≡ ok u) × (run es u ≡ ok t')
unfolding run
run_cons e es t t' h = elim (Outcome-cases (exec e t)) [
  | inl x ↦ absurd (ground (arith, x))
  | inr (inl x) ↦ absurd (ground (arith, x))
  | inr (inr (u, x)) ↦ (u, x, ground (arith, x))
]

run_steady :
    (es : List Event) (t t' : Tree) (k : ℕ)
    → OrderlyReach t
    → AreInternal es
    → run es t ≡ ok t'
    → (t.procs k).close_once ≢ fresh
    → OrderlyReach t' × ((t'.procs k).close_once ≢ fresh)
run_steady [] t t' k r i h c =
    let g : t ≡ t' = unfold run in ground arith in
    subst (λ t'. OrderlyReach t' × ((t'.procs k).close_once ≢ fresh)) g (r, c)
run_steady (e ∷ es) t t' k r (i, is) h c =
    let (u, x, y) = run_cons e es t t' h in
    let v = Reach-Inv (OrderlyReach-Reach r) in
    run_steady es u t' k (after_internal e t u r i x) is y
      (Steady.still_called (internal-AreSteady t u v e i x k) c)

-- In every state that is reached by steps that `Allowed` admits, with no process started as its own
-- child: when the goroutines have made all the steps that they can make of themselves, in whatever
-- order, each process whose `Close` had been called is done.
pub close_completes :
    (es : List Event) (t t' : Tree) (k : ℕ)
    → OrderlyReach t
    → AreInternal es
    → run es t ≡ ok t'
    → (GoesOn t' → ⊥)
    → (t.procs k).close_once ≢ fresh
    → (t'.procs k).ch_closed ≡ shut
close_completes es t t' k r i h rest c =
    let (r', c') = run_steady es t t' k r i h c in
    let s = Inv.shape (Reach-Inv (OrderlyReach-Reach r')) k in
    elim (Bool-cases (is_closing (t'.procs k).close_once)) [
      | inl d ↦ absurd (rest (closing-GoesOn t' k r' d))
      | inr d ↦ ground arith
    ]
