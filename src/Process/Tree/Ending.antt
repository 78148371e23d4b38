-- ===== src/Process/Tree/Ending.antt =====
-- The goroutines of process/process.go come to rest: their steps of themselves are bounded in number.
use go_cedar.Base.{
  ℕ, ◌<◌, ◌≡◌, refl, ◌≢◌, ◌⊎◌, inl, inr, List, some, if◌then◌else◌, lookup, count, Outcome, ok,
  arith, Option-cases, ap, ◌∙◌, sym, subst,
}
use go_cedar.Process.{
  Process, nil, call_close, begin_close, drain, finish_close, fresh, waiting, finished,
}
use go_cedar.Process.Tree.{
  Tree, Watch, closing_child, awaiting, removing, gone, on_proc, is_finished, Move, attaches,
  sees_parent, sees_child, closes_child, sees_done, removes, move, Event, starts, admits, moves,
  hooks, calls_close, drains, finishes, calls_autoclose, autocloses, resumes, exec,
}
use go_cedar.Process.Tree.Invariant.{IsConsistent, Inv}
use go_cedar.Process.Tree.Moves.{
  see_parent_made, see_child_made, see_done_made, remove_made, close_child_made, on_proc_made,
}
use go_cedar.Process.Tree.Progress.{IsInternal}
use go_cedar.Process.Tree.Measure.{
  close_rank, phase_rank, steps_left, Covers, phase_sum-insert, close_sum-set, watch_decreases,
  shift_decreases, proc_decreases,
}

call_close_cases :
    (p p' : Process)
    → call_close p.close_once p ≡ ok p'
    → ((p.close_once ≡ fresh) × (p'.close_once ≡ waiting))
      ⊎ ((p.close_once ≡ finished) × (p'.close_once ≡ finished))
unfolding call_close begin_close
call_close_cases p p' h = ground arith

-- `Close` makes no channel.
keeps_nil :
    (p p' : Process)
    → (call_close p.close_once p ≡ ok p')
      ⊎ (drain p.close_once p ≡ ok p')
      ⊎ (finish_close p.close_once p ≡ ok p')
    → IsConsistent p
    → p'.ch_closing ≢ nil
    → p.ch_closing ≢ nil
unfolding call_close begin_close drain finish_close
keeps_nil p p' h s n e = ground arith

module _ (ks : List ℕ) (t t' : Tree) (v : Inv t) (cov : Covers ks t) where
  close_child_decreases :
      (c : ℕ) (w : Watch)
      → lookup c t.watches ≡ some w
      → move closes_child c w t ≡ ok t'
      → steps_left ks t' < steps_left ks t
  unfolding move
  close_child_decreases c w h e =
      let (p, ph, f, g) = close_child_made c w t t' e in
      let w' : Watch = record w {
        phase = if is_finished p.close_once then awaiting else closing_child;
      } in
      let inside : 0 < count c ks = cov c (v.made c w h) in
      subst (λ t'. steps_left ks t' < steps_left ks t) g
        (elim (call_close_cases (t.procs c) p f) [
          | inl (a, b) ↦ omega (
            arith,
            phase_sum-insert c w' w t.watches h,
            close_sum-set ks c p t (ground (arith, a, b)) inside,
            ap phase_rank ph,
            ap (λ o. phase_rank (if is_finished o then awaiting else closing_child)) b,
          )
          | inr (a, b) ↦ shift_decreases ks t c c w w' p h (ground (arith, ph, b)) (b ∙ sym a)
        ])

  move_decreases :
      (m : Move) (c : ℕ) (w : Watch)
      → IsInternal (moves m c)
      → lookup c t.watches ≡ some w
      → move m c w t ≡ ok t'
      → steps_left ks t' < steps_left ks t
  unfolding move
  move_decreases attaches c w i h e = absurd i
  move_decreases sees_parent c w i h e =
      let (ph, s, g) = see_parent_made c w t t' e in
      subst (λ t'. steps_left ks t' < steps_left ks t) g
        (watch_decreases ks t c w (record w { phase = closing_child }) h (ground (arith, ph)))
  move_decreases sees_child c w i h e =
      let (ph, s, g) = see_child_made c w t t' e in
      subst (λ t'. steps_left ks t' < steps_left ks t) g
        (watch_decreases ks t c w (record w { phase = awaiting }) h (ground (arith, ph)))
  move_decreases closes_child c w i h e = close_child_decreases c w h e
  move_decreases sees_done c w i h e =
      let (ph, s, g) = see_done_made c w t t' e in
      subst (λ t'. steps_left ks t' < steps_left ks t) g
        (shift_decreases ks t c w.parent w (record w { phase = removing }) _ h (ground (arith, ph))
          refl)
  move_decreases removes c w i h e =
      let (ph, g) = remove_made c w t t' e in
      subst (λ t'. steps_left ks t' < steps_left ks t) g
        (shift_decreases ks t c w.parent w (record w { phase = gone }) _ h (ground (arith, ph))
          refl)

  on_proc_decreases :
      (f : Process → Outcome Process) (k : ℕ)
      → ((p : Process)
          → f (t.procs k) ≡ ok p
          → (close_rank p.close_once < close_rank (t.procs k).close_once)
            × ((t.procs k).ch_closing ≢ nil))
      → on_proc f k t ≡ ok t'
      → steps_left ks t' < steps_left ks t
  on_proc_decreases f k d h =
      let (p, e, g) = on_proc_made f k t t' h in
      subst (λ t'. steps_left ks t' < steps_left ks t) g
        (proc_decreases ks t k p (d p e).0 (cov k (d p e).1))

  -- Every step that a goroutine makes of itself brings the end nearer.
  pub internal_decreases :
      (e : Event) → IsInternal e → exec e t ≡ ok t' → steps_left ks t' < steps_left ks t
  unfolding exec
  internal_decreases (drains k) i h =
      on_proc_decreases (λ p. drain p.close_once p) k
        (λ p e. unfold drain in (ground arith, λ n. ground (arith, v.shape k))) h
  internal_decreases (finishes k) i h =
      on_proc_decreases (λ p. finish_close p.close_once p) k
        (λ p e. unfold finish_close in (ground arith, λ n. ground (arith, v.shape k))) h
  internal_decreases (moves m c) i h = elim (Option-cases (lookup c t.watches)) [
    | inl x ↦ absurd (ground (arith, x))
    | inr (w, x) ↦ move_decreases m c w i x (ground (arith, x))
  ]
  internal_decreases (starts child label) i h = absurd i
  internal_decreases (admits parent child label) i h = absurd i
  internal_decreases (hooks k a b) i h = absurd i
  internal_decreases (calls_close k) i h = absurd i
  internal_decreases (calls_autoclose k) i h = absurd i
  internal_decreases (autocloses k) i h = absurd i
  internal_decreases (resumes k) i h = absurd i
