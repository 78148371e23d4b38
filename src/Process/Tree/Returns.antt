-- ===== src/Process/Tree/Returns.antt =====
-- A call of `Close` of process/process.go can always be brought to its end by goroutines alone.
use go_cedar.Base.{
  ℕ, zero, suc, ◌<◌, ◌≡◌, refl, ◌≢◌, inl, inr, List, [], ◌∷◌, ok, ◌>>=◌, arith, Bool-cases, ap, ◌∙◌,
}
use go_cedar.Process.{shut, fresh}
use go_cedar.Process.Tree.{Tree, Event}
use go_cedar.Process.Tree.Done.{Reach-Inv}
use go_cedar.Process.Tree.Order.{OrderlyReach, OrderlyReach-Reach}
use go_cedar.Process.Tree.Measure.{steps_left, Covers}
use go_cedar.Process.Tree.Ending.{internal_decreases}
use go_cedar.Process.Tree.Progress.{is_closing, closing-GoesOn}
use go_cedar.Process.Tree.Completion.{AreInternal, after_internal, internal-AreSteady, Steady}
use go_cedar.Process.Tree.Race.{run}

returns_within :
    (n : ℕ) (ks : List ℕ) (t : Tree) (k : ℕ)
    → steps_left ks t < n
    → OrderlyReach t
    → Covers ks t
    → (t.procs k).close_once ≢ fresh
    → (es : List Event) × (t' : Tree) × AreInternal es
      × (run es t ≡ ok t')
      × OrderlyReach t'
      × ((t'.procs k).ch_closed ≡ shut)
unfolding run
returns_within zero ks t k n r c f = absurd (omega arith)
returns_within (suc m) ks t k n r c f =
    let v = Reach-Inv (OrderlyReach-Reach r) in
    elim (Bool-cases (is_closing (t.procs k).close_once)) [
      | inr d ↦ ([], t, tt, refl, r, ground (arith, v.shape k))
      | inl d ↦
          let (e, u, i, x) = closing-GoesOn t k r d in
          let s = internal-AreSteady t u v e i x in
          let (es, t', is, y, r', z) =
            returns_within m ks u k (omega (arith, internal_decreases ks t u v c e i x))
              (after_internal e t u r i x) (λ j h. c j (Steady.not_made (s j) h))
              (Steady.still_called (s k) f) in
          (e ∷ es, t', (i, is), ap (λ o. o >>= λ w. run es w) x ∙ y, r', z)
    ]

-- In every state that is reached by steps that `Allowed` admits, with no process started as its own
-- child, and with a list that has the address of every initialised process: a call of `Close` that has
-- been made can be brought to its end, after which the process is done, by steps that the goroutines
-- make of themselves.
pub close_returns :
    (ks : List ℕ) (t : Tree) (k : ℕ)
    → OrderlyReach t
    → Covers ks t
    → (t.procs k).close_once ≢ fresh
    → (es : List Event) × (t' : Tree) × AreInternal es
      × (run es t ≡ ok t')
      × OrderlyReach t'
      × ((t'.procs k).ch_closed ≡ shut)
close_returns ks t k r c f = returns_within (suc (steps_left ks t)) ks t k (omega arith) r c f
