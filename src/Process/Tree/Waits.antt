-- ===== src/Process/Tree/Waits.antt =====
-- The goroutines of `Autoclose` in process/process.go, and what the other goroutines do to them.
use go_cedar.Base.{
  ℕ, ◌+◌, ◌*◌, ◌≡◌, inl, inr, List, [], ◌∷◌, ◌++◌, length, ok, arith, Option-cases, take_out, subst,
  lookup, if◌then◌else◌, some, Bool, true, false, ◌-◌, refl,
}
use go_cedar.Process.{is_zero}
use go_cedar.Process.Tree.{
  Tree, Watch, Event, moves, drains, finishes, autocloses, resumes, starts, admits, hooks,
  calls_close, calls_autoclose, exec, only, without, move, Move, attaches, sees_parent, sees_child,
  closes_child, sees_done, removes,
}
use go_cedar.Process.Tree.Moves.{
  see_parent_made, see_child_made, see_done_made, remove_made, close_child_made, on_proc_made,
}
use go_cedar.Process.Tree.Progress.{IsInternal}

-- How many steps the goroutines of `Autoclose` have before them.
abbrev pub waits_left : Tree → ℕ
waits_left t = 2 * length t.autoclosing + length t.asleep + length t.released

pub length-take_out : (k : ℕ) (xs ys : List ℕ) → take_out k xs ≡ some ys → length xs ≡ length ys + 1
unfolding take_out
length-take_out k [] ys h = cc
length-take_out k (x ∷ xs) ys h = elim (Option-cases (take_out k xs)) [
  | inl e ↦ ground (arith, e)
  | inr (zs, e) ↦ ground (arith, e, length-take_out k xs zs e)
]

length-parts :
    (k : ℕ) (xs rest : List ℕ)
    → length (without k xs) + length (only k xs ++ rest) ≡ length xs + length rest
length-parts k [] rest = omega arith
length-parts k (x ∷ xs) rest = ground (arith, length-parts k xs rest)

woken_waits :
    (b : Bool) (k : ℕ) (xs rest : List ℕ)
    → length (if b then without k xs else xs) + length (if b then only k xs ++ rest else rest)
      ≡ length xs + length rest
woken_waits true k xs rest = length-parts k xs rest
woken_waits false k xs rest = omega arith

module _ (t t' : Tree) where
  move-waits_left :
      (m : Move) (c : ℕ) (w : Watch)
      → IsInternal (moves m c)
      → move m c w t ≡ ok t'
      → waits_left t' ≡ waits_left t
  unfolding move
  move-waits_left attaches c w i e = absurd i
  move-waits_left sees_parent c w i e =
      let (ph, s, g) = see_parent_made c w t t' e in subst (λ u. waits_left u ≡ waits_left t) g refl
  move-waits_left sees_child c w i e =
      let (ph, s, g) = see_child_made c w t t' e in subst (λ u. waits_left u ≡ waits_left t) g refl
  move-waits_left closes_child c w i e =
      let (p, ph, f, g) = close_child_made c w t t' e in
      subst (λ u. waits_left u ≡ waits_left t) g refl
  move-waits_left sees_done c w i e =
      let (ph, s, g) = see_done_made c w t t' e in
      subst (λ u. waits_left u ≡ waits_left t) g
        (omega (
          arith,
          woken_waits (is_zero ((t.procs w.parent).running - 1)) w.parent t.asleep t.released,
        ))
  move-waits_left removes c w i e =
      let (ph, g) = remove_made c w t t' e in subst (λ u. waits_left u ≡ waits_left t) g refl

  pub internal-waits_left :
      (e : Event) → IsInternal e → exec e t ≡ ok t' → waits_left t' ≡ waits_left t
  unfolding exec
  internal-waits_left (drains k) i h =
      let (p, e, g) = on_proc_made _ k t t' h in subst (λ u. waits_left u ≡ waits_left t) g refl
  internal-waits_left (finishes k) i h =
      let (p, e, g) = on_proc_made _ k t t' h in subst (λ u. waits_left u ≡ waits_left t) g refl
  internal-waits_left (moves m c) i h = elim (Option-cases (lookup c t.watches)) [
    | inl x ↦ absurd (ground (arith, x))
    | inr (w, x) ↦ move-waits_left m c w i (ground (arith, x))
  ]
  internal-waits_left (starts child label) i h = absurd i
  internal-waits_left (admits parent child label) i h = absurd i
  internal-waits_left (hooks k a b) i h = absurd i
  internal-waits_left (calls_close k) i h = absurd i
  internal-waits_left (calls_autoclose k) i h = absurd i
  internal-waits_left (autocloses k) i h = absurd i
  internal-waits_left (resumes k) i h = absurd i
