-- ===== src/Process/Tree/Names.antt =====
-- The numbers and labels that `nextProcessLabel` of process/process.go gives to the processes.
use go_cedar.Base.{
  ℕ, ◌-◌, ◌≤◌, ◌≡◌, refl, ◌≢◌, ◌⊎◌, inl, inr, List, [], ◌∷◌, ok, Outcome, lookup, arith, sym, subst,
  ap, ◌∙◌, Option-cases, Outcome-cases, Bool-cases, take_out,
}
use go_cedar.Process.{
  Process, on_context_init, next_process_label, call_close, begin_close, drain, finish_close,
  is_zero,
}
use go_cedar.Process.Labels.{number_in, number_in-next_process_label}
use go_cedar.Process.Tree.{
  Tree, Watch, set_proc, set_watch, init_child, admit, Move, attaches, sees_parent, sees_child,
  closes_child, sees_done, removes, move, Event, starts, admits, moves, hooks, calls_close, drains,
  finishes, calls_autoclose, autocloses, resumes, resume_autoclose, exec, autoclose, fire_autoclose,
  on_proc, empty_tree, wake_waiters,
}
use go_cedar.Process.Tree.Moves.{
  attach_made, see_parent_made, see_child_made, see_done_made, remove_made, close_child_made,
  on_proc_made,
}
use go_cedar.Process.Tree.Race.{run}

-- A number is in use by one process at most, and stands in its label; 0 is that of no process.
pub record AreNamed (t : Tree) : Type 0 where
  pub counted : (k : ℕ) → (t.procs k).id ≤ t.spawn_counter
  pub unlike : (j k : ℕ) → (t.procs j).id ≡ (t.procs k).id → (j ≡ k) ⊎ ((t.procs k).id ≡ 0)
  pub labelled : (k : ℕ) → number_in (t.procs k).label 0 ≡ (t.procs k).id

abbrev SameName : Process → Process → Type 0
SameName p p' = (p'.id ≡ p.id) × (p'.label ≡ p.label)

set_proc-AreNamed :
    (t : Tree) (k : ℕ) (p : Process)
    → AreNamed t
    → SameName (t.procs k) p
    → AreNamed (set_proc k p t)
set_proc-AreNamed t k p v (i, l) = record {
  counted = λ j. ground (arith, v.counted j, i);
  unlike = λ j m h. ground (arith, v.unlike j m, i);
  labelled = λ j. ground (arith, v.labelled j, i, v.labelled k, ap (λ s. number_in s 0) l);
}

init_child-AreNamed :
    (child : ℕ) (label : List ℕ) (t : Tree) → AreNamed t → AreNamed (init_child child label t)
unfolding init_child on_context_init next_process_label
init_child-AreNamed child label t v = record {
  counted = λ j. ground (arith, v.counted j);
  unlike = λ j m h. ground (arith, v.unlike j m, v.counted j, v.counted m);
  labelled = λ j. ground (arith, v.labelled j, number_in-next_process_label label t.spawn_counter);
}

admit-AreNamed :
    (parent child : ℕ) (label : List ℕ) (t : Tree)
    → AreNamed t
    → AreNamed (admit parent child label t)
unfolding admit
admit-AreNamed parent child label t v =
    let u = init_child-AreNamed child label t v in ground (arith, u.counted, u.unlike, u.labelled)

call_close-SameName : (p p' : Process) → call_close p.close_once p ≡ ok p' → SameName p p'
unfolding call_close begin_close
call_close-SameName p p' h = ground arith

drain-SameName : (p p' : Process) → drain p.close_once p ≡ ok p' → SameName p p'
unfolding drain
drain-SameName p p' h = ground arith

finish_close-SameName : (p p' : Process) → finish_close p.close_once p ≡ ok p' → SameName p p'
unfolding finish_close
finish_close-SameName p p' h = ground arith

-- A method that keeps the name of its process.
on_proc-AreNamed :
    (f : Process → Outcome Process) (k : ℕ) (t t' : Tree)
    → ((p' : Process) → f (t.procs k) ≡ ok p' → SameName (t.procs k) p')
    → on_proc f k t ≡ ok t'
    → AreNamed t
    → AreNamed t'
on_proc-AreNamed f k t t' n h v =
    let (p, e, g) = on_proc_made f k t t' h in subst AreNamed g (set_proc-AreNamed t k p v (n p e))

-- The monitors of children change no names.
set_watch-AreNamed : (c : ℕ) (w : Watch) (t : Tree) → AreNamed t → AreNamed (set_watch c w t)
set_watch-AreNamed c w t v = record {
  counted = v.counted;
  unlike = v.unlike;
  labelled = v.labelled;
}

move-AreNamed :
    (m : Move) (c : ℕ) (w : Watch) (t t' : Tree) → move m c w t ≡ ok t' → AreNamed t → AreNamed t'
unfolding move
move-AreNamed attaches c w t t' h v =
    let (a, g) = attach_made c w t t' h in
    subst AreNamed g (set_watch-AreNamed c _ _ (set_proc-AreNamed t w.parent _ v (refl, refl)))
move-AreNamed sees_parent c w t t' h v =
    let (a, b, g) = see_parent_made c w t t' h in subst AreNamed g (set_watch-AreNamed c _ t v)
move-AreNamed sees_child c w t t' h v =
    let (a, b, g) = see_child_made c w t t' h in subst AreNamed g (set_watch-AreNamed c _ t v)
move-AreNamed closes_child c w t t' h v =
    let (p, a, e, g) = close_child_made c w t t' h in
    subst AreNamed g
      (set_watch-AreNamed c _ _ (set_proc-AreNamed t c p v (call_close-SameName (t.procs c) p e)))
move-AreNamed sees_done c w t t' h v =
    let (a, b, g) = see_done_made c w t t' h in
    let u = wake_waiters w.parent ((t.procs w.parent).running - 1) t in
    let v' : AreNamed u = record {
      counted = v.counted;
      unlike = v.unlike;
      labelled = v.labelled;
    } in
    subst AreNamed g (set_watch-AreNamed c _ _ (set_proc-AreNamed u w.parent _ v' (refl, refl)))
move-AreNamed removes c w t t' h v =
    let (a, g) = remove_made c w t t' h in
    subst AreNamed g (set_watch-AreNamed c _ _ (set_proc-AreNamed t w.parent _ v (refl, refl)))

-- Every step keeps the names apart, whatever the callers do.
exec-AreNamed : (e : Event) (t t' : Tree) → exec e t ≡ ok t' → AreNamed t → AreNamed t'
unfolding exec autoclose
exec-AreNamed (starts child label) t t' h v =
    subst AreNamed (ground (arith, h)) (init_child-AreNamed child label t v)
exec-AreNamed (admits parent child label) t t' h v =
    subst AreNamed (ground (arith, h)) (admit-AreNamed parent child label t v)
exec-AreNamed (moves m child) t t' h v = elim (Option-cases (lookup child t.watches)) [
  | inl n ↦ absurd (ground (arith, n, h))
  | inr (w, f) ↦ move-AreNamed m child w t t' (ground (arith, f, h)) v
]
exec-AreNamed (hooks k closing closed) t t' h v =
    let p = record (t.procs k) { on_closing = closing; on_closed = closed } in
    let g : set_proc k p t ≡ t' = ground (arith, h) in
    subst AreNamed g (set_proc-AreNamed t k p v (refl, refl))
exec-AreNamed (calls_close k) t t' h v =
    on_proc-AreNamed _ k t t' (call_close-SameName (t.procs k)) h v
exec-AreNamed (drains k) t t' h v = on_proc-AreNamed _ k t t' (drain-SameName (t.procs k)) h v
exec-AreNamed (finishes k) t t' h v =
    on_proc-AreNamed _ k t t' (finish_close-SameName (t.procs k)) h v
exec-AreNamed (calls_autoclose k) t t' h v =
    let g : autoclose k t ≡ t' = ground (arith, h) in
    subst AreNamed g (record { counted = v.counted; unlike = v.unlike; labelled = v.labelled })
exec-AreNamed (autocloses k) t t' h v =
    unfold fire_autoclose in
    elim (Option-cases (take_out k t.autoclosing)) [
      | inl n ↦ absurd (ground (arith, n))
      | inr (rest, e) ↦ elim (Bool-cases (is_zero (t.procs k).running)) [
        | inl z ↦
            on_proc-AreNamed (λ p. call_close p.close_once p) k (record t { autoclosing = rest }) t'
              (call_close-SameName (t.procs k)) (ground (arith, e, z))
              (record { counted = v.counted; unlike = v.unlike; labelled = v.labelled })
        | inr z ↦
            let g : record t { autoclosing = rest; asleep = k ∷ t.asleep } ≡ t' =
              ground (arith, e, z, h) in
            subst AreNamed g
              (record { counted = v.counted; unlike = v.unlike; labelled = v.labelled })
      ]
    ]
exec-AreNamed (resumes k) t t' h v =
    unfold resume_autoclose in
    elim (Option-cases (take_out k t.released)) [
      | inl n ↦ absurd (ground (arith, n))
      | inr (rest, e) ↦ elim (Bool-cases (is_zero (t.procs k).running)) [
        | inl z ↦
            on_proc-AreNamed (λ p. call_close p.close_once p) k (record t { released = rest }) t'
              (call_close-SameName (t.procs k)) (ground (arith, e, z))
              (record { counted = v.counted; unlike = v.unlike; labelled = v.labelled })
        | inr z ↦ absurd (ground (arith, e, z))
      ]
    ]

run-AreNamed : (es : List Event) (t t' : Tree) → run es t ≡ ok t' → AreNamed t → AreNamed t'
unfolding run
run-AreNamed [] t t' h v = subst AreNamed (ground (arith, h)) v
run-AreNamed (e ∷ es) t t' h v = elim (Outcome-cases (exec e t)) [
  | inl n ↦ absurd (ground (arith, n))
  | inr (inl n) ↦ absurd (ground (arith, n))
  | inr (inr (u, f)) ↦ run-AreNamed es u t' (ground (arith, f)) (exec-AreNamed e t u f v)
]

empty_tree-AreNamed : AreNamed empty_tree
empty_tree-AreNamed = record {
  counted = λ k. omega arith;
  unlike = λ j k h. inr refl;
  labelled = λ k. refl;
}

-- An initialised process shares its number with no other one.
pub number_own :
    (es : List Event) (t : Tree) (j k : ℕ)
    → run es empty_tree ≡ ok t
    → (t.procs k).id ≢ 0
    → (t.procs j).id ≡ (t.procs k).id
    → j ≡ k
number_own es t j k h n i =
    ground (arith, (run-AreNamed es empty_tree t h empty_tree-AreNamed).unlike j k i, n)

pub label_own :
    (es : List Event) (t : Tree) (j k : ℕ)
    → run es empty_tree ≡ ok t
    → (t.procs k).id ≢ 0
    → (t.procs j).label ≡ (t.procs k).label
    → j ≡ k
label_own es t j k h n l =
    let v = run-AreNamed es empty_tree t h empty_tree-AreNamed in
    number_own es t j k h n (sym (v.labelled j) ∙ ap (λ s. number_in s 0) l ∙ v.labelled k)

-- After any steps, whatever the callers do, a process that has been initialised, whose number then
-- is not 0, has neither the number nor the label of another process; its number can be read off its
-- label, and is not above the count of processes that were initialised.
pub names_unique :
    (es : List Event) (t : Tree) (j k : ℕ)
    → run es empty_tree ≡ ok t
    → (t.procs k).id ≢ 0
    → j ≢ k
    → ((t.procs j).id ≢ (t.procs k).id)
      × ((t.procs j).label ≢ (t.procs k).label)
      × (number_in (t.procs k).label 0 ≡ (t.procs k).id)
      × ((t.procs k).id ≤ t.spawn_counter)
names_unique es t j k h n d =
    let v = run-AreNamed es empty_tree t h empty_tree-AreNamed in
    (
      λ e. d (number_own es t j k h n e),
      λ e. d (label_own es t j k h n e),
      v.labelled k,
      v.counted k,
    )
