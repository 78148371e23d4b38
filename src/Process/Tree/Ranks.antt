-- ===== src/Process/Tree/Ranks.antt =====
-- Processes of process/process.go are numbered upwards from parent to child: what the steps of one
-- process and of one monitor do to that order.
use go_cedar.Base.{
  ℕ, ◌+◌, ◌-◌, ◌≤◌, ◌<◌, ◌≡◌, refl, ◌≢◌, List, [], ◌∷◌, ◌++◌, some, if◌then◌else◌, lookup, insert,
  lookup-insert, ok, arith, one_if, subst,
}
use go_cedar.Process.{
  Process, nil, shut, on_context_init, next_process_label, call_close, begin_close, remove_sub,
}
use go_cedar.Process.Tree.{
  Tree, Watch, watching, closing_child, awaiting, removing, gone, set_proc, set_watch, init_child,
  is_finished, wake_waiters, Move, attaches, sees_parent, sees_child, closes_child, sees_done,
  removes, move,
}
use go_cedar.Process.Tree.Invariant.{IsConsistent, Inv}
use go_cedar.Process.Tree.Moves.{
  attach_made, see_parent_made, see_child_made, see_done_made, remove_made, close_child_made,
}

-- How many entries of a list have the key.
abbrev pub key_count : {V : Type 0} → ℕ → List (ℕ × V) → ℕ
key_count c [] = 0
key_count c ((d, v) ∷ m) = one_if d c + key_count c m

key_count-insert :
    {V : Type 0} (c d : ℕ) (v : V) (m : List (ℕ × V))
    → d ≢ c
    → key_count c (insert d v m) ≡ key_count c m
unfolding insert
key_count-insert c d v [] n = ground arith
key_count-insert c d v ((e, x) ∷ m) n = ground (arith, key_count-insert c d v m n)

key_count-insert-le :
    {V : Type 0} (c d : ℕ) (v : V) (m : List (ℕ × V))
    → key_count c m ≤ 1
    → key_count c (insert d v m) ≤ 1
unfolding insert
key_count-insert-le c d v [] h = ground arith
key_count-insert-le c d v ((e, x) ∷ m) h =
    ground (arith, key_count-insert c d v m, key_count-insert-le c d v m)

pub record IsRanked (t : Tree) : Type 0 where
  pub numbered : (k : ℕ) → (t.procs k).id ≤ t.spawn_counter
  pub below :
      (c : ℕ) (w : Watch) → lookup c t.watches ≡ some w → (t.procs w.parent).id < (t.procs c).id
  pub parent_made :
      (c : ℕ) (w : Watch) → lookup c t.watches ≡ some w → (t.procs w.parent).ch_closing ≢ nil
  pub distinct : (c : ℕ) → key_count c t.watches ≤ 1
  pub seen :
      (c : ℕ) (w : Watch)
      → lookup c t.watches ≡ some w
      → w.phase ≡ awaiting
      → (t.procs c).ch_closing ≡ shut

-- A new value for a process that keeps its number and undoes no close.
pub record Renews (p p' : Process) : Type 0 where
  pub same : p'.id ≡ p.id
  pub still_made : p.ch_closing ≢ nil → p'.ch_closing ≢ nil
  pub still_shut : p.ch_closing ≡ shut → p'.ch_closing ≡ shut

pub set_proc-IsRanked :
    (t : Tree) (k : ℕ) (p : Process) → IsRanked t → Renews (t.procs k) p → IsRanked (set_proc k p t)
set_proc-IsRanked t k p v r = record {
  numbered = λ j. ground (arith, v.numbered j, r.same);
  below = λ c w h. ground (arith, v.below c w h, r.same);
  parent_made = λ c w h e. ground (arith, v.parent_made c w h, r.still_made);
  distinct = v.distinct;
  seen = λ c w h e. ground (arith, v.seen c w h e, r.still_shut);
}

-- The goroutines of `Autoclose` have no place in the order.
pub with_goroutines-IsRanked :
    (t : Tree) (xs ys zs : List ℕ)
    → IsRanked t
    → IsRanked (record t { autoclosing = xs; asleep = ys; released = zs })
with_goroutines-IsRanked t xs ys zs v = record {
  numbered = v.numbered;
  below = v.below;
  parent_made = v.parent_made;
  distinct = v.distinct;
  seen = v.seen;
}

-- A child's monitor goes on.
pub set_watch-IsRanked :
    (t : Tree) (c : ℕ) (w : Watch)
    → IsRanked t
    → (t.procs w.parent).id < (t.procs c).id
    → (t.procs w.parent).ch_closing ≢ nil
    → (w.phase ≡ awaiting → (t.procs c).ch_closing ≡ shut)
    → IsRanked (set_watch c w t)
set_watch-IsRanked t c w v b m s = record {
  numbered = v.numbered;
  below = λ d x h. ground (arith, lookup-insert c d w t.watches, v.below d x);
  parent_made = λ d x h e. ground (arith, lookup-insert c d w t.watches, v.parent_made d x);
  distinct = λ d. key_count-insert-le d c w t.watches (v.distinct d);
  seen = λ d x h e. ground (arith, lookup-insert c d w t.watches, v.seen d x, s);
}

-- A monitor goes on while it sets its parent, or its child, to a new value.
advance-IsRanked :
    (t : Tree) (c k : ℕ) (w w' : Watch) (p : Process)
    → IsRanked t
    → lookup c t.watches ≡ some w
    → w'.parent ≡ w.parent
    → Renews (t.procs k) p
    → (w'.phase ≡ awaiting → ((set_proc k p t).procs c).ch_closing ≡ shut)
    → IsRanked (set_watch c w' (set_proc k p t))
advance-IsRanked t c k w w' p v h same r s =
    let u = set_proc-IsRanked t k p v r in
    set_watch-IsRanked (set_proc k p t) c w' u (ground (arith, u.below c w h))
      (λ e. ground (arith, u.parent_made c w h)) s

pub call_close-Renews :
    (p p' : Process) → IsConsistent p → call_close p.close_once p ≡ ok p' → Renews p p'
unfolding call_close begin_close
call_close-Renews p p' s h = record {
  same = ground arith;
  still_made = λ m e. ground arith;
  still_shut = λ m. ground arith;
}

-- A call of `Close` that returns leaves the channel closed.
call_close-finished :
    (p p' : Process) → IsConsistent p → call_close p.close_once p ≡ ok p' → p'.ch_closing ≡ shut
unfolding call_close begin_close
call_close-finished p p' s h = ground arith

pub move-IsRanked :
    (m : Move) (c : ℕ) (w : Watch) (t t' : Tree)
    → Inv t
    → IsRanked t
    → lookup c t.watches ≡ some w
    → move m c w t ≡ ok t'
    → IsRanked t'
unfolding move
move-IsRanked attaches c w t t' i v h e =
    let (ph, g) = attach_made c w t t' e in
    let p = t.procs w.parent in
    subst IsRanked g (
      advance-IsRanked t c w.parent w (record w { phase = watching })
        (record p { subs = p.subs ++ c ∷ []; running = p.running + 1 }) v h refl
        (record { same = refl; still_made = λ m. m; still_shut = λ s. s }) (λ z. cc))
move-IsRanked sees_parent c w t t' i v h e =
    let (ph, s, g) = see_parent_made c w t t' e in
    subst IsRanked g (
      set_watch-IsRanked t c (record w { phase = closing_child }) v (v.below c w h)
        (v.parent_made c w h) (λ z. cc))
move-IsRanked sees_child c w t t' i v h e =
    let (ph, s, g) = see_child_made c w t t' e in
    subst IsRanked g (
      set_watch-IsRanked t c (record w { phase = awaiting }) v (v.below c w h) (v.parent_made c w h)
        (λ z. s))
move-IsRanked closes_child c w t t' i v h e =
    let (p, ph, f, g) = close_child_made c w t t' e in
    subst IsRanked g (
      advance-IsRanked t c c w
        (record w { phase = if is_finished p.close_once then awaiting else closing_child }) p v h
        refl (call_close-Renews (t.procs c) p (i.shape c) f)
        (λ z. ground (arith, call_close-finished (t.procs c) p (i.shape c) f)))
move-IsRanked sees_done c w t t' i v h e =
    let (ph, s, g) = see_done_made c w t t' e in
    let p = t.procs w.parent in
    subst IsRanked g (
      advance-IsRanked (wake_waiters w.parent (p.running - 1) t) c w.parent w
        (record w { phase = removing }) (record p { running = p.running - 1 })
        (with_goroutines-IsRanked t _ _ _ v) h refl
        (record { same = refl; still_made = λ m. m; still_shut = λ s. s }) (λ z. cc))
move-IsRanked removes c w t t' i v h e =
    let (ph, g) = remove_made c w t t' e in
    let p = t.procs w.parent in
    subst IsRanked g (
      advance-IsRanked t c w.parent w (record w { phase = gone })
        (record p { subs = remove_sub c p.subs }) v h refl
        (record { same = refl; still_made = λ m. m; still_shut = λ s. s }) (λ z. cc))

pub init_child-IsRanked :
    (child : ℕ) (label : List ℕ) (t : Tree)
    → (t.procs child).ch_closing ≡ nil
    → Inv t
    → IsRanked t
    → IsRanked (init_child child label t)
unfolding init_child on_context_init next_process_label
init_child-IsRanked child label t n i v = record {
  numbered = λ j. ground (arith, v.numbered j);
  below = λ c w h. ground (arith, v.below c w h, v.parent_made c w h, i.made c w h);
  parent_made = λ c w h e. ground (arith, v.parent_made c w h);
  distinct = v.distinct;
  seen = λ c w h e. ground (arith, v.seen c w h e, i.made c w h);
}
