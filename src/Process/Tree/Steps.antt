-- ===== src/Process/Tree/Steps.antt =====
-- The monitor that `StartChild` starts, and with it every step of the goroutines of process/process.go keeps the invariant, and none panics.
use go_cedar.Base.{
  ℕ, ◌+◌, ◌-◌, ◌<◌, ◌≡◌, refl, ◌≢◌, inl, inr, List, [], ◌∷◌, ◌++◌, true, some, lookup, arith,
  Option-cases, Bool-cases, take_out, Outcome-cases,
}
use go_cedar.Process.{started, nil, shut, is_shut, is_zero, call_close, remove_sub}
use go_cedar.Process.Tree.{
  Tree, Watch, Phase, admitted, watching, closing_child, awaiting, removing, gone, set_proc,
  set_watch, attach, see_parent, see_child, close_child, see_done, remove, on_proc, autoclose,
  wake_waiters, resume_autoclose, resumes, fire_autoclose, Move, attaches, sees_parent, sees_child,
  closes_child, sees_done, removes, move, Event, starts, admits, moves, hooks, calls_close, drains,
  finishes, calls_autoclose, autocloses, exec,
}
use go_cedar.Process.Tree.Invariant.{
  is_live, has_ended, weight-le, Inv, set_proc-Inv, set_watch-Inv, shift-Inv,
}
use go_cedar.Process.Tree.Closing.{
  Safe, Allowed, call_close-Becomes, drain-Becomes, finish_close-Becomes, on_proc-Safe,
  init_child-Inv, admit-Inv,
}

-- The goroutines of `Autoclose` are of no account.
pub with_goroutines :
    (t : Tree) (xs ys zs : List ℕ)
    → Inv t
    → Inv (record t { autoclosing = xs; asleep = ys; released = zs })
with_goroutines t xs ys zs v = record {
  shape = v.shape;
  counted = v.counted;
  quiet = v.quiet;
  idle = v.idle;
  ended = v.ended;
  made = v.made;
}

module _ (t : Tree) (child : ℕ) (w : Watch) (h : lookup child t.watches ≡ some w) (v : Inv t) where
  -- The monitor goes on without its parent's counter.
  advance :
      (ph : Phase)
      → is_live ph ≡ is_live w.phase
      → (has_ended ph ≡ true → (t.procs child).ch_closed ≡ shut)
      → Inv (set_watch child (record w { phase = ph }) t)
  advance ph same done =
      set_watch-Inv t child (record w { phase = ph }) v (λ k. ground (arith, h)) done
        (v.made child w h)

  attach-Safe :
      (ph : Phase) → w.phase ≡ ph → (t.procs w.parent).state ≡ started → Safe (attach child w t)
  unfolding attach
  attach-Safe admitted e s =
      let p = t.procs w.parent in
      rw (e, attach)
        (shift-Inv t child w (record w { phase = watching })
          (record p { subs = p.subs ++ child ∷ []; running = p.running + 1 }) v h refl
          (ground (arith, v.shape w.parent)) (ground (arith, e)) (λ z. cc))
  attach-Safe watching e s = rw (e, attach) tt
  attach-Safe closing_child e s = rw (e, attach) tt
  attach-Safe awaiting e s = rw (e, attach) tt
  attach-Safe removing e s = rw (e, attach) tt
  attach-Safe gone e s = rw (e, attach) tt

  see_parent-Safe : (ph : Phase) → w.phase ≡ ph → Safe (see_parent child w t)
  unfolding see_parent
  see_parent-Safe watching e = elim (Bool-cases (is_shut (t.procs w.parent).ch_closing)) [
    | inl y ↦ rw (e, y, see_parent) (advance closing_child (rw e) (λ z. cc))
    | inr n ↦ rw (e, n, see_parent) tt
  ]
  see_parent-Safe admitted e = rw (e, see_parent) tt
  see_parent-Safe closing_child e = rw (e, see_parent) tt
  see_parent-Safe awaiting e = rw (e, see_parent) tt
  see_parent-Safe removing e = rw (e, see_parent) tt
  see_parent-Safe gone e = rw (e, see_parent) tt

  see_child-Safe : (ph : Phase) → w.phase ≡ ph → Safe (see_child child w t)
  unfolding see_child
  see_child-Safe watching e = elim (Bool-cases (is_shut (t.procs child).ch_closing)) [
    | inl y ↦ rw (e, y, see_child) (advance awaiting (rw e) (λ z. cc))
    | inr n ↦ rw (e, n, see_child) tt
  ]
  see_child-Safe admitted e = rw (e, see_child) tt
  see_child-Safe closing_child e = rw (e, see_child) tt
  see_child-Safe awaiting e = rw (e, see_child) tt
  see_child-Safe removing e = rw (e, see_child) tt
  see_child-Safe gone e = rw (e, see_child) tt

  see_done-Safe : (ph : Phase) → w.phase ≡ ph → Safe (see_done child w t)
  unfolding see_done
  see_done-Safe awaiting e = elim (Bool-cases (is_shut (t.procs child).ch_closed)) [
    | inr n ↦ rw (e, n, see_done) tt
    | inl y ↦
        let p = t.procs w.parent in
        let some_live : 0 < p.running =
          ground (arith, e, h, v.counted w.parent, weight-le w.parent child t.watches) in
        elim (Bool-cases (is_zero p.running)) [
          | inl z ↦ absurd (ground arith)
          | inr z ↦
              rw (e, y, z, see_done)
                (shift-Inv (wake_waiters w.parent (p.running - 1) t) child w
                  (record w { phase = removing }) (record p { running = p.running - 1 })
                  (with_goroutines t _ _ _ v) h refl
                  (ground (arith, v.shape w.parent, v.quiet w.parent, v.idle w.parent))
                  (ground (arith, e)) (λ _. ground (arith, y)))
        ]
  ]
  see_done-Safe admitted e = rw (e, see_done) tt
  see_done-Safe watching e = rw (e, see_done) tt
  see_done-Safe closing_child e = rw (e, see_done) tt
  see_done-Safe removing e = rw (e, see_done) tt
  see_done-Safe gone e = rw (e, see_done) tt

  remove-Safe : (ph : Phase) → w.phase ≡ ph → Safe (remove child w t)
  unfolding remove
  remove-Safe removing e =
      let p = t.procs w.parent in
      rw (e, remove)
        (shift-Inv t child w (record w { phase = gone })
          (record p { subs = remove_sub child p.subs }) v h refl
          (ground (arith, v.shape w.parent, v.quiet w.parent, v.idle w.parent)) (ground (arith, e))
          (λ _. v.ended child w h (rw e)))
  remove-Safe admitted e = rw (e, remove) tt
  remove-Safe watching e = rw (e, remove) tt
  remove-Safe closing_child e = rw (e, remove) tt
  remove-Safe awaiting e = rw (e, remove) tt
  remove-Safe gone e = rw (e, remove) tt

close_child-Safe :
    (t : Tree) (child : ℕ) (w : Watch) (ph : Phase)
    → lookup child t.watches ≡ some w
    → Inv t
    → w.phase ≡ ph
    → Safe (close_child child w t)
unfolding close_child
close_child-Safe t child w closing_child h v e =
    let p = t.procs child in
    let b = call_close-Becomes p (v.shape child) (v.made child w h) (v.quiet child) in
    elim (Outcome-cases (call_close p.close_once p)) [
      | inl x ↦ absurd (b.0 x)
      | inr (inl x) ↦ rw (e, x, close_child) tt
      | inr (inr (p', x)) ↦
          rw (e, x, close_child)
            (advance (set_proc child p' t) child w h (set_proc-Inv t child p' v (b.1 p' x)) _
              (ground (arith, e)) (ground arith))
    ]
close_child-Safe t child w admitted h v e = rw (e, close_child) tt
close_child-Safe t child w watching h v e = rw (e, close_child) tt
close_child-Safe t child w awaiting h v e = rw (e, close_child) tt
close_child-Safe t child w removing h v e = rw (e, close_child) tt
close_child-Safe t child w gone h v e = rw (e, close_child) tt

move-Safe :
    (m : Move) (child : ℕ) (t : Tree) (w : Watch)
    → lookup child t.watches ≡ some w
    → Inv t
    → Allowed (moves m child) t
    → Safe (move m child w t)
unfolding move
move-Safe attaches child t w h v a = attach-Safe t child w h v w.phase refl (a w h)
move-Safe sees_parent child t w h v a = see_parent-Safe t child w h v w.phase refl
move-Safe sees_child child t w h v a = see_child-Safe t child w h v w.phase refl
move-Safe closes_child child t w h v a = close_child-Safe t child w w.phase h v refl
move-Safe sees_done child t w h v a = see_done-Safe t child w h v w.phase refl
move-Safe removes child t w h v a = remove-Safe t child w h v w.phase refl

call-Safe :
    (k : ℕ) (t : Tree)
    → (t.procs k).ch_closing ≢ nil
    → Inv t
    → Safe (on_proc (λ p. call_close p.close_once p) k t)
call-Safe k t m v = on_proc-Safe _ k t (call_close-Becomes _ (v.shape k) m (v.quiet k)) v

fire_autoclose-Safe :
    (k : ℕ) (t : Tree) → (t.procs k).ch_closing ≢ nil → Inv t → Safe (fire_autoclose k t)
unfolding fire_autoclose
fire_autoclose-Safe k t m v = elim (Option-cases (take_out k t.autoclosing)) [
  | inl n ↦ rw (n, fire_autoclose) tt
  | inr (rest, e) ↦ elim (Bool-cases (is_zero (t.procs k).running)) [
    | inl z ↦
        rw (e, z, fire_autoclose)
          (call-Safe k (record t { autoclosing = rest }) m
            (with_goroutines t rest t.asleep t.released v))
    | inr z ↦ rw (e, z, fire_autoclose) (with_goroutines t rest (k ∷ t.asleep) t.released v)
  ]
]

resume_autoclose-Safe :
    (k : ℕ) (t : Tree)
    → (t.procs k).ch_closing ≢ nil
    → (t.procs k).running ≡ 0
    → Inv t
    → Safe (resume_autoclose k t)
unfolding resume_autoclose
resume_autoclose-Safe k t m z v = elim (Option-cases (take_out k t.released)) [
  | inl n ↦ rw (n, resume_autoclose) tt
  | inr (rest, e) ↦
      rw (e, z, resume_autoclose)
        (call-Safe k (record t { released = rest }) m
          (with_goroutines t t.autoclosing t.asleep rest v))
]

-- No allowed step panics, and each keeps the invariant.
pub exec-Safe : (e : Event) (t : Tree) → Allowed e t → Inv t → Safe (exec e t)
unfolding exec
exec-Safe (starts child label) t a v = init_child-Inv child label t a v
exec-Safe (admits parent child label) t a v = admit-Inv parent child label t a v
exec-Safe (moves m child) t a v = elim (Option-cases (lookup child t.watches)) [
  | inl n ↦ rw (n, exec) tt
  | inr (w, h) ↦ rw (h, exec) (move-Safe m child t w h v a)
]
exec-Safe (hooks k x y) t a v =
    set_proc-Inv t k _ v (ground (arith, v.shape k, v.quiet k, v.idle k))
exec-Safe (calls_close k) t a v = call-Safe k t a v
exec-Safe (drains k) t a v = on_proc-Safe _ k t (drain-Becomes _ (v.shape k)) v
exec-Safe (finishes k) t a v = on_proc-Safe _ k t (finish_close-Becomes _ (v.shape k) (v.quiet k)) v
exec-Safe (calls_autoclose k) t a v = unfold autoclose in with_goroutines t _ _ _ v
exec-Safe (autocloses k) t a v = fire_autoclose-Safe k t a v
exec-Safe (resumes k) t (m, z) v = resume_autoclose-Safe k t m z v
