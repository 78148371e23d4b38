-- ===== src/Process/Tree/Order.antt =====
-- The numbers of the processes of process/process.go follow the tree: a child's is larger than its
-- parent's.
use go_cedar.Base.{
  ℕ, ◌≡◌, refl, ◌≢◌, inl, inr, List, ◌∷◌, lookup, Outcome, ok, arith, Option-cases, Bool-cases,
  take_out, subst, sym,
}
use go_cedar.Process.{
  Process, nil, is_started, on_context_init, next_process_label, call_close, drain, finish_close,
  is_zero,
}
use go_cedar.Process.Tree.{
  Tree, admitted, set_proc, init_child, admit, on_proc, autoclose, fire_autoclose, Event, starts,
  admits, moves, hooks, calls_close, drains, finishes, calls_autoclose, autocloses, resumes,
  resume_autoclose, exec, empty_tree,
}
use go_cedar.Process.Tree.Invariant.{IsConsistent, Inv}
use go_cedar.Process.Tree.Closing.{Allowed}
use go_cedar.Process.Tree.Moves.{on_proc_made}
use go_cedar.Process.Tree.Done.{Reach, Reach-Inv}
use go_cedar.Process.Tree.Ranks.{
  IsRanked, Renews, set_proc-IsRanked, set_watch-IsRanked, call_close-Renews, move-IsRanked,
  init_child-IsRanked, with_goroutines-IsRanked,
}

-- No process is started as its own child.
abbrev pub NotOwnParent : Event → Type 0
NotOwnParent (admits parent child label) = parent ≢ child
NotOwnParent (starts child label) = Unit
NotOwnParent (moves m child) = Unit
NotOwnParent (hooks k a b) = Unit
NotOwnParent (calls_close k) = Unit
NotOwnParent (drains k) = Unit
NotOwnParent (finishes k) = Unit
NotOwnParent (calls_autoclose k) = Unit
NotOwnParent (autocloses k) = Unit
NotOwnParent (resumes k) = Unit

admit-IsRanked :
    (parent child : ℕ) (label : List ℕ) (t : Tree)
    → (t.procs child).ch_closing ≡ nil
    → parent ≢ child
    → Inv t
    → IsRanked t
    → IsRanked (admit parent child label t)
unfolding admit
admit-IsRanked parent child label t n ne i v =
    let t' = init_child child label t in
    let v' = init_child-IsRanked child label t n i v in
    elim (Bool-cases (is_started (t'.procs parent).state)) [
      | inr e ↦ rw (e, admit) v'
      | inl e ↦
          rw (e, admit)
            (set_watch-IsRanked t' child (record { parent = parent; phase = admitted }) v'
              (unfold init_child on_context_init next_process_label in
                ground (arith, v.numbered parent))
              (λ z. unfold init_child in ground (arith, e, i.shape parent)) (λ z. cc))
    ]

on_proc-IsRanked :
    (f : Process → Outcome Process) (k : ℕ) (t t' : Tree)
    → ((p : Process) → f (t.procs k) ≡ ok p → Renews (t.procs k) p)
    → IsRanked t
    → on_proc f k t ≡ ok t'
    → IsRanked t'
on_proc-IsRanked f k t t' r v h =
    let (p, e, g) = on_proc_made f k t t' h in subst IsRanked g (set_proc-IsRanked t k p v (r p e))

call-IsRanked :
    (k : ℕ) (t t' : Tree)
    → IsConsistent (t.procs k)
    → IsRanked t
    → on_proc (λ p. call_close p.close_once p) k t ≡ ok t'
    → IsRanked t'
call-IsRanked k t t' s v h =
    on_proc-IsRanked (λ p. call_close p.close_once p) k t t'
      (λ p e. call_close-Renews (t.procs k) p s e) v h

exec-IsRanked :
    (e : Event) (t t' : Tree)
    → Allowed e t
    → NotOwnParent e
    → Inv t
    → IsRanked t
    → exec e t ≡ ok t'
    → IsRanked t'
unfolding exec
exec-IsRanked (starts child label) t t' a n i v h =
    let g : init_child child label t ≡ t' = ground (arith, h) in
    subst IsRanked g (init_child-IsRanked child label t a i v)
exec-IsRanked (admits parent child label) t t' a n i v h =
    let g : admit parent child label t ≡ t' = ground (arith, h) in
    subst IsRanked g (admit-IsRanked parent child label t a n i v)
exec-IsRanked (moves m child) t t' a n i v h = elim (Option-cases (lookup child t.watches)) [
  | inl x ↦ absurd (ground (arith, x))
  | inr (w, x) ↦ move-IsRanked m child w t t' i v x (ground (arith, x))
]
exec-IsRanked (hooks k b d) t t' a n i v h =
    let p = record (t.procs k) { on_closing = b; on_closed = d } in
    let g : set_proc k p t ≡ t' = ground (arith, h) in
    subst IsRanked g
      (set_proc-IsRanked t k p v (record { same = refl; still_made = λ m. m; still_shut = λ s. s }))
exec-IsRanked (calls_close k) t t' a n i v h = call-IsRanked k t t' (i.shape k) v h
exec-IsRanked (drains k) t t' a n i v h =
    on_proc-IsRanked (λ p. drain p.close_once p) k t t'
      (λ p e.
        unfold drain in
        record {
          same = ground arith;
          still_made = λ m z. ground arith;
          still_shut = λ m. ground arith;
        })
      v h
exec-IsRanked (finishes k) t t' a n i v h =
    on_proc-IsRanked (λ p. finish_close p.close_once p) k t t'
      (λ p e.
        unfold finish_close in
        record {
          same = ground arith;
          still_made = λ m z. ground arith;
          still_shut = λ m. ground arith;
        })
      v h
exec-IsRanked (calls_autoclose k) t t' a n i v h =
    let g : autoclose k t ≡ t' = ground (arith, h) in
    subst IsRanked g (unfold autoclose in with_goroutines-IsRanked t _ _ _ v)
exec-IsRanked (autocloses k) t t' a n i v h =
    unfold fire_autoclose in
    elim (Option-cases (take_out k t.autoclosing)) [
      | inl x ↦ absurd (ground (arith, x))
      | inr (rest, x) ↦ elim (Bool-cases (is_zero (t.procs k).running)) [
        | inl z ↦
            call-IsRanked k (record t { autoclosing = rest }) t' (i.shape k)
              (with_goroutines-IsRanked t rest t.asleep t.released v) (ground (arith, x, z))
        | inr z ↦
            let g : record t { autoclosing = rest; asleep = k ∷ t.asleep } ≡ t' =
              ground (arith, x, z, h) in
            subst IsRanked g (with_goroutines-IsRanked t rest (k ∷ t.asleep) t.released v)
      ]
    ]
exec-IsRanked (resumes k) t t' (m, z) n i v h =
    unfold resume_autoclose in
    elim (Option-cases (take_out k t.released)) [
      | inl x ↦ absurd (ground (arith, x))
      | inr (rest, x) ↦
          call-IsRanked k (record t { released = rest }) t' (i.shape k)
            (with_goroutines-IsRanked t t.autoclosing t.asleep rest v) (ground (arith, x, z))
    ]

-- The moments that processes come to when no process is started as its own child.
pub data OrderlyReach : Tree → Type 0 where
  begins : (t : Tree) → t ≡ empty_tree → OrderlyReach t
  goes_on :
      (t : Tree) (e : Event) (t' : Tree)
      → OrderlyReach t
      → Allowed e t
      → NotOwnParent e
      → exec e t ≡ ok t'
      → OrderlyReach t'

pub OrderlyReach-Reach : {t : Tree} → OrderlyReach t → Reach t
OrderlyReach-Reach (begins t e) = Reach.begin t e
OrderlyReach-Reach (goes_on t e t' r a n h) = Reach.next t e t' (OrderlyReach-Reach r) a h

empty_tree-IsRanked : IsRanked empty_tree
unfolding lookup
empty_tree-IsRanked = record {
  numbered = λ k. omega arith;
  below = λ c w h. cc;
  parent_made = λ c w h. cc;
  distinct = λ c. omega arith;
  seen = λ c w h. cc;
}

pub OrderlyReach-IsRanked : {t : Tree} → OrderlyReach t → IsRanked t
OrderlyReach-IsRanked (begins t e) = subst IsRanked (sym e) empty_tree-IsRanked
OrderlyReach-IsRanked (goes_on t e t' r a n h) =
    exec-IsRanked e t t' a n (Reach-Inv (OrderlyReach-Reach r)) (OrderlyReach-IsRanked r) h
