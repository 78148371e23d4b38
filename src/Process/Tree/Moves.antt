-- ===== src/Process/Tree/Moves.antt =====
-- What a step of a monitor of process/process.go that can be made finds and leaves.
use go_cedar.Base.{
  ℕ, ◌+◌, ◌-◌, ◌≡◌, [], ◌∷◌, ◌++◌, ok, arith, if◌then◌else◌, Outcome, Outcome-cases, inl, inr,
}
use go_cedar.Process.{Process, shut, call_close, remove_sub}
use go_cedar.Process.Tree.{
  Tree, Watch, admitted, watching, closing_child, awaiting, removing, gone, set_proc, set_watch,
  attach, see_parent, see_child, is_finished, close_child, see_done, remove, on_proc, wake_waiters,
}

module _ (c : ℕ) (w : Watch) (t t' : Tree) where
  pub attach_made :
      attach c w t ≡ ok t'
      → let p = t.procs w.parent in
        (w.phase ≡ admitted)
        × (set_watch c
              (record w { phase = watching })
              (set_proc w.parent (record p { subs = p.subs ++ c ∷ []; running = p.running + 1 }) t)
            ≡ t')
  unfolding attach
  attach_made h = ground arith

  pub see_parent_made :
      see_parent c w t ≡ ok t'
      → (w.phase ≡ watching)
        × ((t.procs w.parent).ch_closing ≡ shut)
        × (set_watch c (record w { phase = closing_child }) t ≡ t')
  unfolding see_parent
  see_parent_made h = ground arith

  pub see_child_made :
      see_child c w t ≡ ok t'
      → (w.phase ≡ watching)
        × ((t.procs c).ch_closing ≡ shut)
        × (set_watch c (record w { phase = awaiting }) t ≡ t')
  unfolding see_child
  see_child_made h = ground arith

  pub see_done_made :
      see_done c w t ≡ ok t'
      → let p = t.procs w.parent in
        (w.phase ≡ awaiting)
        × ((t.procs c).ch_closed ≡ shut)
        × (set_watch c
              (record w { phase = removing })
              (set_proc w.parent
                (record p { running = p.running - 1 })
                (wake_waiters w.parent (p.running - 1) t))
            ≡ t')
  unfolding see_done
  see_done_made h = ground arith

  pub remove_made :
      remove c w t ≡ ok t'
      → let p = t.procs w.parent in
        (w.phase ≡ removing)
        × (set_watch c
              (record w { phase = gone })
              (set_proc w.parent (record p { subs = remove_sub c p.subs }) t)
            ≡ t')
  unfolding remove
  remove_made h = ground arith

  pub close_child_made :
      close_child c w t ≡ ok t'
      → (p : Process) × (w.phase ≡ closing_child)
        × (call_close (t.procs c).close_once (t.procs c) ≡ ok p)
        × (set_watch c
              (record w { phase = if is_finished p.close_once then awaiting else closing_child })
              (set_proc c p t)
            ≡ t')
  unfolding close_child
  close_child_made h = elim (Outcome-cases (call_close (t.procs c).close_once (t.procs c))) [
    | inl e ↦ absurd (ground (arith, e))
    | inr (inl e) ↦ absurd (ground (arith, e))
    | inr (inr (p, e)) ↦ (p, ground (arith, e), e, ground (arith, e))
  ]

pub on_proc_made :
    (f : Process → Outcome Process) (k : ℕ) (t t' : Tree)
    → on_proc f k t ≡ ok t'
    → (p : Process) × (f (t.procs k) ≡ ok p) × (set_proc k p t ≡ t')
unfolding on_proc
on_proc_made f k t t' h = elim (Outcome-cases (f (t.procs k))) [
  | inl e ↦ absurd (ground (arith, e))
  | inr (inl e) ↦ absurd (ground (arith, e))
  | inr (inr (p, e)) ↦ (p, e, ground (arith, e))
]
