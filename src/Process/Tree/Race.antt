-- ===== src/Process/Tree/Race.antt =====
-- `StartChild` of process/process.go without its callers' care: what goes wrong when a parent closes
-- between the check of its state and `running.Add`, or is not started at all.
use go_cedar.Base.{
  ℕ, ◌≡◌, ◌≢◌, List, [], ◌∷◌, none, some, lookup, Outcome, ok, blocked, panic, ◌>>=◌, arith,
}
use go_cedar.Process.{
  started, live, shut, fresh, on_context_init, call_close, drain, finish_close, begin_close,
}
use go_cedar.Process.Tree.{
  Tree, Watch, admitted, Event, moves, attaches, attach, move, calls_close, drains, finishes,
  admits, admit, init_child, exec, on_proc,
}

unfoldable pub run : List Event → Tree → Outcome Tree
run [] t = ok t
run (e ∷ es) t = exec e t >>= λ t'. run es t'

-- What a history comes to has the property.
abbrev pub Yields : (Tree → Type 0) → Outcome Tree → Type 0
Yields P (ok t) = P t
Yields P blocked = ⊥
Yields P panic = ⊥

module _ (t : Tree) (k c : ℕ) (w : Watch) where
  -- A started parent without children that closes after `StartChild` has checked its state is done
  -- while the child that is then attached to it is not, and the wait group counts that child.
  pub attach_after_done :
      lookup c t.watches ≡ some w
      → w.phase ≡ admitted
      → w.parent ≡ k
      → k ≢ c
      → (t.procs k).close_once ≡ fresh
      → (t.procs k).ch_closing ≡ live
      → (t.procs k).ch_closed ≡ live
      → (t.procs k).running ≡ 0
      → (t.procs c).ch_closed ≡ live
      → Yields
          (λ t'.
            ((t'.procs k).ch_closed ≡ shut)
            × ((t'.procs c).ch_closed ≡ live)
            × ((t'.procs k).running ≡ 1))
          (run (calls_close k ∷ drains k ∷ finishes k ∷ moves attaches c ∷ []) t)
  unfolding run exec on_proc call_close begin_close drain finish_close move attach
  attach_after_done h ph pk ne once a b r d = ground arith

-- `StartChild` of a parent that is not started initialises the child and leaves it open: it is
-- started, not closing, and belongs to no parent.
pub refused_child_open :
    (parent child : ℕ) (label : List ℕ) (t : Tree)
    → (t.procs parent).state ≢ started
    → parent ≢ child
    → lookup child t.watches ≡ none
    → Yields
        (λ t'.
          ((t'.procs child).state ≡ started)
          × ((t'.procs child).ch_closing ≡ live)
          × (lookup child t'.watches ≡ none))
        (exec (admits parent child label) t)
unfolding exec admit init_child on_context_init
refused_child_open parent child label t n ne h = ground arith
