-- ===== src/Process/Tree/Closing.antt =====
-- The steps of `Close` and of the first half of `StartChild` in process/process.go keep the invariant.
use go_cedar.Base.{
  ℕ, ◌≡◌, ◌≢◌, inl, inr, List, true, none, some, lookup, Outcome, ok, blocked, panic, arith, ap,
  ◌∙◌, Option-cases, Bool-cases, Outcome-cases,
}
use go_cedar.Process.{
  Process, started, nil, live, is_started, on_context_init, begin_close, call_close, drain,
  finish_close,
}
use go_cedar.Process.Tree.{
  Tree, Watch, admitted, init_child, admit, on_proc, attaches, Event, starts, admits, moves, hooks,
  calls_close, drains, finishes, calls_autoclose, autocloses, resumes,
}
use go_cedar.Process.Tree.Invariant.{
  IsConsistent, past_wait, Inv, Fits, set_proc-Inv, set_watch-Inv,
}

-- No panic, and the invariant if the step is made.
abbrev pub Safe : Outcome Tree → Type 0
Safe (ok t) = Inv t
Safe blocked = Unit
Safe panic = ⊥

-- What is required of the callers: a process is initialised once, only a process that has been
-- initialised is closed, and no parent is closed between `StartChild`'s check of its state and the
-- call of `running.Add`. A goroutine of `Autoclose` that has been woken resumes before the counter is
-- raised again.
abbrev pub Allowed : Event → Tree → Type 0
Allowed (starts child label) t = (t.procs child).ch_closing ≡ nil
Allowed (admits parent child label) t = (t.procs child).ch_closing ≡ nil
Allowed (moves attaches child) t =
    (w : Watch) → lookup child t.watches ≡ some w → (t.procs w.parent).state ≡ started
Allowed (moves m child) t = Unit
Allowed (hooks k a b) t = Unit
Allowed (calls_close k) t = (t.procs k).ch_closing ≢ nil
Allowed (drains k) t = Unit
Allowed (finishes k) t = Unit
Allowed (calls_autoclose k) t = Unit
Allowed (autocloses k) t = (t.procs k).ch_closing ≢ nil
Allowed (resumes k) t = ((t.procs k).ch_closing ≢ nil) × ((t.procs k).running ≡ 0)

-- The same of one process.
abbrev pub Becomes : Process → Outcome Process → Type 0
Becomes p r = (r ≢ panic) × ((p' : Process) → r ≡ ok p' → Fits p p')

module _ (p : Process) (s : IsConsistent p) where
  pub call_close-Becomes :
      p.ch_closing ≢ nil
      → (past_wait p.close_once ≡ true → p.running ≡ 0)
      → Becomes p (call_close p.close_once p)
  unfolding call_close begin_close
  call_close-Becomes m q = (λ e. ground arith, λ p' e. ground arith)

  pub drain-Becomes : Becomes p (drain p.close_once p)
  unfolding drain
  drain-Becomes = (λ e. ground arith, λ p' e. ground arith)

  pub finish_close-Becomes :
      (past_wait p.close_once ≡ true → p.running ≡ 0) → Becomes p (finish_close p.close_once p)
  unfolding finish_close
  finish_close-Becomes q = (λ e. ground arith, λ p' e. ground arith)

pub on_proc-Safe :
    (f : Process → Outcome Process) (k : ℕ) (t : Tree)
    → Becomes (t.procs k) (f (t.procs k))
    → Inv t
    → Safe (on_proc f k t)
unfolding on_proc
on_proc-Safe f k t b v = elim (Outcome-cases (f (t.procs k))) [
  | inl e ↦ absurd (b.0 e)
  | inr (inl e) ↦ rw (e, on_proc) tt
  | inr (inr (p, e)) ↦ rw (e, on_proc) (set_proc-Inv t k p v (b.1 p e))
]

pub init_child-Inv :
    (child : ℕ) (label : List ℕ) (t : Tree)
    → (t.procs child).ch_closing ≡ nil
    → Inv t
    → Inv (init_child child label t)
unfolding init_child on_context_init
init_child-Inv child label t n v =
    let w =
      set_proc-Inv t child (on_context_init label t.spawn_counter) v
        (ground (arith, v.shape child, v.idle child)) in
    record {
      shape = w.shape;
      counted = w.counted;
      quiet = w.quiet;
      idle = w.idle;
      ended = w.ended;
      made = w.made;
    }

init_child_lem :
    (child : ℕ) (label : List ℕ) (t : Tree)
    → ((init_child child label t).watches ≡ t.watches)
      × (((init_child child label t).procs child).ch_closing ≡ live)
unfolding init_child on_context_init
init_child_lem child label t = ground arith

unwatched :
    (t : Tree) (child : ℕ)
    → Inv t
    → (t.procs child).ch_closing ≡ nil
    → lookup child t.watches ≡ none
unwatched t child v n = elim (Option-cases (lookup child t.watches)) [
  | inl e ↦ e
  | inr (w, e) ↦ absurd (v.made child w e n)
]

pub admit-Inv :
    (parent child : ℕ) (label : List ℕ) (t : Tree)
    → (t.procs child).ch_closing ≡ nil
    → Inv t
    → Inv (admit parent child label t)
unfolding admit
admit-Inv parent child label t n v =
    let t' = init_child child label t in
    let v' = init_child-Inv child label t n v in
    let fresh_child : lookup child t'.watches ≡ none =
      ap (lookup child) (init_child_lem child label t).0 ∙ unwatched t child v n in
    elim (Bool-cases (is_started (t'.procs parent).state)) [
      | inr e ↦ rw (e, admit) v'
      | inl e ↦
          rw (e, admit)
            (set_watch-Inv t' child (record { parent = parent; phase = admitted }) v'
              (λ k. ground (arith, fresh_child)) (λ z. cc)
              (λ z. cc (init_child_lem child label t).1))
    ]
