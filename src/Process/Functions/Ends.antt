-- ===== src/Process/Functions/Ends.antt =====
-- What becomes of the functions of `Process.Go` of process/process.go, and of their processes.
use go_cedar.Base.{
  ℕ, ◌<◌, ◌≡◌, refl, ◌≢◌, inl, inr, List, [], ◌∷◌, some, take_out, count, ok, ◌>>=◌, arith, ap, ◌∙◌,
  Outcome-cases, Bool-cases, Bool, true, false, ◌==◌,
}
use go_cedar.Process.{
  shut, nil, fresh, CloseOnce, waiting, drained, finished, call_close, begin_close,
}
use go_cedar.Process.Tree.{Tree, Event, calls_close, exec, set_proc, on_proc}
use go_cedar.Process.Tree.Order.{OrderlyReach, OrderlyReach-Reach, goes_on}
use go_cedar.Process.Tree.Done.{Reach-Inv}
use go_cedar.Process.Tree.Measure.{Covers}
use go_cedar.Process.Tree.Completion.{AreInternal}
use go_cedar.Process.Tree.Progress.{IsInternal}
use go_cedar.Process.Tree.Returns.{close_returns}
use go_cedar.Process.Tree.Race.{run}
use go_cedar.Process.Functions.{
  Program, Action, acts, begins_function, ends_function, closes_child, end_function, close_child,
  act, act_all,
}

-- Steps of the tree alone.
abbrev pub all_acts : List Event → List Action
all_acts [] = []
all_acts (e ∷ es) = acts e ∷ all_acts es

act_all-all_acts :
    (es : List Event) (g : Program) (t : Tree)
    → run es g.tree ≡ ok t
    → act_all (all_acts es) g ≡ ok (record g { tree = t })
unfolding act_all act run
act_all-all_acts [] g t h = ground arith
act_all-all_acts (e ∷ es) g t h = elim (Outcome-cases (exec e g.tree)) [
  | inl x ↦ absurd (ground (arith, x))
  | inr (inl x) ↦ absurd (ground (arith, x))
  | inr (inr (u, x)) ↦
      ap (λ o. (o >>= λ t. ok (record g { tree = t })) >>= act_all (all_acts es)) x
      ∙ act_all-all_acts es (record g { tree = u }) t ground (arith, x)
]

-- In every program whose processes are reached by steps that `Allowed` admits, with no process started
-- as its own child, and with a list that has the address of every initialised process: when `Close` of
-- a process has been called, steps that goroutines make of themselves bring it to where the process is
-- done, while not one of the functions that run, in that process or under it, has returned.
pub done_before_functions :
    (ks : List ℕ) (g : Program) (k : ℕ)
    → OrderlyReach g.tree
    → Covers ks g.tree
    → (g.tree.procs k).close_once ≢ fresh
    → (es : List Event) × (h : Program) × AreInternal es
      × (act_all (all_acts es) g ≡ ok h)
      × ((h.tree.procs k).ch_closed ≡ shut)
      × (h.functions ≡ g.functions)
done_before_functions ks g k r c f =
    let (es, t, i, x, o, d) = close_returns ks g.tree k r c f in
    (es, record g { tree = t }, i, act_all-all_acts es g t x, d, refl)

take_out-some :
    (c : ℕ) (xs : List ℕ) → 0 < count c xs → (rest : List ℕ) × (take_out c xs ≡ some rest)
unfolding take_out
take_out-some c [] h = absurd (omega arith)
take_out-some c (x ∷ xs) h = elim (Bool-cases (x == c)) [
  | inl y ↦ (xs, ground (arith, y))
  | inr n ↦
      let (rest, e) = take_out-some c xs (ground (arith, n, h)) in (x ∷ rest, ground (arith, n, e))
]

-- The first call of `Close` of a process that has been initialised.
pub first_close :
    (ks : List ℕ) (t : Tree) (c : ℕ)
    → OrderlyReach t
    → Covers ks t
    → (t.procs c).ch_closing ≢ nil
    → (t.procs c).close_once ≡ fresh
    → (u : Tree) × (exec (calls_close c) t ≡ ok u)
      × OrderlyReach u
      × Covers ks u
      × ((u.procs c).close_once ≢ fresh)
unfolding exec on_proc
first_close ks t c r v m f =
    let i = Reach-Inv (OrderlyReach-Reach r) in
    elim (Outcome-cases (call_close (t.procs c).close_once (t.procs c))) [
      | inl x ↦ absurd (unfold call_close begin_close in ground (arith, x, f, m, i.shape c))
      | inr (inl x) ↦ absurd (unfold call_close begin_close in ground (arith, x, f))
      | inr (inr (p, x)) ↦
          let g : exec (calls_close c) t ≡ ok (set_proc c p t) = ground (arith, x) in
          (
            set_proc c p t,
            g,
            goes_on t (calls_close c) (set_proc c p t) r m tt g,
            (λ j h. ground (arith, v j, v c m, h)),
            (λ h. unfold call_close begin_close in ground (arith, x, f, h)),
          )
    ]

-- What goroutines do of themselves once a function has returned.
abbrev pub IsOwn : Action → Type 0
IsOwn (acts e) = IsInternal e
IsOwn (closes_child c) = Unit
IsOwn (begins_function c) = ⊥
IsOwn (ends_function c) = ⊥

abbrev pub AreOwn : List Action → Type 0
AreOwn [] = Unit
AreOwn (a ∷ more) = IsOwn a × AreOwn more

all_acts-AreOwn : (es : List Event) → AreInternal es → AreOwn (all_acts es)
all_acts-AreOwn [] i = tt
all_acts-AreOwn (e ∷ es) (i, is) = (i, all_acts-AreOwn es is)

-- `child.Close()` of a function that has returned, when it is the first call.
closes_first :
    (c : ℕ) (g : Program) (u : Tree) (closers : List ℕ)
    → g.closers ≡ c ∷ closers
    → exec (calls_close c) g.tree ≡ ok u
    → act (closes_child c) g ≡ ok (record g { tree = u; closers = closers })
unfolding act close_child take_out
closes_first c g u closers e x = ground (arith, e, x)

-- When the function of a child that has been initialised runs, and the processes are reached as above
-- with a list that has the address of every initialised process: the function can return, and then
-- steps that goroutines make of themselves, the call of `Close` of the child among them if none has
-- been made, bring the child to where it is done; the other functions are as before.
pub function_ends :
    (ks : List ℕ) (g : Program) (c : ℕ)
    → OrderlyReach g.tree
    → Covers ks g.tree
    → (g.tree.procs c).ch_closing ≢ nil
    → 0 < count c g.functions
    → (more : List Action) × (h : Program) × AreOwn more
      × (act_all (ends_function c ∷ more) g ≡ ok h)
      × ((h.tree.procs c).ch_closed ≡ shut)
      × (take_out c g.functions ≡ some h.functions)
unfolding act_all
function_ends ks g c r v m n =
    let (rest, o) = take_out-some c g.functions n in
    let g1 : Program = record g { functions = rest; closers = c ∷ g.closers } in
    let e1 : act (ends_function c) g ≡ ok g1 = unfold act end_function in ground (arith, o) in
    elim (Bool-cases (is_fresh (g.tree.procs c).close_once)) [
      | inl f ↦
          let (u, x, r', v', called) = first_close ks g.tree c r v m (ground (arith, f)) in
          let g2 : Program = record g1 { tree = u; closers = g.closers } in
          let (es, t, i, y, o', d) = close_returns ks u c r' v' called in
          (
            closes_child c ∷ all_acts es,
            record g2 { tree = t },
            (tt, all_acts-AreOwn es i),
            ap (λ p. p >>= act_all (closes_child c ∷ all_acts es)) e1
                ∙ ap (λ p. p >>= act_all (all_acts es)) (closes_first c g1 u g.closers refl x)
                ∙ act_all-all_acts es g2 t y,
            d,
            o,
          )
      | inr f ↦
          let (es, t, i, y, o', d) = close_returns ks g.tree c r v (λ z. ground (arith, f, z)) in
          (
            all_acts es,
            record g1 { tree = t },
            all_acts-AreOwn es i,
            ap (λ p. p >>= act_all (all_acts es)) e1 ∙ act_all-all_acts es g1 t y,
            d,
            o,
          )
    ]
  where
    is_fresh : CloseOnce → Bool
    is_fresh fresh = true
    is_fresh waiting = false
    is_fresh drained = false
    is_fresh finished = false
