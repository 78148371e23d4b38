-- ===== src/Process/Tree/Measure.antt =====
-- How far `Close` and the monitors of process/process.go are from their ends.
use go_cedar.Base.{
  ℕ, ◌+◌, ◌≤◌, ◌<◌, ◌≡◌, ◌≢◌, inl, inr, List, [], ◌∷◌, some, ◌==◌, lookup, insert, count, arith,
  Bool-cases,
}
use go_cedar.Process.{Process, nil, CloseOnce, fresh, waiting, drained, finished}
use go_cedar.Process.Tree.{
  Tree, Watch, Phase, admitted, watching, closing_child, awaiting, removing, gone, set_proc,
  set_watch,
}

-- How many steps `Close` and a monitor have at most before them.
abbrev pub close_rank : CloseOnce → ℕ
close_rank fresh = 3
close_rank waiting = 2
close_rank drained = 1
close_rank finished = 0

abbrev pub phase_rank : Phase → ℕ
phase_rank admitted = 5
phase_rank watching = 4
phase_rank closing_child = 3
phase_rank awaiting = 2
phase_rank removing = 1
phase_rank gone = 0

abbrev pub close_sum : List ℕ → (ℕ → Process) → ℕ
close_sum [] f = 0
close_sum (k ∷ ks) f = close_rank (f k).close_once + close_sum ks f

abbrev pub phase_sum : List (ℕ × Watch) → ℕ
phase_sum [] = 0
phase_sum ((c, w) ∷ m) = phase_rank w.phase + phase_sum m

abbrev pub steps_left : List ℕ → Tree → ℕ
steps_left ks t = close_sum ks t.procs + phase_sum t.watches

-- The list has the address of every process that has been initialised.
abbrev pub Covers : List ℕ → Tree → Type 0
Covers ks t = (k : ℕ) → (t.procs k).ch_closing ≢ nil → 0 < count k ks

pub phase_sum-insert :
    (c : ℕ) (w x : Watch) (m : List (ℕ × Watch))
    → lookup c m ≡ some x
    → phase_sum (insert c w m) + phase_rank x.phase ≡ phase_sum m + phase_rank w.phase
unfolding lookup insert
phase_sum-insert c w x [] h = cc
phase_sum-insert c w x ((d, y) ∷ m) h = elim (Bool-cases (d == c)) [
  | inl e ↦ let g : y ≡ x = ground (arith, e) in rw (e, g) (omega arith)
  | inr e ↦ ground (arith, e, phase_sum-insert c w x m)
]

-- A new value that is not further from its end.
pub close_sum-set-le :
    (ks : List ℕ) (k : ℕ) (p : Process) (t : Tree)
    → close_rank p.close_once ≤ close_rank (t.procs k).close_once
    → close_sum ks (set_proc k p t).procs ≤ close_sum ks t.procs
close_sum-set-le [] k p t h = omega arith
close_sum-set-le (j ∷ ks) k p t h = ground (arith, close_sum-set-le ks k p t h)

pub close_sum-set :
    (ks : List ℕ) (k : ℕ) (p : Process) (t : Tree)
    → close_rank p.close_once < close_rank (t.procs k).close_once
    → 0 < count k ks
    → close_sum ks (set_proc k p t).procs < close_sum ks t.procs
close_sum-set [] k p t h c = absurd (omega arith)
close_sum-set (j ∷ ks) k p t h c =
    ground (arith, close_sum-set-le ks k p t (omega arith), close_sum-set ks k p t h)

-- A monitor goes on.
pub watch_decreases :
    (ks : List ℕ) (t : Tree) (c : ℕ) (w w' : Watch)
    → lookup c t.watches ≡ some w
    → phase_rank w'.phase < phase_rank w.phase
    → steps_left ks (set_watch c w' t) < steps_left ks t
watch_decreases ks t c w w' h l = omega (arith, phase_sum-insert c w' w t.watches h)

-- A monitor goes on and sets a process that keeps its place in `Close`.
pub shift_decreases :
    (ks : List ℕ) (t : Tree) (c k : ℕ) (w w' : Watch) (p : Process)
    → lookup c t.watches ≡ some w
    → phase_rank w'.phase < phase_rank w.phase
    → p.close_once ≡ (t.procs k).close_once
    → steps_left ks (set_watch c w' (set_proc k p t)) < steps_left ks t
shift_decreases ks t c k w w' p h l e =
    omega
      (arith, phase_sum-insert c w' w t.watches h, close_sum-set-le ks k p t (ground (arith, e)))

-- A process goes on in `Close`.
pub proc_decreases :
    (ks : List ℕ) (t : Tree) (k : ℕ) (p : Process)
    → close_rank p.close_once < close_rank (t.procs k).close_once
    → 0 < count k ks
    → steps_left ks (set_proc k p t) < steps_left ks t
proc_decreases ks t k p l c = omega (arith, close_sum-set ks k p t l c)
