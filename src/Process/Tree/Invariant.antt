-- ===== src/Process/Tree/Invariant.antt =====
-- What holds of the processes of process/process.go and their monitors at every moment.
use go_cedar.Base.{
  ℕ, ◌+◌, ◌≤◌, ◌≡◌, ◌≢◌, List, [], ◌∷◌, Bool, true, false, ◌&&◌, Option, none, some, ◌==◌,
  if◌then◌else◌, lookup, insert, lookup-insert, arith,
}
use go_cedar.Process.{
  Process, State, unstarted, started, closing, closed, Chan, nil, live, shut, CloseOnce, fresh,
  waiting, drained, finished,
}
use go_cedar.Process.Tree.{
  Tree, Watch, Phase, watching, closing_child, awaiting, removing, gone, set_proc, set_watch,
}

-- The four fields that `Close` moves together.
abbrev pub consistent : CloseOnce → State → Chan → Chan → Bool
consistent fresh unstarted nil nil = true
consistent fresh started live live = true
consistent waiting closing shut live = true
consistent drained closed shut live = true
consistent finished closed shut shut = true
consistent _ _ _ _ = false

abbrev pub IsConsistent : Process → Type 0
IsConsistent p = consistent p.close_once p.state p.ch_closing p.ch_closed ≡ true

-- `running.Wait()` has returned.
abbrev pub past_wait : CloseOnce → Bool
past_wait drained = true
past_wait finished = true
past_wait _ = false

-- The monitor is counted in the parent's wait group.
abbrev pub is_live : Phase → Bool
is_live watching = true
is_live closing_child = true
is_live awaiting = true
is_live _ = false

abbrev pub has_ended : Phase → Bool
has_ended removing = true
has_ended gone = true
has_ended _ = false

abbrev pub weight : ℕ → Option Watch → ℕ
weight k none = 0
weight k (some w) = if w.parent == k && is_live w.phase then 1 else 0

-- How many live monitors a parent has.
unfoldable pub live_count : ℕ → List (ℕ × Watch) → ℕ
live_count k [] = 0
live_count k ((c, w) ∷ m) = weight k (some w) + live_count k m

pub live_count-insert :
    (k c : ℕ) (w : Watch) (m : List (ℕ × Watch))
    → live_count k (insert c w m) + weight k (lookup c m) ≡ live_count k m + weight k (some w)
unfolding live_count lookup insert
live_count-insert k c w [] = omega arith
live_count-insert k c w ((d, x) ∷ m) = ground (arith, live_count-insert k c w m)

pub weight-le : (k c : ℕ) (m : List (ℕ × Watch)) → weight k (lookup c m) ≤ live_count k m
unfolding live_count lookup
weight-le k c [] = omega arith
weight-le k c ((d, x) ∷ m) = ground (arith, weight-le k c m)

pub record Inv (t : Tree) : Type 0 where
  pub shape : (k : ℕ) → IsConsistent (t.procs k)
  pub counted : (k : ℕ) → (t.procs k).running ≡ live_count k t.watches
  pub quiet : (k : ℕ) → past_wait (t.procs k).close_once ≡ true → (t.procs k).running ≡ 0
  pub idle : (k : ℕ) → (t.procs k).ch_closing ≡ nil → (t.procs k).running ≡ 0
  pub ended :
      (c : ℕ) (w : Watch)
      → lookup c t.watches ≡ some w
      → has_ended w.phase ≡ true
      → (t.procs c).ch_closed ≡ shut
  pub made : (c : ℕ) (w : Watch) → lookup c t.watches ≡ some w → (t.procs c).ch_closing ≢ nil

-- A new value for a process that keeps its count and undoes no close.
pub record Fits (p p' : Process) : Type 0 where
  pub shape : IsConsistent p'
  pub running_kept : p'.running ≡ p.running
  pub quiet : past_wait p'.close_once ≡ true → p'.running ≡ 0
  pub idle : p'.ch_closing ≡ nil → p'.running ≡ 0
  pub still_closed : p.ch_closed ≡ shut → p'.ch_closed ≡ shut
  pub still_made : p.ch_closing ≢ nil → p'.ch_closing ≢ nil

pub set_proc-Inv :
    (t : Tree) (k : ℕ) (p : Process) → Inv t → Fits (t.procs k) p → Inv (set_proc k p t)
set_proc-Inv t k p v f = record {
  shape = λ j. ground (arith, v.shape j, f.shape);
  counted = λ j. ground (arith, v.counted j, f.running_kept);
  quiet = λ j. ground (arith, v.quiet j, f.quiet);
  idle = λ j. ground (arith, v.idle j, f.idle);
  ended = λ c w h e. ground (arith, v.ended c w h e, f.still_closed);
  made = λ c w h e. ground (arith, v.made c w h, f.still_made);
}

-- A new entry for a child that counts as much as the old one.
pub set_watch-Inv :
    (t : Tree) (c : ℕ) (w : Watch)
    → Inv t
    → ((k : ℕ) → weight k (some w) ≡ weight k (lookup c t.watches))
    → (has_ended w.phase ≡ true → (t.procs c).ch_closed ≡ shut)
    → (t.procs c).ch_closing ≢ nil
    → Inv (set_watch c w t)
set_watch-Inv t c w v same done init = record {
  shape = v.shape;
  counted = λ k. omega (arith, v.counted k, live_count-insert k c w t.watches, same k);
  quiet = v.quiet;
  idle = v.idle;
  ended = λ d x h e. ground (arith, lookup-insert c d w t.watches, v.ended d x, done);
  made = λ d x h e. ground (arith, lookup-insert c d w t.watches, v.made d x, init);
}

-- A step of a child's monitor that changes the parent's count as it changes its own weight.
pub shift-Inv :
    (t : Tree) (c : ℕ) (w w' : Watch) (p : Process)
    → Inv t
    → lookup c t.watches ≡ some w
    → w'.parent ≡ w.parent
    → Fits (record (t.procs w.parent) { running = p.running }) p
    → p.running + weight w.parent (some w) ≡ (t.procs w.parent).running + weight w.parent (some w')
    → (has_ended w'.phase ≡ true → (t.procs c).ch_closed ≡ shut)
    → Inv (set_watch c w' (set_proc w.parent p t))
shift-Inv t c w w' p v h same f count done = record {
  shape = λ k. ground (arith, v.shape k, f.shape);
  counted = λ k. ground (arith, h, v.counted k, live_count-insert k c w' t.watches);
  quiet = λ k. ground (arith, v.quiet k, f.quiet);
  idle = λ k. ground (arith, v.idle k, f.idle);
  ended = λ d x e z.
      ground (arith, h, lookup-insert c d w' t.watches, v.ended d x, done, f.still_closed);
  made = λ d x e z.
      ground (arith, h, lookup-insert c d w' t.watches, v.made d x, v.made c w h, f.still_made);
}
