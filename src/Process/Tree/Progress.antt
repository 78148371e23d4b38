-- ===== src/Process/Tree/Progress.antt =====
-- A `Close` of process/process.go that is under way is never stuck.
use go_cedar.Base.{
  ℕ, zero, suc, ◌+◌, ◌≤◌, ◌<◌, ◌≡◌, refl, ◌≢◌, ◌⊎◌, inl, inr, List, [], ◌∷◌, Bool, true, false,
  ◌&&◌, some, ◌==◌, lookup, ok, blocked, panic, arith, Bool-cases, Outcome-cases,
}
use go_cedar.Process.{
  nil, shut, is_zero, call_close, begin_close, drain, finish_close, CloseOnce, fresh, waiting,
  drained, finished,
}
use go_cedar.Process.Tree.{
  Tree, Watch, Phase, admitted, watching, closing_child, awaiting, removing, gone, see_parent,
  close_child, see_done, on_proc, sees_parent, sees_child, closes_child, sees_done, removes, move,
  attaches, Event, starts, admits, moves, hooks, calls_close, drains, finishes, calls_autoclose,
  autocloses, resumes, exec,
}
use go_cedar.Process.Tree.Invariant.{IsConsistent, Inv, is_live, live_count}
use go_cedar.Process.Tree.Ranks.{key_count, IsRanked}
use go_cedar.Process.Tree.Order.{OrderlyReach, OrderlyReach-Reach, OrderlyReach-IsRanked}
use go_cedar.Process.Tree.Done.{Reach-Inv}

-- The steps that goroutines make of themselves: the rest of a `Close` that is under way, and those of
-- the children's monitors once they run.
abbrev pub IsInternal : Event → Type 0
IsInternal (drains k) = Unit
IsInternal (finishes k) = Unit
IsInternal (moves attaches c) = ⊥
IsInternal (moves sees_parent c) = Unit
IsInternal (moves sees_child c) = Unit
IsInternal (moves closes_child c) = Unit
IsInternal (moves sees_done c) = Unit
IsInternal (moves removes c) = Unit
IsInternal (starts child label) = ⊥
IsInternal (admits parent child label) = ⊥
IsInternal (hooks k a b) = ⊥
IsInternal (calls_close k) = ⊥
IsInternal (calls_autoclose k) = ⊥
IsInternal (autocloses k) = ⊥
IsInternal (resumes k) = ⊥

-- Some such step can be made.
abbrev pub GoesOn : Tree → Type 0
GoesOn t = (e : Event) × (t' : Tree) × IsInternal e × (exec e t ≡ ok t')

-- `Close` has been called and has not returned.
abbrev pub is_closing : CloseOnce → Bool
is_closing waiting = true
is_closing drained = true
is_closing fresh = false
is_closing finished = false

key_count-lookup :
    {V : Type 0} (c : ℕ) (v : V) (m : List (ℕ × V)) → lookup c m ≡ some v → 0 < key_count c m
unfolding lookup
key_count-lookup c v [] h = cc
key_count-lookup c v ((d, x) ∷ m) h = ground (arith, key_count-lookup c v m)

-- A positive count has a live monitor behind it.
some_live :
    (k : ℕ) (m : List (ℕ × Watch))
    → ((c : ℕ) → key_count c m ≤ 1)
    → 0 < live_count k m
    → (c : ℕ) × (w : Watch) × (lookup c m ≡ some w) × (w.parent ≡ k) × (is_live w.phase ≡ true)
unfolding live_count lookup
some_live k [] u h = absurd (omega arith)
some_live k ((d, x) ∷ m) u h = elim (Bool-cases (x.parent == k && is_live x.phase)) [
  | inl e ↦ (d, x, ground arith, ground (arith, e), ground (arith, e))
  | inr e ↦
      let (c, w, f, g, l) = some_live k m (λ c. ground (arith, u c)) (ground (arith, e)) in
      (c, w, ground (arith, f, u c, key_count-lookup c w m f), g, l)
]

module _ (t : Tree) where
  made : (e : Event) → IsInternal e → exec e t ≢ blocked → exec e t ≢ panic → GoesOn t
  made e i nb np = elim (Outcome-cases (exec e t)) [
    | inl h ↦ absurd (np h)
    | inr (inl h) ↦ absurd (nb h)
    | inr (inr (t', h)) ↦ (e, t', i, h)
  ]

  finishes_drained :
      (k : ℕ) → IsConsistent (t.procs k) → (t.procs k).close_once ≡ drained → GoesOn t
  finishes_drained k s d =
      made (finishes k) tt (unfold exec on_proc finish_close in λ h. ground arith)
        (unfold exec on_proc finish_close in λ h. ground arith)

  drains_idle : (k : ℕ) → (t.procs k).close_once ≡ waiting → (t.procs k).running ≡ 0 → GoesOn t
  drains_idle k d z =
      made (drains k) tt (unfold exec on_proc drain in λ h. ground arith)
        (unfold exec on_proc drain in λ h. ground arith)

  module _ (c : ℕ) (w : Watch) (f : lookup c t.watches ≡ some w) where
    goes_to_parent : w.phase ≡ watching → (t.procs w.parent).ch_closing ≡ shut → GoesOn t
    goes_to_parent p s =
        made (moves sees_parent c) tt (unfold exec move see_parent in λ h. ground (arith, f))
          (unfold exec move see_parent in λ h. ground (arith, f))

    goes_to_closing :
        IsConsistent (t.procs c)
        → w.phase ≡ closing_child
        → is_closing (t.procs c).close_once ≡ false
        → (t.procs c).ch_closing ≢ nil
        → GoesOn t
    goes_to_closing s p n m =
        made (moves closes_child c) tt
          (unfold exec move close_child call_close begin_close in λ h. ground (arith, f))
          (unfold exec move close_child call_close begin_close in λ h. ground (arith, f))

    goes_to_removing :
        w.phase ≡ awaiting
        → (t.procs c).ch_closed ≡ shut
        → 0 < (t.procs w.parent).running
        → GoesOn t
    goes_to_removing p s r =
        made (moves sees_done c) tt (unfold exec move see_done in λ h. ground (arith, f))
          (unfold exec move see_done in λ h. ground (arith, f))

closing_cases : (o : CloseOnce) → is_closing o ≡ true → (o ≡ waiting) ⊎ (o ≡ drained)
closing_cases waiting h = inl refl
closing_cases drained h = inr refl
closing_cases fresh h = cc
closing_cases finished h = cc

module _ (t : Tree) (v : Inv t) (r : IsRanked t) where
  -- A live monitor goes on, or its child is in `Close` and goes on.
  child_GoesOn :
      (ph : Phase) (c : ℕ) (w : Watch)
      → lookup c t.watches ≡ some w
      → w.phase ≡ ph
      → is_live ph ≡ true
      → (t.procs w.parent).ch_closing ≡ shut
      → 0 < (t.procs w.parent).running
      → (is_closing (t.procs c).close_once ≡ true → GoesOn t)
      → GoesOn t
  child_GoesOn watching c w f p l s b below = goes_to_parent t c w f p s
  child_GoesOn closing_child c w f p l s b below =
      elim (Bool-cases (is_closing (t.procs c).close_once)) [
        | inl q ↦ below q
        | inr q ↦ goes_to_closing t c w f (v.shape c) p q (v.made c w f)
      ]
  child_GoesOn awaiting c w f p l s b below =
      elim (Bool-cases (is_closing (t.procs c).close_once)) [
        | inl q ↦ below q
        | inr q ↦ goes_to_removing t c w f p (ground (arith, v.shape c, r.seen c w f p)) b
      ]
  child_GoesOn admitted c w f p l s b below = cc
  child_GoesOn removing c w f p l s b below = cc
  child_GoesOn gone c w f p l s b below = cc

  -- Down from a process in `Close`, some process or monitor goes on. The fuel bounds how many
  -- numbers are above the process's own.
  descends :
      (n k : ℕ)
      → t.spawn_counter < n + (t.procs k).id
      → is_closing (t.procs k).close_once ≡ true
      → GoesOn t
  descends zero k h d = absurd (omega (arith, r.numbered k))
  descends (suc n) k h d = elim (Bool-cases (is_zero (t.procs k).running)) [
    | inl z ↦ elim (closing_cases (t.procs k).close_once d) [
      | inl o ↦ drains_idle t k o (ground arith)
      | inr o ↦ finishes_drained t k (v.shape k) o
    ]
    | inr z ↦
        let (c, w, f, p, l) = some_live k t.watches r.distinct (ground (arith, v.counted k)) in
        let s : (t.procs w.parent).ch_closing ≡ shut = ground (arith, v.shape k, p) in
        let busy : 0 < (t.procs w.parent).running = ground (arith, p) in
        child_GoesOn w.phase c w f refl l s busy (descends n c (ground (arith, r.below c w f, p)))
  ]

-- In every state that is reached by steps that `Allowed` admits, with no process started as its own
-- child: while some call of `Close` is under way, some goroutine can make a step of itself, with no
-- call of a client. No `Close` is deadlocked.
pub closing-GoesOn :
    (t : Tree) (k : ℕ) → OrderlyReach t → is_closing (t.procs k).close_once ≡ true → GoesOn t
closing-GoesOn t k o d =
    descends t (Reach-Inv (OrderlyReach-Reach o)) (OrderlyReach-IsRanked o) (suc t.spawn_counter) k
      (omega arith) d
