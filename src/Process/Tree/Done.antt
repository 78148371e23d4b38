-- ===== src/Process/Tree/Done.antt =====
-- What `Done` promises in process/process.go, in every history that its callers are allowed.
use go_cedar.Base.{ℕ, ◌≡◌, refl, ◌≢◌, some, lookup, ok, arith, sym, subst}
use go_cedar.Process.{shut}
use go_cedar.Process.Tree.{Tree, Watch, admitted, Event, exec, empty_tree}
use go_cedar.Process.Tree.Invariant.{Inv, live_count, weight-le}
use go_cedar.Process.Tree.Closing.{Safe, Allowed}
use go_cedar.Process.Tree.Steps.{exec-Safe}

-- The moments that the processes can come to.
pub data Reach : Tree → Type 0 where
  begin : (t : Tree) → t ≡ empty_tree → Reach t
  next : (t : Tree) (e : Event) (t' : Tree) → Reach t → Allowed e t → exec e t ≡ ok t' → Reach t'

empty_tree-Inv : Inv empty_tree
unfolding lookup live_count
empty_tree-Inv = record {
  shape = λ k. refl;
  counted = λ k. refl;
  quiet = λ k h. refl;
  idle = λ k h. refl;
  ended = λ c w h. cc;
  made = λ c w h. cc;
}

pub Reach-Inv : {t : Tree} → Reach t → Inv t
Reach-Inv (begin t e) = subst Inv (sym e) empty_tree-Inv
Reach-Inv (next t e t' r a h) = subst Safe h (exec-Safe e t a (Reach-Inv r))

-- When a process is done, so is every child whose monitor was started.
pub done_after_child :
    (t : Tree) (child : ℕ) (w : Watch)
    → Reach t
    → lookup child t.watches ≡ some w
    → w.phase ≢ admitted
    → (t.procs w.parent).ch_closed ≡ shut
    → (t.procs child).ch_closed ≡ shut
done_after_child t child w r h n d =
    let v = Reach-Inv r in
    ground (
      arith,
      h,
      v.shape w.parent,
      v.quiet w.parent,
      v.counted w.parent,
      weight-le w.parent child t.watches,
      v.ended child w h,
    )

-- The child of a child, and so on.
pub data Descendant (t : Tree) (k : ℕ) : ℕ → Type 0 where
  self : Descendant t k k
  child_of :
      (m c : ℕ) (w : Watch)
      → Descendant t k m
      → lookup c t.watches ≡ some w
      → w.parent ≡ m
      → w.phase ≢ admitted
      → Descendant t k c

-- In every state that is reached by steps that `Allowed` admits, where in particular no parent closes
-- while `StartChild` is between its check and `running.Add`: when a process is done, all its
-- descendants whose monitors were started are done.
pub done_after_descendants :
    {t : Tree} {k c : ℕ}
    → Reach t
    → (t.procs k).ch_closed ≡ shut
    → Descendant t k c
    → (t.procs c).ch_closed ≡ shut
done_after_descendants r d self = d
done_after_descendants {t} r d (child_of m c w below h p n) =
    done_after_child t c w r h n
      (subst (λ j. (t.procs j).ch_closed ≡ shut) (sym p) (done_after_descendants r d below))

-- While a process is done, nothing of its own is left in its wait group.
pub done_idle :
    (t : Tree) (k : ℕ) → Reach t → (t.procs k).ch_closed ≡ shut → (t.procs k).running ≡ 0
done_idle t k r d = let v = Reach-Inv r in ground (arith, v.shape k, v.quiet k)
