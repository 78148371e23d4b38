-- ===== src/Process/Functions.antt =====
-- `Process.Go` of process/process.go: functions that run in child processes, over the processes of
-- Process/Tree. A function is named by its child.
pub mod Ends
use go_cedar.Base.{
  ℕ, List, [], ◌∷◌, none, some, lookup, take_out, Outcome, ok, blocked, ◌>>=◌, or_block,
}
use go_cedar.Process.Tree.{Tree, Phase, admitted, Event, calls_close, exec, empty_tree}

-- `functions`: those that have begun and not returned. `closers`: the children whose function has
-- returned and whose `Close` its goroutine has yet to call.
pub record Program : Type 0 where
  pub tree : Tree
  pub functions : List ℕ
  pub closers : List ℕ

-- `acts` is a step of the tree, the `StartChild` of `Go` included.
pub data Action : Type 0 where
  acts : Event → Action
  begins_function ends_function closes_child : ℕ → Action

-- `StartChild` has returned no error, and the goroutine of `Go` starts.
unfoldable pub begin_function : Phase → ℕ → Program → Outcome Program
begin_function admitted child g = blocked
begin_function other child g = ok (record g { functions = child ∷ g.functions })

-- `fn(child)` returns.
unfoldable pub end_function : ℕ → Program → Outcome Program
end_function child g = or_block (take_out child g.functions) >>= λ rest.
    ok (record g { functions = rest; closers = child ∷ g.closers })

-- `child.Close()`
unfoldable pub close_child : ℕ → Program → Outcome Program
close_child child g = or_block (take_out child g.closers) >>= λ rest.
    exec (calls_close child) g.tree >>= λ t. ok (record g { tree = t; closers = rest })

unfoldable pub act : Action → Program → Outcome Program
act (acts e) g = exec e g.tree >>= λ t. ok (record g { tree = t })
act (begins_function child) g =
    or_block (lookup child g.tree.watches) >>= λ w. begin_function w.phase child g
act (ends_function child) g = end_function child g
act (closes_child child) g = close_child child g

unfoldable pub act_all : List Action → Program → Outcome Program
act_all [] g = ok g
act_all (a ∷ more) g = act a g >>= act_all more

abbrev pub no_program : Program
no_program = record { tree = empty_tree; functions = []; closers = [] }
