-- ===== src/Process/NameTests.antt =====
-- Labels and exports of a process of process/process.go and its child.
use go_cedar.Base.{◌≤◌, ◌≡◌, refl, ◌≢◌, List, [], ◌∷◌, some, Outcome, ok, arith, lookup, insert}
use go_cedar.Process.{on_context_init, next_process_label, decimal}
use go_cedar.Process.Labels.{number_in}
use go_cedar.Process.Tree.{
  Tree, Event, starts, admits, moves, attaches, exec, empty_tree, init_child, admit, move, attach,
}
use go_cedar.Process.Tree.Race.{run}
use go_cedar.Process.Tree.Names.{names_unique}
use go_cedar.Process.Tree.Export.{children_of, child_at, export_context_tree, child_exported}

-- A process "p" and its child "c".
abbrev history : List Event
history = starts 0 (b'p' ∷ []) ∷ admits 0 1 (b'c' ∷ []) ∷ moves attaches 1 ∷ []

abbrev rest : Outcome Tree → Tree
rest (ok t) = t
rest other = empty_tree

abbrev family : Tree
family = rest (run history empty_tree)

history_runs : run history empty_tree ≡ ok family
unfolding run exec init_child admit move attach on_context_init next_process_label lookup insert
history_runs = refl

child_label : (family.procs 1).label ≡ b'c' ∷ b' ' ∷ b'#' ∷ b'2' ∷ []
unfolding run exec init_child admit move attach on_context_init next_process_label lookup insert
    decimal
child_label = refl

names_unique_example :
    ((family.procs 0).id ≢ (family.procs 1).id)
    × ((family.procs 0).label ≢ (family.procs 1).label)
    × (number_in (family.procs 1).label 0 ≡ (family.procs 1).id)
    × ((family.procs 1).id ≤ family.spawn_counter)
unfolding run exec init_child admit move attach on_context_init next_process_label lookup insert
names_unique_example = names_unique history family 0 1 history_runs (omega arith) (omega arith)

child_exported_example :
    child_at (family.procs 1).label (children_of (export_context_tree 3 family 0))
    ≡ some (export_context_tree 2 family 1)
unfolding run exec init_child admit move attach on_context_init next_process_label lookup insert
child_exported_example =
    child_exported history family 2 0 1 history_runs (omega arith) (omega arith)
