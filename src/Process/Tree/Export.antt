-- ===== src/Process/Tree/Export.antt =====
-- `ExportContextTree` of process/process.go: a process with its children, by their labels.
use go_cedar.Base.{
  ℕ, zero, suc, ◌<◌, ◌≡◌, refl, ◌≢◌, ◌⊎◌, inl, inr, List, [], ◌∷◌, Option, none, some, ok, length,
  count, if◌then◌else◌, arith, ap, ◌∙◌, sym, same_text, same_text_refl, same_text_sound, Bool-cases,
}
use go_cedar.Process.{State, unstarted, started, closing, closed}
use go_cedar.Process.Tree.{Tree, Event, empty_tree}
use go_cedar.Process.Tree.Names.{label_own}
use go_cedar.Process.Tree.Race.{run}

-- `State.String`
unfoldable pub string : State → List ℕ
string unstarted = b'u' ∷ b'n' ∷ b's' ∷ b't' ∷ b'a' ∷ b'r' ∷ b't' ∷ b'e' ∷ b'd' ∷ []
string started = b's' ∷ b't' ∷ b'a' ∷ b'r' ∷ b't' ∷ b'e' ∷ b'd' ∷ []
string closing = b'c' ∷ b'l' ∷ b'o' ∷ b's' ∷ b'i' ∷ b'n' ∷ b'g' ∷ []
string closed = b'c' ∷ b'l' ∷ b'o' ∷ b's' ∷ b'e' ∷ b'd' ∷ []

-- `treeNode`: its id, its status and its children, a map with labels as keys. The map without entries
-- is not stored.
mutual
  pub data TreeNode : Type 0 where
    tree_node : ℕ → List ℕ → Children → TreeNode

  pub data Children : Type 0 where
    no_child : Children
    child_then : List ℕ → TreeNode → Children → Children

abbrev pub children_of : TreeNode → Children
children_of (tree_node id status children) = children

abbrev pub child_at : List ℕ → Children → Option TreeNode
child_at label no_child = none
child_at label (child_then key node rest) =
    if same_text key label then some node else child_at label rest

-- `children[label] = node`
abbrev pub assign_child : List ℕ → TreeNode → Children → Children
assign_child label node no_child = child_then label node no_child
assign_child label node (child_then key old rest) =
    if same_text key label
    then child_then key node rest
    else child_then key old (assign_child label node rest)

-- The loop over `p.subs`.
unfoldable pub export_children : (ℕ → TreeNode) → Tree → List ℕ → Children → Children
export_children export t [] children = children
export_children export t (c ∷ subs) children =
    export_children export t subs (assign_child (t.procs c).label (export c) children)

-- The processes down to a depth under the given one; below it a process is taken to have no children.
-- The mutex `subsMu` is left out: where a process is its own descendant, the source takes it twice and
-- waits for ever.
unfoldable pub export_context_tree : ℕ → Tree → ℕ → TreeNode
export_context_tree zero t k = tree_node (t.procs k).id (string (t.procs k).state) no_child
export_context_tree (suc depth) t k =
    tree_node (t.procs k).id (string (t.procs k).state)
      (export_children (export_context_tree depth t) t (t.procs k).subs no_child)

unfoldable pub child_count : ℕ → Tree → ℕ
child_count k t = length (t.procs k).subs

child_at-assign_child :
    (j k : List ℕ) (node : TreeNode) (children : Children)
    → child_at k (assign_child j node children)
      ≡ (if same_text j k then some node else child_at k children)
child_at-assign_child j k node no_child = refl
child_at-assign_child j k node (child_then i old rest) = elim (Bool-cases (same_text i j)) [
  | inl e ↦ ground (arith, e, ap (λ s. same_text s k) (same_text_sound i j e))
  | inr e ↦ elim (Bool-cases (same_text i k)) [
    | inl p ↦ elim (Bool-cases (same_text j k)) [
      | inl q ↦ absurd (
          ground (
            arith,
            e,
            same_text_refl i,
            ap (λ s. same_text i s) (same_text_sound i k p ∙ sym (same_text_sound j k q)),
          ))
      | inr q ↦ ground (arith, e, p, q)
    ]
    | inr p ↦ ground (arith, e, p, child_at-assign_child j k node rest)
  ]
]

-- No other child takes the place of one with a label of its own.
child_at-export_children :
    (export : ℕ → TreeNode) (t : Tree) (c : ℕ) (subs : List ℕ) (children : Children)
    → ((j : ℕ) → (t.procs j).label ≡ (t.procs c).label → j ≡ c)
    → (0 < count c subs) ⊎ (child_at (t.procs c).label children ≡ some (export c))
    → child_at (t.procs c).label (export_children export t subs children) ≡ some (export c)
unfolding export_children
child_at-export_children export t c [] children own (inl h) = absurd (omega arith)
child_at-export_children export t c [] children own (inr h) = h
child_at-export_children export t c (d ∷ subs) children own h =
    let label = (t.procs c).label in
    let a = child_at-assign_child (t.procs d).label label (export d) children in
    child_at-export_children export t c subs (assign_child (t.procs d).label (export d) children)
      own
      (elim (Bool-cases (same_text (t.procs d).label label)) [
        | inl e ↦
            let s = own d (same_text_sound (t.procs d).label label e) in
            inr (ground (arith, a, e, ap export s))
        | inr e ↦ ground (arith, a, e, h, same_text_refl label)
      ])

-- After any steps, whatever the callers do, the export of a process, to whatever depth, has each of
-- its children that has been initialised under the child's label, with the child's own export; no
-- child is lost to another one.
pub child_exported :
    (es : List Event) (t : Tree) (depth k c : ℕ)
    → run es empty_tree ≡ ok t
    → 0 < count c (t.procs k).subs
    → (t.procs c).id ≢ 0
    → child_at (t.procs c).label (children_of (export_context_tree (suc depth) t k))
      ≡ some (export_context_tree depth t c)
unfolding export_context_tree
child_exported es t depth k c h i n =
    child_at-export_children (export_context_tree depth t) t c (t.procs k).subs no_child
      (λ j l. label_own es t j c h n l) (inl i)
