-- ===== src/Process/Subs.antt =====
-- The children that a process of process/process.go lists.
use go_cedar.Base.{ℕ, ◌≤◌, ◌≡◌, refl, List, [], ◌∷◌, arith, ◌==◌, if◌then◌else◌, count}
use go_cedar.Process.{remove_sub}

-- The list without a child.
abbrev pub without : ℕ → List ℕ → List ℕ
without child [] = []
without child (x ∷ xs) = let rest = without child xs in if x == child then rest else x ∷ rest

without_absent : (child : ℕ) (xs : List ℕ) → count child xs ≡ 0 → without child xs ≡ xs
without_absent child [] h = refl
without_absent child (x ∷ xs) h = ground (arith, without_absent child xs)

remove_absent : (child : ℕ) (xs : List ℕ) → count child xs ≡ 0 → remove_sub child xs ≡ xs
unfolding remove_sub
remove_absent child [] h = refl
remove_absent child (x ∷ []) h = ground arith
remove_absent child (x ∷ y ∷ xs) h = ground (arith, remove_absent child (y ∷ xs))

-- The loop that skips an index after each removal takes out exactly the child that is listed once,
-- and keeps the others in their order.
pub remove_sub-eq-without :
    (child : ℕ) (subs : List ℕ) → count child subs ≤ 1 → remove_sub child subs ≡ without child subs
unfolding remove_sub
remove_sub-eq-without child [] h = refl
remove_sub-eq-without child (x ∷ []) h = ground arith
remove_sub-eq-without child (x ∷ y ∷ rest) h = ground (
  arith,
  remove_sub-eq-without child (y ∷ rest),
  remove_absent child rest,
  without_absent child rest,
)
