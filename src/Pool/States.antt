-- ===== src/Pool/States.antt =====
-- The states of the items of process/pool.go: what a tick of `handleItemsAwaitingRetry` changes.
use go_cedar.Base.{
  ℕ, ◌≡◌, refl, inl, inr, List, [], ◌∷◌, Bool, true, false, Option, none, some, ltb, Option-cases,
  ◌&&◌, ◌||◌, if◌then◌else◌, lookup, insert, lookup-insert, ok, arith, ◌==◌, ◌∙◌, ap,
}
use go_cedar.Pool.Semaphore.{Setting}
use go_cedar.Pool.Ops.{
  Pool, PoolItem, available, is_in_retry_pool, announce, revive, retry_item, retry_items,
}
use go_cedar.Pool.Effects.{set_state_lem, retry_item-Succeeds}

abbrev pub is_among : ℕ → List ℕ → Bool
is_among id [] = false
is_among id (x ∷ xs) = x == id || is_among id xs

-- Whether a tick at time `now` revives an item, and what it makes of its entry.
abbrev pub is_due : {Item : Type 0} → ℕ → PoolItem Item → Bool
is_due now e = is_in_retry_pool e.state && ltb e.retry_when now

abbrev pub ticked : {Item : Type 0} → ℕ → PoolItem Item → PoolItem Item
ticked now e = if is_due now e then record e { state = available; retry_when = 0 } else e

-- The entry after a tick that visits the key or not.
abbrev pub visited : {Item : Type 0} → ℕ → Bool → Option (PoolItem Item) → Option (PoolItem Item)
visited now false o = o
visited now true none = none
visited now true (some e) = some (ticked now e)

visited-visited :
    {Item : Type 0} (now : ℕ) (a b : Bool) (o : Option (PoolItem Item))
    → visited now b (visited now a o) ≡ visited now (a || b) o
visited-visited now false b o = refl
visited-visited now true false o = refl
visited-visited now true true none = refl
visited-visited now true true (some e) = ground arith

module _ (env : Setting) where
  open env use {Sem, Item}

  revive_lem :
      (id : ℕ) (p : Pool Sem Item) (e : PoolItem Item)
      → lookup id p.pool_items ≡ some e
      → revive env id p
        ≡ ok (
            announce env id (record p {
              pool_items = insert id (record e { state = available; retry_when = 0 }) p.pool_items;
            }))
  unfolding revive
  revive_lem id p e h = rw (set_state_lem env id available 0 p e h)

  lookup-retry_item :
      (now id j : ℕ) (p q : Pool Sem Item)
      → retry_item env now id p ≡ ok q
      → lookup j q.pool_items ≡ visited now (id == j) (lookup j p.pool_items)
  unfolding retry_item announce
  lookup-retry_item now id j p q h = elim (Option-cases (lookup id p.pool_items)) [
    | inl n ↦ ground (arith, n)
    | inr (e, s) ↦ ground (
      arith,
      s,
      revive_lem id p e s,
      lookup-insert id j (record e { state = available; retry_when = 0 }) p.pool_items,
    )
  ]

  -- A tick at `now`, over the keys in any order, succeeds; it revives exactly the visited items that
  -- wait for a retry whose time has passed, and leaves every other entry as it was.
  pub lookup-retry_items :
      (now : ℕ) (order : List ℕ) (p : Pool Sem Item)
      → (q : Pool Sem Item) × (retry_items env now order p ≡ ok q)
        × ((j : ℕ) → lookup j q.pool_items ≡ visited now (is_among j order) (lookup j p.pool_items))
  unfolding retry_items
  lookup-retry_items now [] p = (p, refl, λ j. refl)
  lookup-retry_items now (id ∷ order) p =
      let (q, e, _) = retry_item-Succeeds env now id p in
      let (r, f, g) = lookup-retry_items now order q in
      (
        r,
        rw e f,
        λ j.
            g j
            ∙ ap (visited now (is_among j order)) (lookup-retry_item now id j p q e)
            ∙ visited-visited now (id == j) (is_among j order) (lookup j p.pool_items),
      )
