-- ===== src/Pool/Pending.antt =====
-- `NumItemsPending` of process/pool.go: how each method changes the number.
use go_cedar.Base.{
  ℕ, suc, ◌+◌, ◌≡◌, inl, inr, List, [], ◌∷◌, Bool, true, false, Option, none, some, ◌||◌,
  if◌then◌else◌, lookup, insert, Option-cases, ok, arith,
}
use go_cedar.Pool.Semaphore.{Setting}
use go_cedar.Pool.Ops.{
  Pool, PoolItem, ItemState, available, done, in_retry_pool, is_available, is_in_retry_pool,
  count_pending, num_items_pending, add, announce, retry_later, complete,
}
use go_cedar.Pool.Effects.{as_unit}

abbrev pub is_pending : ItemState → Bool
is_pending state = is_available state || is_in_retry_pool state

abbrev pub pending : {Item : Type 0} → Option (PoolItem Item) → ℕ
pending none = 0
pending (some entry) = as_unit (is_pending entry.state)

abbrev pub known : {Item : Type 0} → Option (PoolItem Item) → Bool
known none = false
known (some entry) = true

module _ (env : Setting) where
  open env use {Sem, Item, item_id, release}

  count_pending-insert :
      (id : ℕ) (e : PoolItem Item) (m : List (ℕ × PoolItem Item))
      → count_pending env (insert id e m) + pending (lookup id m)
        ≡ count_pending env m + pending (some e)
  unfolding count_pending lookup insert
  count_pending-insert id e [] = omega arith
  count_pending-insert id e ((k, f) ∷ m) = ground (arith, count_pending-insert id e m)

  -- The number grows by one when an unknown item is added, and a known one changes nothing.
  pub pending-add :
      (item : Item) (p : Pool Sem Item)
      → num_items_pending env (add env item p) ≡ (
          if known (lookup (item_id item) p.pool_items)
          then num_items_pending env p
          else suc (num_items_pending env p))
  unfolding num_items_pending add announce
  pending-add item p = elim (Option-cases (lookup (item_id item) p.pool_items)) [
    | inl n ↦ ground (
      arith,
      n,
      count_pending-insert (item_id item)
          (record { item = item; state = available; retry_when = 0 }) p.pool_items,
    )
    | inr (e, s) ↦ ground (arith, s)
  ]

  -- An available item that is completed leaves the count; one that is put back for a retry stays in it.
  pub pending_give_back :
      (id retry_when : ℕ) (p q r : Pool Sem Item) (e : PoolItem Item)
      → lookup id p.pool_items ≡ some e
      → e.state ≡ available
      → complete env id p ≡ ok q
      → retry_later env id retry_when p ≡ ok r
      → (num_items_pending env p ≡ suc (num_items_pending env q))
        × (num_items_pending env r ≡ num_items_pending env p)
  unfolding num_items_pending complete retry_later
  pending_give_back id t p q r e s a hq hr = ground (
    arith,
    s,
    count_pending-insert id (record e { state = done; retry_when = 0 }) p.pool_items,
    count_pending-insert id (record e { state = in_retry_pool; retry_when = t }) p.pool_items,
  )
