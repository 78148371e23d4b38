-- ===== src/Workers/Retries.antt =====
-- With the static scheduler of process/pool_worker.go an item that is given back for a retry stays where it
-- is until its time is over.
use go_cedar.Base.{ℕ, ◌+◌, ◌≤◌, ◌≡◌, some, lookup, ok, arith}
use go_cedar.Pool.Semaphore.{Setting}
use go_cedar.Pool.Ops.{Pool, PoolItem, retry_item}
use go_cedar.Workers.Scheduler.{StaticScheduler, retry_when_of}

module _ (env : Setting) where
  open env use {Sem, Item}

  -- A tick up to then changes nothing.
  pub retry_item_early :
      (s : StaticScheduler) (given now id : ℕ) (p : Pool Sem Item) (entry : PoolItem Item)
      → lookup id p.pool_items ≡ some entry
      → entry.retry_when ≡ retry_when_of s given
      → now ≤ given + s.retry_after
      → retry_item env now id p ≡ ok p
  unfolding retry_item retry_when_of
  retry_item_early s given now id p entry h w l = ground (arith, h, w, l)
