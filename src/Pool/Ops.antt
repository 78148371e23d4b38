-- ===== src/Pool/Ops.antt =====
-- The methods of `Pool` in process/pool.go that run under its mutex, as functions on its fields.
-- An identifier is a number, a time is a number of nanoseconds, and `time.Time{}` is 0.
use go_cedar.Base.{
  ℕ, ◌+◌, List, [], ◌∷◌, Bool, true, false, ◌&&◌, ◌||◌, none, some, ltb, if◌then◌else◌, lookup,
  insert, Outcome, ok, panic, ◌>>=◌, or_panic,
}
use go_cedar.Mailbox.{Mailbox, new_mailbox, deliver}
use go_cedar.Pool.Semaphore.{Setting}

pub data ItemState : Type 0 where
  available in_use done in_retry_pool : ItemState

abbrev pub is_available : ItemState → Bool
is_available available = true
is_available _ = false

abbrev pub is_in_retry_pool : ItemState → Bool
is_in_retry_pool in_retry_pool = true
is_in_retry_pool _ = false

pub record PoolItem (Item : Type 0) : Type 0 where
  pub item : Item
  pub state : ItemState
  pub retry_when : ℕ

-- The channel `chItems` has no buffer, so it holds nothing between two steps.
pub record Pool (Sem : Type 0) (Item : Type 0) : Type 0 where
  pub items_available : Mailbox ℕ
  pub sem : Sem
  pub retry_interval : ℕ
  pub pool_items : List (ℕ × PoolItem Item)

module _ (env : Setting) where
  open env use {Sem, Item, item_id, new_weighted, acquire, release}

  unfoldable pub new_pool : ℕ → ℕ → Pool Sem Item
  new_pool concurrency retry_interval = record {
    items_available = new_mailbox 1000;
    sem = new_weighted concurrency;
    retry_interval = retry_interval;
    pool_items = [];
  }

  -- `NumItemsPending`, over the entries of the map.
  unfoldable pub count_pending : List (ℕ × PoolItem Item) → ℕ
  count_pending [] = 0
  count_pending ((id, entry) ∷ entries) =
      (if is_available entry.state || is_in_retry_pool entry.state then 1 else 0)
      + count_pending entries

  unfoldable pub num_items_pending : Pool Sem Item → ℕ
  num_items_pending p = count_pending p.pool_items

  -- `itemsAvailable.Deliver(id)`
  unfoldable pub announce : ℕ → Pool Sem Item → Pool Sem Item
  announce id p = record p { items_available = deliver id p.items_available }

  unfoldable pub add : Item → Pool Sem Item → Pool Sem Item
  unfolding announce
  add item p =
      let id = item_id item in
      elim (lookup id p.pool_items) [
        | some _ ↦ p
        | none ↦ announce id (record p {
          pool_items =
              insert id (record { item = item; state = available; retry_when = 0 }) p.pool_items;
        })
      ]

  unfoldable pub set_state : ℕ → ItemState → ℕ → Pool Sem Item → Outcome (Pool Sem Item)
  set_state id state retry_when p = do
    entry ← or_panic (lookup id p.pool_items)
    ok (record p {
      pool_items = insert id (record entry { state = state; retry_when = retry_when }) p.pool_items;
    })

  -- `sem.Release(1)`
  unfoldable pub release_unit : Pool Sem Item → Outcome (Pool Sem Item)
  release_unit p = do s ← or_panic (release p.sem); ok (record p { sem = s })

  unfoldable pub retry_later : ℕ → ℕ → Pool Sem Item → Outcome (Pool Sem Item)
  unfolding set_state release_unit
  retry_later id retry_when p = do q ← set_state id in_retry_pool retry_when p; release_unit q

  unfoldable pub complete : ℕ → Pool Sem Item → Outcome (Pool Sem Item)
  unfolding set_state release_unit
  complete id p = do q ← set_state id done 0 p; release_unit q

  -- Makes an item available again, and announces it.
  unfoldable pub revive : ℕ → Pool Sem Item → Outcome (Pool Sem Item)
  unfolding set_state announce
  revive id p = do q ← set_state id available 0 p; ok (announce id q)

  unfoldable pub force_retry : ℕ → Pool Sem Item → Outcome (Pool Sem Item)
  force_retry id p = do
    entry ← or_panic (lookup id p.pool_items)
    if is_in_retry_pool entry.state then revive id p else ok p

  -- One round of the loop of `handleItemsAwaitingRetry`.
  unfoldable pub retry_item : ℕ → ℕ → Pool Sem Item → Outcome (Pool Sem Item)
  retry_item now id p = elim (lookup id p.pool_items) [
    | none ↦ ok p
    | some entry ↦
        if is_in_retry_pool entry.state && ltb entry.retry_when now then revive id p else ok p
  ]

  -- The loop over the map. Go chooses the order of the keys.
  unfoldable pub retry_items : ℕ → List ℕ → Pool Sem Item → Outcome (Pool Sem Item)
  retry_items now [] p = ok p
  retry_items now (id ∷ order) p = retry_item now id p >>= λ q. retry_items now order q

  -- The look-up at the end of `Get`.
  unfoldable pub get_entry : ℕ → Pool Sem Item → Outcome Item
  get_entry id p = do
    entry ← or_panic (lookup id p.pool_items)
    if is_available entry.state then ok entry.item else panic

  -- The look-up of `deliverAvailableItems`: whether the identifier is offered on `chItems`.
  unfoldable pub is_offered : ℕ → Pool Sem Item → Outcome Bool
  is_offered id p = elim (lookup id p.pool_items) [
    | none ↦ ok false
    | some entry ↦ if is_available entry.state then ok true else panic
  ]
