-- ===== src/Pool/Room.antt =====
-- What the methods of process/pool.go keep while the mailbox has room: each available item stays on
-- its way or with a client.
use go_cedar.Base.{
  ℕ, suc, ◌+◌, ◌≤◌, ◌≡◌, inl, inr, List, [], ◌∷◌, some, ltb, ◌&&◌, lookup, insert, lookup-insert,
  ok, arith, length, count, Option-cases, Bool-cases, Outcome-cases, subst, ap,
}
use go_cedar.Mailbox.{Mailbox, deliver}
use go_cedar.Pool.Semaphore.{Setting}
use go_cedar.Pool.Ops.{
  Pool, PoolItem, available, is_in_retry_pool, announce, add, revive, force_retry, retry_item,
  retry_items,
}
use go_cedar.Pool.Effects.{available_at, queued, set_state_lem}

-- An identifier that becomes available is announced, and no announcement goes away.
abbrev pub Keeps : {Sem Item : Type 0} → Pool Sem Item → Pool Sem Item → Type 0
Keeps p q = (id : ℕ) → queued id p + available_at id q ≤ queued id q + available_at id p

-- The mailbox has room for so many announcements.
abbrev pub HasRoom : {Sem Item : Type 0} → ℕ → Pool Sem Item → Type 0
HasRoom n p = length p.items_available.queue + n ≤ p.items_available.capacity

deliver_room :
    (x n : ℕ) (m : Mailbox ℕ)
    → length m.queue + suc n ≤ m.capacity
    → ((deliver x m).queue ≡ x ∷ m.queue)
      × (length (deliver x m).queue + n ≤ (deliver x m).capacity)
unfolding deliver
deliver_room x n m h = ground arith

module _ (env : Setting) where
  open env use {Sem, Item, item_id}

  publish-Keeps :
      (id n : ℕ) (e : PoolItem Item) (p : Pool Sem Item)
      → HasRoom (suc n) p
      → let q = announce env id (record p { pool_items = insert id e p.pool_items }) in
        Keeps p q × HasRoom n q
  unfolding announce
  publish-Keeps id n e p h = (
    λ j. ground (
      arith,
      lookup-insert id j e p.pool_items,
      ap (count j) (deliver_room id n p.items_available h).0,
    ),
    (deliver_room id n p.items_available h).1,
  )

  pub add-Keeps : (item : Item) (p : Pool Sem Item) → HasRoom 1 p → Keeps p (add env item p)
  unfolding add
  add-Keeps item p h = elim (Option-cases (lookup (item_id item) p.pool_items)) [
    | inl n ↦ rw (n, add) (publish-Keeps (item_id item) 0 _ p h).0
    | inr (e, s) ↦ rw (s, add) (λ id. omega arith)
  ]

  revive-Keeps :
      (id n : ℕ) (p q : Pool Sem Item) (e : PoolItem Item)
      → lookup id p.pool_items ≡ some e
      → HasRoom (suc n) p
      → revive env id p ≡ ok q
      → Keeps p q × HasRoom n q
  unfolding revive
  revive-Keeps id n p q e s r h =
      let f : PoolItem Item = record e { state = available; retry_when = 0 } in
      let g : announce env id (record p { pool_items = insert id f p.pool_items }) ≡ q =
        ground (arith, set_state_lem env id available 0 p e s) in
      subst (λ q. Keeps p q × HasRoom n q) g (publish-Keeps id n f p r)

  pub force_retry-Keeps :
      (id : ℕ) (p q : Pool Sem Item) → HasRoom 1 p → force_retry env id p ≡ ok q → Keeps p q
  unfolding force_retry
  force_retry-Keeps id p q r h = elim (Option-cases (lookup id p.pool_items)) [
    | inl n ↦ absurd (ground (arith, n))
    | inr (e, s) ↦ elim (Bool-cases (is_in_retry_pool e.state)) [
      | inl t ↦ (revive-Keeps id 0 p q e s r (ground (arith, s, t))).0
      | inr t ↦ let g : p ≡ q = ground (arith, s, t) in subst (Keeps p) g (λ id. omega arith)
    ]
  ]

  retry_item-Keeps :
      (now id n : ℕ) (p q : Pool Sem Item)
      → HasRoom (suc n) p
      → retry_item env now id p ≡ ok q
      → Keeps p q × HasRoom n q
  unfolding retry_item
  retry_item-Keeps now id n p q r h = elim (Option-cases (lookup id p.pool_items)) [
    | inl u ↦
        let g : p ≡ q = ground (arith, u) in
        subst (λ q. Keeps p q × HasRoom n q) g ((λ id. omega arith), omega arith)
    | inr (e, s) ↦ elim (Bool-cases (is_in_retry_pool e.state && ltb e.retry_when now)) [
      | inl t ↦ revive-Keeps id n p q e s r (ground (arith, s, t))
      | inr t ↦
          let g : p ≡ q = ground (arith, s, t) in
          subst (λ q. Keeps p q × HasRoom n q) g ((λ id. omega arith), omega arith)
    ]
  ]

  pub retry_items-Keeps :
      (now : ℕ) (order : List ℕ) (p q : Pool Sem Item)
      → HasRoom (length order) p
      → retry_items env now order p ≡ ok q
      → Keeps p q
  unfolding retry_items
  retry_items-Keeps now [] p q r h =
      let g : p ≡ q = ground arith in subst (Keeps p) g (λ id. omega arith)
  retry_items-Keeps now (x ∷ order) p q r h = elim (Outcome-cases (retry_item env now x p)) [
    | inl u ↦ absurd (ground (arith, u))
    | inr (inl u) ↦ absurd (ground (arith, u))
    | inr (inr (p', u)) ↦
        let (k, r') = retry_item-Keeps now x (length order) p p' r u in
        let k' = retry_items-Keeps now order p' q r' (ground (arith, u)) in
        λ id. omega (arith, k id, k' id)
  ]
