-- ===== src/Workers/Named.antt =====
-- The items of process/pool.go are filed under their own identifiers.
use go_cedar.Base.{
  ℕ, ◌≡◌, refl, List, [], ◌∷◌, Bool, true, false, ◌&&◌, some, ltb, Option-cases, if◌then◌else◌,
  lookup, lookup-insert, Outcome, ok, blocked, panic, arith, ◌>>=◌, inl, inr, ◌⊎◌, ap, sym, ◌∙◌,
  Outcome-cases,
}
use go_cedar.Mailbox.{retrieve_all}
use go_cedar.Pool.Semaphore.{Setting}
use go_cedar.Pool.Ops.{
  Pool, PoolItem, ItemState, available, in_retry_pool, done, is_in_retry_pool, add, announce,
  set_state, revive, force_retry, retry_item, retry_items, retry_later, complete, release_unit,
}
use go_cedar.Pool.World.{
  World, Event, adds, forces, reads, completes, retries, ticks, acquires, cancels, wakes, collects,
  looks, hands_over, stops, enter_get, leave_get, hand_over, read_entry, wake, collect, look, stop,
  give_back, on_pool, exec,
}

module _ (env : Setting) where
  open env use {Sem, Item, item_id}

  abbrev pub IsNamed : Pool Sem Item → Type 0
  IsNamed p = (id : ℕ) (e : PoolItem Item) → lookup id p.pool_items ≡ some e → item_id e.item ≡ id

  -- Everything that the call can return is filed so.
  abbrev Names : Outcome (Pool Sem Item) → Type 0
  Names r = (q : Pool Sem Item) → r ≡ ok q → IsNamed q

  add-IsNamed : (item : Item) (p : Pool Sem Item) → IsNamed p → IsNamed (add env item p)
  unfolding add announce
  add-IsNamed item p n id e h = ground (
    arith,
    n id e,
    lookup-insert (item_id item) id (record { item = item; state = available; retry_when = 0 })
        p.pool_items,
  )

  set_state-Names :
      (id : ℕ) (state : ItemState) (t : ℕ) (p : Pool Sem Item)
      → IsNamed p
      → Names (set_state env id state t p)
  unfolding set_state
  set_state-Names id state t p n q h j e l = elim (Option-cases (lookup id p.pool_items)) [
    | inl x ↦ ground (arith, x)
    | inr (f, x) ↦ ground (
      arith,
      x,
      n id f x,
      n j e,
      lookup-insert id j (record f { state = state; retry_when = t }) p.pool_items,
    )
  ]

  revive-Names : (id : ℕ) (p : Pool Sem Item) → IsNamed p → Names (revive env id p)
  unfolding revive announce
  revive-Names id p n q h = elim (Outcome-cases (set_state env id available 0 p)) [
    | inl x ↦ ground (arith, x)
    | inr (inl x) ↦ ground (arith, x)
    | inr (inr (r, x)) ↦ λ j e l. set_state-Names id available 0 p n r x j e (ground (arith, x))
  ]

  revive_if-Names :
      (id : ℕ) (due : Bool) (p : Pool Sem Item)
      → IsNamed p
      → Names (if due then revive env id p else ok p)
  revive_if-Names id true p n q h = revive-Names id p n q h
  revive_if-Names id false p n q h = λ j e l. n j e (ground arith)

  force_retry-Names : (id : ℕ) (p : Pool Sem Item) → IsNamed p → Names (force_retry env id p)
  force_retry-Names id p n q h = elim (Option-cases (lookup id p.pool_items)) [
    | inl x ↦ absurd (unfold force_retry in ground (arith, x))
    | inr (f, x) ↦
        revive_if-Names id (is_in_retry_pool f.state) p n q
          (unfold force_retry in ground (arith, x))
  ]

  retry_item-Names : (now id : ℕ) (p : Pool Sem Item) → IsNamed p → Names (retry_item env now id p)
  retry_item-Names now id p n q h = elim (Option-cases (lookup id p.pool_items)) [
    | inl x ↦ revive_if-Names id false p n q (unfold retry_item in ground (arith, x))
    | inr (f, x) ↦
        revive_if-Names id (is_in_retry_pool f.state && ltb f.retry_when now) p n q
          (unfold retry_item in ground (arith, x))
  ]

  retry_items-Names :
      (now : ℕ) (order : List ℕ) (p : Pool Sem Item)
      → IsNamed p
      → Names (retry_items env now order p)
  unfolding retry_items
  retry_items-Names now [] p n q h = λ j e l. n j e (ground arith)
  retry_items-Names now (id ∷ order) p n q h = elim (Outcome-cases (retry_item env now id p)) [
    | inl x ↦ absurd (ground (arith, x))
    | inr (inl x) ↦ absurd (ground (arith, x))
    | inr (inr (r, x)) ↦
        retry_items-Names now order r (retry_item-Names now id p n r x) q (ground (arith, x))
  ]

  give_up-Names :
      (id : ℕ) (state : ItemState) (t : ℕ) (p : Pool Sem Item)
      → IsNamed p
      → Names (set_state env id state t p >>= release_unit env)
  unfolding release_unit
  give_up-Names id state t p n q h = elim (Outcome-cases (set_state env id state t p)) [
    | inl x ↦ absurd (ground (arith, x))
    | inr (inl x) ↦ absurd (ground (arith, x))
    | inr (inr (r, x)) ↦ λ j e l. set_state-Names id state t p n r x j e (ground (arith, x))
  ]

  on_pool-IsNamed :
      (r : Outcome (Pool Sem Item)) (w w' : World Sem Item)
      → Names r
      → on_pool env r w ≡ ok w'
      → IsNamed w'.pool
  unfolding on_pool
  on_pool-IsNamed (ok p) w w' n h = λ j e l. n p refl j e (ground arith)
  on_pool-IsNamed blocked w w' n h = cc
  on_pool-IsNamed panic w w' n h = cc

  give_back-IsNamed :
      (id : ℕ) (r : Outcome (Pool Sem Item)) (w w' : World Sem Item)
      → Names r
      → give_back env id r w ≡ ok w'
      → IsNamed w'.pool
  unfolding give_back
  give_back-IsNamed id (ok p) w w' n h = λ j e l. n p refl j e (ground arith)
  give_back-IsNamed id blocked w w' n h = ground arith
  give_back-IsNamed id panic w w' n h = ground arith

  -- The steps that leave the map alone.
  rest_kept :
      (w w' : World Sem Item) (id : ℕ)
      → (enter_get env w ≡ ok w')
        ⊎ (leave_get env w ≡ ok w')
        ⊎ (hand_over env w.deliverer w ≡ ok w')
        ⊎ (read_entry env id w ≡ ok w')
        ⊎ (wake env w.deliverer w ≡ ok w')
        ⊎ (collect env w.deliverer w ≡ ok w')
        ⊎ (look env w.deliverer w ≡ ok w')
        ⊎ (stop env w.deliverer w ≡ ok w')
      → w'.pool.pool_items ≡ w.pool.pool_items
  unfolding enter_get leave_get release_unit hand_over read_entry wake collect retrieve_all look
      stop
  rest_kept w w' id h = ground arith

  kept-IsNamed :
      (w w' : World Sem Item)
      → w'.pool.pool_items ≡ w.pool.pool_items
      → IsNamed w.pool
      → IsNamed w'.pool
  kept-IsNamed w w' k n id e h = n id e (ap (lookup id) (sym k) ∙ h)

  -- Every step keeps the items under their own identifiers.
  pub exec-IsNamed :
      (e : Event Item) (w w' : World Sem Item)
      → exec env e w ≡ ok w'
      → IsNamed w.pool
      → IsNamed w'.pool
  unfolding exec
  exec-IsNamed (adds item) w w' h n =
      on_pool-IsNamed (ok (add env item w.pool)) w w'
        (λ q x j e l. add-IsNamed item w.pool n j e (ground arith)) h
  exec-IsNamed (forces id) w w' h n = on_pool-IsNamed _ w w' (force_retry-Names id w.pool n) h
  exec-IsNamed (ticks now order) w w' h n =
      on_pool-IsNamed _ w w' (retry_items-Names now order w.pool n) h
  exec-IsNamed (retries id t) w w' h n =
      give_back-IsNamed id _ w w' (give_up-Names id in_retry_pool t w.pool n)
        (unfold retry_later in h)
  exec-IsNamed (completes id) w w' h n =
      give_back-IsNamed id _ w w' (give_up-Names id done 0 w.pool n) (unfold complete in h)
  exec-IsNamed (reads id) w w' h n =
      kept-IsNamed w w' (rest_kept w w' id (inr (inr (inr (inl h))))) n
  exec-IsNamed acquires w w' h n = kept-IsNamed w w' (rest_kept w w' 0 (inl h)) n
  exec-IsNamed cancels w w' h n = kept-IsNamed w w' (rest_kept w w' 0 (inr (inl h))) n
  exec-IsNamed hands_over w w' h n = kept-IsNamed w w' (rest_kept w w' 0 (inr (inr (inl h)))) n
  exec-IsNamed wakes w w' h n =
      kept-IsNamed w w' (rest_kept w w' 0 (inr (inr (inr (inr (inl h)))))) n
  exec-IsNamed collects w w' h n =
      kept-IsNamed w w' (rest_kept w w' 0 (inr (inr (inr (inr (inr (inl h))))))) n
  exec-IsNamed looks w w' h n =
      kept-IsNamed w w' (rest_kept w w' 0 (inr (inr (inr (inr (inr (inr (inl h)))))))) n
  exec-IsNamed stops w w' h n =
      kept-IsNamed w w' (rest_kept w w' 0 (inr (inr (inr (inr (inr (inr (inr h)))))))) n
