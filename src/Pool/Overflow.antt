-- ===== src/Pool/Overflow.antt =====
-- What the bound of the mailbox does to a pool of process/pool.go: an item whose announcement is
-- dropped is never handed out.
use go_cedar.Base.{
  ℕ, suc, ◌+◌, ◌-◌, ◌≤◌, ◌≡◌, List, [], ◌∷◌, ◌++◌, none, lookup, lookup-insert, ok, arith, length,
  count, count-append, ap, subst, sym, ◌∙◌, length-append, take-append,
}
use go_cedar.Mailbox.{Mailbox, deliver, drop_last}
use go_cedar.Pool.Semaphore.{Setting}
use go_cedar.Pool.Ops.{Pool, available, add}
use go_cedar.Pool.World.{World, Event, exec}
use go_cedar.Pool.Effects.{available_at}
use go_cedar.Pool.Invariant.{tally, Inv}
use go_cedar.Pool.Flow.{exec-Balanced}

-- The item is in the map as available, and is neither announced nor on its way nor with a client.
pub record IsLost {Sem Item : Type 0} (id : ℕ) (w : World Sem Item) : Type 0 where
  pub listed : available_at id w.pool ≡ 1
  pub nowhere : tally id w ≡ 0

drop_oldest :
    (x : ℕ) (newer q : List ℕ) (oldest : ℕ)
    → q ≡ newer ++ oldest ∷ []
    → drop_last (x ∷ q) ≡ x ∷ newer
drop_oldest x newer q oldest e =
    let n : length (x ∷ (newer ++ oldest ∷ [])) - 1 ≡ length (x ∷ newer) =
      omega (arith, length-append newer (oldest ∷ [])) in
    subst (λ l. drop_last (x ∷ l) ≡ x ∷ newer) (sym e)
      (rw n (take-append (x ∷ newer) (oldest ∷ [])))

-- A full box loses its oldest item to a new one.
deliver_full :
    (x : ℕ) (newer : List ℕ) (oldest : ℕ) (m : Mailbox ℕ)
    → m.queue ≡ newer ++ oldest ∷ []
    → m.capacity ≡ suc (length newer)
    → (deliver x m).queue ≡ x ∷ newer
unfolding deliver
deliver_full x newer oldest m full size = ground (
  arith,
  ap length full,
  length-append newer (oldest ∷ []),
  drop_oldest x newer m.queue oldest full,
)

pub availability-le : {Sem Item : Type 0} (id : ℕ) (p : Pool Sem Item) → available_at id p ≤ 1
availability-le id p = ground arith

module _ (env : Setting) (c : ℕ) where
  open env use {Sem, Item, item_id}

  -- Where the pool's invariant holds, a new item that is added while the mailbox is full makes the
  -- item whose announcement is the oldest a lost one.
  pub add_to_full-IsLost :
      (w : World Sem Item) (item : Item) (newer : List ℕ) (oldest : ℕ)
      → Inv env c w
      → w.pool.items_available.queue ≡ newer ++ oldest ∷ []
      → w.pool.items_available.capacity ≡ suc (length newer)
      → lookup (item_id item) w.pool.pool_items ≡ none
      → IsLost oldest (record w { pool = add env item w.pool })
  unfolding add
  add_to_full-IsLost w item newer oldest v full size new =
      let p = w.pool in
      let before : count oldest p.items_available.queue ≡ count oldest newer + 1 =
        ap (count oldest) full ∙ count-append oldest newer (oldest ∷ []) ∙ ground arith in
      let after =
        ap (count oldest) (deliver_full (item_id item) newer oldest p.items_available full size) in
      ground (
        arith,
        new,
        before,
        after,
        v.once oldest,
        availability-le oldest p,
        lookup-insert (item_id item) oldest
            (record { item = item; state = available; retry_when = 0 }) p.pool_items,
      )

module _ (env : Setting) where
  open env use {Sem, Item}

  -- No step of any goroutine, and no call of any client, brings a lost item back.
  pub exec-IsLost :
      (e : Event Item) (w w' : World Sem Item) (id : ℕ)
      → IsLost id w
      → exec env e w ≡ ok w'
      → IsLost id w'
  exec-IsLost e w w' id l h =
      omega (arith, exec-Balanced env e w w' id h, availability-le id w'.pool, l.listed, l.nowhere)
