-- ===== src/Pool/Delivery.antt =====
-- The steps of the goroutine `deliverAvailableItems` of process/pool.go keep the invariant.
use go_cedar.Base.{
  ℕ, zero, suc, ◌≤◌, ◌≡◌, refl, ◌≢◌, inl, inr, [], ◌∷◌, true, ok, arith, count, count-reverse,
  Bool-cases, sym, ap, ◌∙◌,
}
use go_cedar.Mailbox.{retrieve_all}
use go_cedar.Mailbox.Reversal.{reverse_in_place-eq-reverse}
use go_cedar.Pool.Semaphore.{Setting}
use go_cedar.Pool.Ops.{is_offered}
use go_cedar.Pool.World.{
  World, Deliverer, waiting, woken, stopped, delivering, offering, hand_over, wake, collect, look,
  stop,
}
use go_cedar.Pool.Invariant.{batch, Inv, Safe, known}

module _ (env : Setting) (c : ℕ) where
  open env use {Sem, Item, acquire, release, units, size}

  pub hand_over-Safe :
      (w : World Sem Item) (d : Deliverer) (n : ℕ)
      → w.deliverer ≡ d
      → w.selecting ≡ n
      → Inv env c w
      → Safe env c (hand_over env d w)
  unfolding hand_over
  hand_over-Safe w (offering id rest) zero e h v = rw (h, hand_over) tt
  hand_over-Safe w (offering id rest) (suc n) e h v =
      rw (h, hand_over)
        (record {
          once = λ j. omega (arith, v.once j, ap (λ d. count j (batch d)) e);
          leased = omega (arith, v.leased);
          within = v.within;
          sized = v.sized;
          roused = ground (arith, v.roused);
        })
  hand_over-Safe w waiting n e h v = tt
  hand_over-Safe w woken n e h v = tt
  hand_over-Safe w stopped n e h v = tt
  hand_over-Safe w (delivering ids) n e h v = tt

  pub wake-Safe :
      (w : World Sem Item) (d : Deliverer)
      → w.deliverer ≡ d
      → Inv env c w
      → Safe env c (wake env d w)
  unfolding wake
  wake-Safe w waiting e v = elim (Bool-cases w.pool.items_available.notified) [
    | inr n ↦ rw (n, wake) tt
    | inl y ↦
        rw (y, wake)
          (record {
            once = λ j. omega (arith, v.once j, ap (λ d. count j (batch d)) e);
            leased = v.leased;
            within = v.within;
            sized = v.sized;
            roused = λ h. inr refl;
          })
  ]
  wake-Safe w woken e v = tt
  wake-Safe w stopped e v = tt
  wake-Safe w (delivering ids) e v = tt
  wake-Safe w (offering id rest) e v = tt

  pub collect-Safe :
      (w : World Sem Item) (d : Deliverer)
      → w.deliverer ≡ d
      → Inv env c w
      → Safe env c (collect env d w)
  unfolding collect retrieve_all
  collect-Safe w woken e v =
      let queue = w.pool.items_available.queue in
      record {
        once = λ j. omega (
          arith,
          v.once j,
          ap (λ d. count j (batch d)) e,
          ap (count j) (reverse_in_place-eq-reverse queue),
          count-reverse j queue,
        );
        leased = v.leased;
        within = v.within;
        sized = v.sized;
        roused = λ h. absurd (omega arith);
      }
  collect-Safe w waiting e v = tt
  collect-Safe w stopped e v = tt
  collect-Safe w (delivering ids) e v = tt
  collect-Safe w (offering id rest) e v = tt

  -- The deliverer moves on to a batch that is no larger, and not from a wake-up.
  move_on :
      (w : World Sem Item) (d d' : Deliverer)
      → w.deliverer ≡ d
      → d ≢ woken
      → ((j : ℕ) → count j (batch d') ≤ count j (batch d))
      → Inv env c w
      → Inv env c (record w { deliverer = d' })
  move_on w d d' e nw less v = record {
    once = λ j. omega (arith, v.once j, less j, ap (λ d. count j (batch d)) e);
    leased = v.leased;
    within = v.within;
    sized = v.sized;
    roused = λ h. elim (v.roused h) [ inl n ↦ inl n | inr k ↦ absurd (nw (sym e ∙ k)) ];
  }

  pub look-Safe :
      (w : World Sem Item) (d : Deliverer)
      → w.deliverer ≡ d
      → Inv env c w
      → Safe env c (look env d w)
  unfolding look is_offered
  look-Safe w (delivering []) e v = move_on w _ waiting e (λ k. cc) (λ j. omega arith) v
  look-Safe w (delivering (id ∷ rest)) e v =
      let (entry, s, a) =
        known env c w id (ground (arith, v.once id, ap (λ d. count id (batch d)) e)) in
      let offered : is_offered env id w.pool ≡ ok true = rw (s, is_offered) (rw a) in
      rw (offered, look) (move_on w _ (offering id rest) e (λ k. cc) (λ j. omega arith) v)
  look-Safe w waiting e v = tt
  look-Safe w woken e v = tt
  look-Safe w stopped e v = tt
  look-Safe w (offering id rest) e v = tt

  pub stop-Safe :
      (w : World Sem Item) (d : Deliverer)
      → w.deliverer ≡ d
      → Inv env c w
      → Safe env c (stop env d w)
  unfolding stop
  stop-Safe w waiting e v = move_on w _ stopped e (λ k. cc) (λ j. omega arith) v
  stop-Safe w (offering id rest) e v = move_on w _ stopped e (λ k. cc) (λ j. omega arith) v
  stop-Safe w woken e v = tt
  stop-Safe w stopped e v = tt
  stop-Safe w (delivering ids) e v = tt
