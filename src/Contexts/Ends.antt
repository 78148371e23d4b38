-- ===== src/Contexts/Ends.antt =====
-- When a combined context of utils/channels.go is done, and when its goroutine ends.
use go_cedar.Base.{
  ℕ, ◌≡◌, refl, ◌⊎◌, inl, inr, List, [], ◌∷◌, Bool, true, false, if◌then◌else◌, ok, blocked, arith,
  subst, ap, ◌∙◌, sym,
}
use go_cedar.Contexts.{
  Signal, Waiter, absent, selecting, ended, Combined, select_cases, combined_context, any_fired,
  is_ready, wake, cancel, is_done, Event, wakes, cancels, exec,
}

-- Signals fire one after another while the goroutine and the clients go on; what has fired stays so.
pub data Reach (signals : List Signal) : (ℕ → Bool) → Combined → Type 0 where
  made : Reach signals (λ n. false) (combined_context signals)
  fires :
      {fired : ℕ → Bool} {c : Combined} (later : ℕ → Bool)
      → Reach signals fired c
      → ((n : ℕ) → fired n ≡ true → later n ≡ true)
      → Reach signals later c
  step :
      {fired : ℕ → Bool} {c d : Combined} (e : Event)
      → Reach signals fired c
      → exec fired e c ≡ ok d
      → Reach signals fired d

any_fired_later :
    (fired later : ℕ → Bool) (cases : List ℕ)
    → ((n : ℕ) → fired n ≡ true → later n ≡ true)
    → any_fired fired cases ≡ true
    → any_fired later cases ≡ true
any_fired_later fired later [] m h = cc
any_fired_later fired later (n ∷ cases) m h =
    ground (arith, m n, any_fired_later fired later cases m)

-- What holds of the cases, the goroutine and the two contexts.
pub record IsSound (signals : List Signal) (fired : ℕ → Bool) (c : Combined) : Type 0 where
  pub same_cases : c.cases ≡ select_cases signals
  pub running : c.waiter ≡ selecting → c.cancelled ≡ false
  pub over : c.waiter ≡ ended → (any_fired fired c.cases ≡ true) × (c.cancelled ≡ true)
  pub alone : c.waiter ≡ absent → signals ≡ []

wake-IsSound :
    {signals : List Signal} {fired : ℕ → Bool} (w : Waiter) (c d : Combined)
    → c.waiter ≡ w
    → wake fired w c ≡ ok d
    → IsSound signals fired c
    → IsSound signals fired d
unfolding wake is_ready
wake-IsSound {signals} {fired} selecting c d e h v =
    let d' : Combined = record c { waiter = ended; cancelled = true } in
    let g : d' ≡ d = ground (arith, h) in
    subst (IsSound signals fired) g (record {
      same_cases = v.same_cases;
      running = λ x. absurd (cc x);
      over = λ x. (ground (arith, h, v.running e), refl);
      alone = λ x. absurd (cc x);
    })
wake-IsSound absent c d e h v = absurd (cc h)
wake-IsSound ended c d e h v = absurd (cc h)

cancel-IsSound :
    {signals : List Signal} {fired : ℕ → Bool} (w : Waiter) (c d : Combined)
    → c.waiter ≡ w
    → ok (cancel w c) ≡ ok d
    → IsSound signals fired c
    → IsSound signals fired d
unfolding cancel
cancel-IsSound {signals} {fired} absent c d e h v =
    let d' : Combined = record c { cancelled = true } in
    let g : d' ≡ d = ground (arith, h) in
    subst (IsSound signals fired) g (record {
      same_cases = v.same_cases;
      running = λ x. absurd (cc (e, x));
      over = λ x. absurd (cc (e, x));
      alone = v.alone;
    })
cancel-IsSound {signals} {fired} selecting c d e h v =
    let d' : Combined = record c { child_cancelled = true } in
    let g : d' ≡ d = ground (arith, h) in
    subst (IsSound signals fired) g
      (record { same_cases = v.same_cases; running = v.running; over = v.over; alone = v.alone })
cancel-IsSound {signals} {fired} ended c d e h v =
    let d' : Combined = record c { child_cancelled = true } in
    let g : d' ≡ d = ground (arith, h) in
    subst (IsSound signals fired) g
      (record { same_cases = v.same_cases; running = v.running; over = v.over; alone = v.alone })

Reach-IsSound :
    (signals : List Signal) {fired : ℕ → Bool} {c : Combined}
    → Reach signals fired c
    → IsSound signals fired c
unfolding combined_context select_cases exec wake cancel is_ready
Reach-IsSound [] made = ground arith
Reach-IsSound (signal ∷ signals) made = ground arith
Reach-IsSound signals (fires {fired} {c} later r m) =
    let v = Reach-IsSound signals r in
    record {
      same_cases = v.same_cases;
      running = v.running;
      over = λ e. (any_fired_later fired later c.cases m (v.over e).0, (v.over e).1);
      alone = v.alone;
    }
Reach-IsSound signals (step {fired} {c} {d} wakes r h) =
    wake-IsSound c.waiter c d refl h (Reach-IsSound signals r)
Reach-IsSound signals (step {fired} {c} {d} cancels r h) =
    cancel-IsSound c.waiter c d refl h (Reach-IsSound signals r)

-- In every state that is reached from a combined context of some signals: its goroutine has ended only
-- if a signal has fired, so that no call of the returned cancel function ends it; while no signal has
-- fired it still waits; and once a signal has fired it can go on, after which the context is done.
pub goroutine_waits :
    (signal : Signal) (signals : List Signal) (fired : ℕ → Bool) (c : Combined)
    → Reach (signal ∷ signals) fired c
    → ((c.waiter ≡ ended)
        × (any_fired fired (select_cases (signal ∷ signals)) ≡ true)
        × (is_done c ≡ true))
      ⊎ ((c.waiter ≡ selecting)
          × (exec fired wakes c ≡ (
              if any_fired fired (select_cases (signal ∷ signals))
              then ok (record c { waiter = ended; cancelled = true })
              else blocked)))
unfolding exec is_done wake is_ready
goroutine_waits signal signals fired c r = by_waiter c.waiter refl
  where
    v : IsSound (signal ∷ signals) fired c
    v = Reach-IsSound (signal ∷ signals) r

    all : List ℕ
    all = select_cases (signal ∷ signals)

    by_waiter :
        (w : Waiter)
        → c.waiter ≡ w
        → ((c.waiter ≡ ended) × (any_fired fired all ≡ true) × (is_done c ≡ true))
          ⊎ ((c.waiter ≡ selecting)
              × (wake fired c.waiter c ≡ (
                  if any_fired fired all
                  then ok (record c { waiter = ended; cancelled = true })
                  else blocked)))
    by_waiter absent e = absurd (cc (v.alone e))
    by_waiter ended e =
        inl
          (e, ap (any_fired fired) (sym v.same_cases) ∙ (v.over e).0, ground (arith, (v.over e).1))
    by_waiter selecting e = inr (
      e,
      ap (λ w. wake fired w c) e ∙ ground (arith, v.running e, ap (any_fired fired) v.same_cases),
    )
