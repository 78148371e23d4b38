-- ===== src/Contexts/ChanEnds.antt =====
-- What `ChanContext.Err` of utils/channels.go returns, and how the goroutine of `ContextFromChan` ends.
use go_cedar.Base.{
  ℕ, zero, suc, ◌≡◌, refl, ap, ◌∙◌, ◌⊎◌, inl, inr, List, [], ◌∷◌, ◌++◌, ◌+◌, Bool, true, false,
  Bool-cases, ok, Outcome-cases, arith,
}
use go_cedar.Contexts.Chans.{
  Chan, is_ready, receive, Error, nil, canceled, err, errs, Waiter, selecting, ended, FromChan,
  context_from_chan, stop, leave, Event, stops, leaves, cancels, changes, exec, exec_all,
}

abbrev pub replicate : ℕ → Error → List Error
replicate zero e = []
replicate (suc n) e = e ∷ replicate n e

errs-closed :
    (k values : ℕ) → errs k (record { values = values; closed = true }) ≡ replicate k canceled
unfolding errs err
errs-closed zero values = refl
errs-closed (suc k) zero = ap (λ es. canceled ∷ es) (errs-closed k 0)
errs-closed (suc k) (suc values) = ap (λ es. canceled ∷ es) (errs-closed k values)

errs-empty : (k : ℕ) → errs k (record { values = 0; closed = false }) ≡ replicate k nil
unfolding errs err
errs-empty zero = refl
errs-empty (suc k) = ap (λ es. nil ∷ es) (errs-empty k)

errs-open :
    (values k : ℕ)
    → errs (values + k) (record { values = values; closed = false })
      ≡ replicate values canceled ++ replicate k nil
unfolding errs err
errs-open zero k =
    ap (λ n. errs n (record { values = 0; closed = false })) (omega arith) ∙ errs-empty k
errs-open (suc values) k =
    ap (λ n. errs n (record { values = suc values; closed = false })) (plus values k)
    ∙ ap (λ es. canceled ∷ es) (errs-open values k)
  where
    plus : (m n : ℕ) → suc m + n ≡ suc (m + n)
    plus m n = omega arith

-- On a closed channel every call of `Err` returns `context.Canceled`. On an open one, to which nothing
-- more is sent, each call that finds a value takes it and returns that error, and the calls behind
-- them return nil, as if the context were not cancelled.
pub errs_of_channel :
    (values k : ℕ)
    → (errs k (record { values = values; closed = true }) ≡ replicate k canceled)
      × (errs (values + k) (record { values = values; closed = false })
          ≡ replicate values canceled ++ replicate k nil)
errs_of_channel values k = (errs-closed k values, errs-open values k)

-- The goroutine has ended only with the context cancelled.
abbrev EndsCancelled : FromChan → Type 0
EndsCancelled c = (c.waiter ≡ ended) → c.cancelled ≡ true

exec-EndsCancelled :
    (e : Event) (c c' : FromChan) → exec e c ≡ ok c' → EndsCancelled c → EndsCancelled c'
unfolding exec
exec-EndsCancelled stops c c' x r = unfold stop in ground arith
exec-EndsCancelled leaves c c' x r = unfold leave in ground arith
exec-EndsCancelled cancels c c' x r = ground arith
exec-EndsCancelled (changes ch) c c' x r = ground arith

exec_all-EndsCancelled :
    (es : List Event) (c c' : FromChan) → exec_all es c ≡ ok c' → EndsCancelled c → EndsCancelled c'
unfolding exec_all
exec_all-EndsCancelled [] c c' x r = ground (arith, x, r)
exec_all-EndsCancelled (e ∷ es) c c' x r = elim (Outcome-cases (exec e c)) [
  | inl h ↦ absurd (ground (arith, h))
  | inr (inl h) ↦ absurd (ground (arith, h))
  | inr (inr (u, h)) ↦
      exec_all-EndsCancelled es u c' (ground (arith, h)) (exec-EndsCancelled e c u h r)
]

-- After every history of `ContextFromChan` that leaves the channel ready or the context cancelled: the
-- goroutine has ended with the context cancelled, or one step of its own brings it there.
pub from_chan_ends :
    (ch : Chan) (es : List Event) (c : FromChan)
    → exec_all es (context_from_chan ch) ≡ ok c
    → (is_ready c.ch_stop ≡ true) ⊎ (c.cancelled ≡ true)
    → ((c.waiter ≡ ended) × (c.cancelled ≡ true))
      ⊎ ((e : Event) × (c' : FromChan) × (exec e c ≡ ok c')
          × (c'.waiter ≡ ended)
          × (c'.cancelled ≡ true))
unfolding context_from_chan exec stop leave
from_chan_ends ch es c x r = elim (Bool-cases (is_ended c.waiter)) [
  | inl y ↦
      let w : c.waiter ≡ ended = ground (arith, y) in
      inl (w, exec_all-EndsCancelled es (context_from_chan ch) c x (λ e. cc) w)
  | inr n ↦ elim r [
    | inl ready ↦ inr (
      stops,
      record { ch_stop = receive c.ch_stop.values c.ch_stop; cancelled = true; waiter = ended },
      ground (arith, n, ready),
      refl,
      refl,
    )
    | inr done ↦ inr (leaves, record c { waiter = ended }, ground (arith, n, done), refl, done)
  ]
]
  where
    is_ended : Waiter → Bool
    is_ended selecting = false
    is_ended ended = true
