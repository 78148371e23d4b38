-- ===== src/Backoff/Delays.antt =====
-- The delays that `ExponentialBackoff` of utils/time.go hands out.
use mathlib.Core.Path.{ap₂}
use go_cedar.Base.{
  ℕ, ◌*◌, ◌^◌, ◌≤◌, ◌<◌, ◌≡◌, refl, List, [], ◌∷◌, true, arith, leb, if◌then◌else◌, ap, sym, ◌∙◌,
  ◌⊎◌, inl, inr,
}
use go_cedar.Backoff.{Backoff, next, reset, new_backoff, signed_lt}

-- The delays of calls at the given times, the first call first.
unfoldable pub delays : List ℕ → Backoff → List ℕ
delays [] eb = []
delays (now ∷ nows) eb = let (eb', d) = next now eb in d ∷ delays nows eb'

abbrev pub capped : ℕ → ℕ → ℕ
capped d max = if leb d max then d else max

-- The delays of a doubling schedule with a ceiling.
unfoldable pub schedule : ℕ → ℕ → List ℕ → List ℕ
schedule d max [] = []
schedule d max (now ∷ nows) = capped d max ∷ schedule (d * 2) max nows

-- Where the schedule stands: at its start, or with the next delay as `current`.
abbrev IsAt : ℕ → Backoff → Type 0
IsAt d eb = (eb.current ≡ capped d eb.max) ⊎ ((eb.current ≡ 0) × (eb.min ≡ d) × (d ≤ eb.max))

next-IsAt :
    (now d : ℕ) (eb : Backoff)
    → 0 < d
    → 0 < eb.max
    → eb.max < 2 ^ 62
    → IsAt d eb
    → ((next now eb).1 ≡ capped d eb.max)
      × ((next now eb).0.current ≡ capped (d * 2) eb.max)
      × ((next now eb).0.max ≡ eb.max)
unfolding next
next-IsAt now d eb h k m a = ground arith

delays_from :
    (nows : List ℕ) (eb : Backoff) (d max : ℕ)
    → eb.max ≡ max
    → 0 < d
    → 0 < max
    → max < 2 ^ 62
    → IsAt d eb
    → delays nows eb ≡ schedule d max nows
unfolding delays schedule
delays_from [] eb d max x h k m a = refl
delays_from (now ∷ nows) eb d max x h k m a =
    let (e, f, g) = next-IsAt now d eb h (omega arith) (omega arith) a in
    ap₂ ◌∷◌ (e ∙ ap (capped d) x) (
      delays_from nows (next now eb).0 (d * 2) max (g ∙ x) (omega arith) k m
        (inl (f ∙ ap (capped (d * 2)) (sym g))))

-- The delays of a new backoff double from the smallest one up to the largest, whenever the calls
-- come, for limits whose double an int64 can hold.
pub delays-schedule :
    (nows : List ℕ) (min max : ℕ)
    → 0 < min
    → min ≤ max
    → max < 2 ^ 62
    → delays nows (new_backoff min max) ≡ schedule min max nows
delays-schedule nows min max h k m =
    delays_from nows (new_backoff min max) min max refl h (omega arith) m (inr (refl, refl, k))

-- After `Reset` the schedule starts again.
pub delays-reset :
    (nows : List ℕ) (eb : Backoff)
    → 0 < eb.min
    → eb.min ≤ eb.max
    → eb.max < 2 ^ 62
    → delays nows (reset eb) ≡ schedule eb.min eb.max nows
unfolding reset
delays-reset nows eb h k m =
    delays_from nows (reset eb) eb.min eb.max refl h (omega arith) m (inl (ground arith))

-- A delay of 2 ^ 62 ns or more under a larger limit overflows when it is doubled: the next delay is
-- negative.
pub next_overflow :
    (now later : ℕ) (eb : Backoff)
    → 2 ^ 62 ≤ eb.current
    → eb.current < 2 ^ 63
    → eb.max < 2 ^ 63
    → signed_lt (next later (next now eb).0).1 0 ≡ true
unfolding next
next_overflow now later eb h k m = ground arith
