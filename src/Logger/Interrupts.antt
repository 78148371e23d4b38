-- ===== src/Logger/Interrupts.antt =====
-- log/logger.go: `AwaitInterrupt`, its goroutine and its two channels. Times are Unix seconds.
use go_cedar.Base.{
  ℕ, ◌+◌, ◌≤◌, ◌≡◌, refl, List, [], ◌∷◌, Bool, true, false, ◌&&◌, ◌||◌, Option, none, some, ltb,
  leb, if◌then◌else◌, Outcome, ok, panic, ◌>>=◌, arith, drop, ◌∙◌, not, ap,
}

-- `first_shut` and `repeated_shut`: the channels are closed. `on_first` and `on_repeated`: the
-- variables still hold the channels, and are not nil. `returned` is what `AwaitInterrupt` has
-- returned, as whether each result is a channel.
pub record Await : Type 0 where
  pub on_first : Bool
  pub on_repeated : Bool
  pub first_shut : Bool
  pub repeated_shut : Bool
  pub count : ℕ
  pub first_time : ℕ
  pub returned : Option (Bool × Bool)

unfoldable pub await_interrupt : Await
await_interrupt = record {
  on_first = true;
  on_repeated = true;
  first_shut = false;
  repeated_shut = false;
  count = 0;
  first_time = 0;
  returned = none;
}

-- One round of the loop over the signals, at a time.
unfoldable pub receive : ℕ → Await → Outcome Await
receive cur_time s =
    let count = s.count + 1 in
    if s.on_first
    then (if s.first_shut
        then panic
        else ok (record s {
          count = count;
          first_time = cur_time;
          first_shut = true;
          on_first = false;
        }))
    else if s.on_repeated && ltb (s.first_time + 3) cur_time && leb 3 count
    then (if s.repeated_shut
        then panic
        else ok (record s { count = count; repeated_shut = true; on_repeated = false }))
    else ok (record s { count = count })

-- `return onFirst, onRepeated`, which reads the variables that the goroutine sets.
unfoldable pub return_channels : Await → Await
return_channels s = record s { returned = some (s.on_first, s.on_repeated) }

-- The signals at these times, one after another.
unfoldable pub receive_all : List ℕ → Await → Outcome Await
receive_all [] s = ok s
receive_all (t ∷ ts) s = receive t s >>= receive_all ts

-- Some time is more than 3 seconds after the first one.
abbrev pub some_late : ℕ → List ℕ → Bool
some_late t0 [] = false
some_late t0 (t ∷ ts) = ltb (t0 + 3) t || some_late t0 ts

-- The same among the signals that make the count 3 or more, where `n` have come before.
abbrev late_from : ℕ → ℕ → List ℕ → Bool
late_from n t0 [] = false
late_from n t0 (t ∷ ts) = (leb 3 (n + 1) && ltb (t0 + 3) t) || late_from (n + 1) t0 ts

late_from-some_late : (n t0 : ℕ) (ts : List ℕ) → 2 ≤ n → late_from n t0 ts ≡ some_late t0 ts
late_from-some_late n t0 [] h = refl
late_from-some_late n t0 (t ∷ ts) h = ground (arith, late_from-some_late (n + 1) t0 ts)

later_step :
    (t : ℕ) (s : Await)
    → s.on_first ≡ false
    → s.on_repeated ≡ not s.repeated_shut
    → let b = s.repeated_shut || (leb 3 (s.count + 1) && ltb (s.first_time + 3) t) in
      receive t s ≡ ok (record s { count = s.count + 1; repeated_shut = b; on_repeated = not b })
unfolding receive
later_step t s f r = ground arith

later :
    (ts : List ℕ) (s : Await)
    → s.on_first ≡ false
    → s.on_repeated ≡ not s.repeated_shut
    → (u : Await) × (receive_all ts s ≡ ok u)
      × (u.on_first ≡ false)
      × (u.first_shut ≡ s.first_shut)
      × (u.repeated_shut ≡ (s.repeated_shut || late_from s.count s.first_time ts))
unfolding receive_all
later [] s f r = (s, refl, f, refl, ground arith)
later (t ∷ ts) s f r =
    let b = s.repeated_shut || (leb 3 (s.count + 1) && ltb (s.first_time + 3) t) in
    let s' : Await = record s { count = s.count + 1; repeated_shut = b; on_repeated = not b } in
    let (u, h, o, k, l) = later ts s' f refl in
    (u, ap (λ o. o >>= receive_all ts) (later_step t s f r) ∙ h, o, k, l ∙ ground arith)

-- However the signals come, no channel is closed twice. The first channel is closed at the first
-- signal; the second one is closed exactly when some signal from the third on comes more than 3
-- seconds after the first. When `AwaitInterrupt` returns only after these signals, its first result
-- is nil.
pub await_channels :
    (t : ℕ) (ts : List ℕ)
    → (u : Await) × (receive_all (t ∷ ts) await_interrupt ≡ ok u)
      × (u.first_shut ≡ true)
      × (u.repeated_shut ≡ some_late t (drop 1 ts))
      × ((return_channels u).returned ≡ some (false, u.on_repeated))
unfolding receive_all await_interrupt return_channels
await_channels t ts =
    let s : Await = record await_interrupt {
      count = 1;
      first_time = t;
      first_shut = true;
      on_first = false;
    } in
    let (u, h, o, k, l) = later ts s refl refl in
    let g : receive t await_interrupt ≡ ok s = unfold receive in refl in
    (
      u,
      ap (λ o. o >>= receive_all ts) g ∙ h,
      k,
      l ∙ from_third ts,
      ap (λ b. some (b, u.on_repeated)) o,
    )
  where
    from_third : (ts : List ℕ) → late_from 1 t ts ≡ some_late t (drop 1 ts)
    from_third [] = refl
    from_third (x ∷ ts) = ground (arith, late_from-some_late 2 t ts)
