-- ===== src/Contexts/Tests.antt =====
-- A combined context of utils/channels.go that is cancelled by its user.
use go_cedar.Base.{◌≡◌, refl, ◌⊎◌, [], ◌∷◌, true, false, ok, blocked, if◌then◌else◌}
use go_cedar.Base.{◌++◌, ◌+◌}
use go_cedar.Contexts.Chans.{errs, canceled, nil}
use go_cedar.Contexts.ChanEnds.{replicate, errs_of_channel}
use go_cedar.Contexts.{
  from_chan, selecting, ended, Combined, combined_context, select_cases, any_fired, is_done, wakes,
  cancels, cancel, exec,
}
use go_cedar.Contexts.Ends.{Reach, made, step, goroutine_waits}

abbrev given_up : Combined
given_up = record { cases = 5 ∷ []; waiter = selecting; cancelled = false; child_cancelled = true }

given_up-Reach : Reach (from_chan 5 ∷ []) (λ n. false) given_up
unfolding combined_context select_cases exec cancel
given_up-Reach = step cancels made refl

goroutine_waits_example :
    ((selecting ≡ ended)
      × (any_fired (λ n. false) (select_cases (from_chan 5 ∷ [])) ≡ true)
      × (is_done given_up ≡ true))
    ⊎ ((selecting ≡ selecting)
        × (exec (λ n. false) wakes given_up ≡ (
            if any_fired (λ n. false) (select_cases (from_chan 5 ∷ []))
            then ok (record given_up { waiter = ended; cancelled = true })
            else blocked)))
goroutine_waits_example = goroutine_waits (from_chan 5) [] (λ n. false) given_up given_up-Reach

errs_of_channel_example :
    (errs 3 (record { values = 2; closed = true }) ≡ replicate 3 canceled)
    × (errs (2 + 3) (record { values = 2; closed = false })
        ≡ replicate 2 canceled ++ replicate 3 nil)
errs_of_channel_example = errs_of_channel 2 3
