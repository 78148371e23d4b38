-- ===== src/Logger/Tests.antt =====
-- Loggers of log/logger.go over a formatting that shows nothing, and `AwaitInterrupt`.
use go_cedar.Base.{ℕ, ◌≡◌, refl, List, [], ◌∷◌, true, false, some, ok, pos}
use go_cedar.Logger.{Formatting, Logger, set_log_label, new_logger, bracketed, info_log}
use go_cedar.Logger.Calls.{calls_infof, Writes, log}
use go_cedar.Logger.Labels.{Event, makes, exec, exec_all, no_loggers, log_aligned}
use go_cedar.Logger.Interrupts.{
  Await, await_interrupt, receive_all, return_channels, await_channels,
}

abbrev silent : Formatting
silent = record {
  Arg = ℕ;
  sprint = λ args. [];
  sprintf = λ format args. format;
  enabled = λ level. false;
}

-- Loggers with the labels "a" and "bcd".
abbrev two_made : List Event
two_made = makes (b'a' ∷ []) ∷ makes (b'b' ∷ b'c' ∷ b'd' ∷ []) ∷ []

abbrev logger_a : Logger
logger_a = record { has_prefix = true; log_prefix = bracketed (b'a' ∷ []); log_label = b'a' ∷ [] }

longest_six : (exec_all two_made no_loggers).longest_label ≡ 6
unfolding exec_all exec new_logger set_log_label
longest_six = refl

log_aligned_example :
    Writes silent info_log 1 (exec_all two_made no_loggers).longest_label logger_a (
      log silent
        (calls_infof (pos 0) (b'x' ∷ []) [])
        (exec_all two_made no_loggers).longest_label
        logger_a)
log_aligned_example =
    log_aligned silent two_made 1 logger_a (calls_infof (pos 0) (b'x' ∷ []) [])
      (unfold exec_all exec new_logger set_log_label in refl)

await_channels_example :
    (u : Await) × (receive_all (10 ∷ 11 ∷ 14 ∷ []) await_interrupt ≡ ok u)
    × (u.first_shut ≡ true)
    × (u.repeated_shut ≡ true)
    × ((return_channels u).returned ≡ some (false, u.on_repeated))
await_channels_example = await_channels 10 (11 ∷ 14 ∷ [])
