-- ===== src/Logger.antt =====
-- log/logger.go: loggers with a label, and what they hand to klog. Text is the list of its bytes.
pub mod Calls
pub mod Labels
pub mod Interrupts
mod Tests
use go_cedar.Base.{
  ℕ, zero, suc, ◌-◌, List, [], ◌∷◌, ◌++◌, map, Bool, true, false, Option, none, some, ltb,
  if◌then◌else◌, Outcome, ok, panic, ◌>>=◌, ℤ, pos, negsuc, length, get_elem?, set,
}

-- What fmt and klog do for the loggers: `sprint` and `sprintf` make a text, and `enabled` says
-- whether `klog.V` is on for a level.
pub record Formatting : Type 1 where
  pub Arg : Type 0
  pub sprint : List Arg → List ℕ
  pub sprintf : List ℕ → List Arg → List ℕ
  pub enabled : ℤ → Bool

pub record Logger : Type 0 where
  pub has_prefix : Bool
  pub log_prefix : List ℕ
  pub log_label : List ℕ

pub data Severity : Type 0 where
  debug_log success_log info_log warning_log error_log fatal_log : Severity

-- An argument of a function of klog.
pub data Part (Arg : Type 0) : Type 0 where
  words : List ℕ → Part Arg
  value : Arg → Part Arg

-- One call of klog, which writes a line; after `fatal_log` klog ends the program.
pub record Entry (Arg : Type 0) : Type 0 where
  pub severity : Severity
  pub parts : List (Part Arg)

abbrev pub is_empty : List ℕ → Bool
is_empty [] = true
is_empty (c ∷ s) = false

-- `fmt.Sprintf("[%s] ", label)`
abbrev pub bracketed : List ℕ → List ℕ
bracketed label = b'[' ∷ (label ++ b']' ∷ b' ' ∷ [])

-- `SetLogLabel`, with the value of `longestLabel` before and after.
unfoldable pub set_log_label : List ℕ → ℕ → Logger → ℕ × Logger
set_log_label label longest l =
    if is_empty label then (longest, record l { log_label = label; has_prefix = false }) else (
      if ltb longest (length (bracketed label)) then length (bracketed label) else longest,
      record { log_label = label; has_prefix = true; log_prefix = bracketed label },
    )

unfoldable pub new_logger : List ℕ → ℕ → ℕ × Logger
new_logger label longest =
    let l : Logger = record { has_prefix = false; log_prefix = []; log_label = [] } in
    if is_empty label then (longest, l) else set_log_label label longest l

unfoldable pub get_log_label : Logger → List ℕ
get_log_label l = l.log_label

unfoldable pub get_log_prefix : Logger → List ℕ
get_log_prefix l = l.log_prefix

abbrev pub spaces : ℕ → List ℕ
spaces zero = []
spaces (suc n) = b' ' ∷ spaces n

-- `strings.Repeat(" ", longestLabel-len(l.logPrefix))`, which panics at a negative count.
unfoldable pub padding : ℕ → List ℕ → Outcome (List ℕ)
padding longest prefix =
    if ltb longest (length prefix) then panic else ok (spaces (longest - length prefix))

-- Whether a verbose level is above 0.
abbrev pub is_above_zero : ℤ → Bool
is_above_zero (pos zero) = false
is_above_zero (pos (suc n)) = true
is_above_zero (negsuc n) = false

module _ (env : Formatting) where
  open env use {Arg, sprint, sprintf, enabled}

  -- What each method does with its text: with a prefix the text follows prefix and padding, and
  -- without one the `plain` arguments are handed over.
  unfoldable pub write :
      Severity → List (Part Arg) → List ℕ → ℕ → Logger → Outcome (List (Entry Arg))
  write severity plain t longest l =
      if l.has_prefix
      then (padding longest l.log_prefix >>= λ p. ok (
          record { severity = severity; parts = words l.log_prefix ∷ words p ∷ words t ∷ [] } ∷ []))
      else ok (record { severity = severity; parts = plain } ∷ [])

  -- The methods with arguments, with a format, and with fields.
  abbrev pub write_args : Severity → List Arg → ℕ → Logger → Outcome (List (Entry Arg))
  write_args severity args = write severity (map value args) (sprint args)

  abbrev pub write_text : Severity → List ℕ → ℕ → Logger → Outcome (List (Entry Arg))
  write_text severity t = write severity (words t ∷ []) t

  -- `fmt.Sprintf(msg+" %v", fields)`
  abbrev pub with_fields_text : List ℕ → Arg → List ℕ
  with_fields_text msg fields = sprintf (msg ++ b' ' ∷ b'%' ∷ b'v' ∷ []) (fields ∷ [])

  unfoldable pub log_v : ℤ → Bool
  log_v level = enabled level

  unfoldable pub debug : List Arg → ℕ → Logger → Outcome (List (Entry Arg))
  debug args = write_args debug_log args

  unfoldable pub success : List Arg → ℕ → Logger → Outcome (List (Entry Arg))
  success args = write_args success_log args

  unfoldable pub warn : List Arg → ℕ → Logger → Outcome (List (Entry Arg))
  warn args = write_args warning_log args

  unfoldable pub error : List Arg → ℕ → Logger → Outcome (List (Entry Arg))
  error args = write_args error_log args

  unfoldable pub debugf : List ℕ → List Arg → ℕ → Logger → Outcome (List (Entry Arg))
  debugf format args = write_text debug_log (sprintf format args)

  unfoldable pub successf : List ℕ → List Arg → ℕ → Logger → Outcome (List (Entry Arg))
  successf format args = write_text success_log (sprintf format args)

  unfoldable pub warnf : List ℕ → List Arg → ℕ → Logger → Outcome (List (Entry Arg))
  warnf format args = write_text warning_log (sprintf format args)

  unfoldable pub errorf : List ℕ → List Arg → ℕ → Logger → Outcome (List (Entry Arg))
  errorf format args = write_text error_log (sprintf format args)

  unfoldable pub fatalf : List ℕ → List Arg → ℕ → Logger → Outcome (List (Entry Arg))
  fatalf format args = write_text fatal_log (sprintf format args)

  unfoldable pub debugw : List ℕ → Arg → ℕ → Logger → Outcome (List (Entry Arg))
  debugw msg fields = write_text debug_log (with_fields_text msg fields)

  unfoldable pub successw : List ℕ → Arg → ℕ → Logger → Outcome (List (Entry Arg))
  successw msg fields = write_text success_log (with_fields_text msg fields)

  unfoldable pub infow : List ℕ → Arg → ℕ → Logger → Outcome (List (Entry Arg))
  infow msg fields = write_text info_log (with_fields_text msg fields)

  unfoldable pub warnw : List ℕ → Arg → ℕ → Logger → Outcome (List (Entry Arg))
  warnw msg fields = write_text warning_log (with_fields_text msg fields)

  unfoldable pub errorw : List ℕ → Arg → ℕ → Logger → Outcome (List (Entry Arg))
  errorw msg fields = write_text error_log (with_fields_text msg fields)

  abbrev pub is_logged : ℤ → Bool
  is_logged level = if is_above_zero level then enabled level else true

  unfoldable pub info : ℤ → List Arg → ℕ → Logger → Outcome (List (Entry Arg))
  info level args longest l = if is_logged level then write_args info_log args longest l else ok []

  unfoldable pub infof : ℤ → List ℕ → List Arg → ℕ → Logger → Outcome (List (Entry Arg))
  infof level format args longest l =
      if is_logged level then write_text info_log (sprintf format args) longest l else ok []
