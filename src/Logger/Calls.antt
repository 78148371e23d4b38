-- ===== src/Logger/Calls.antt =====
-- The calls of a logger of log/logger.go, and what holds of the lines that each writes.
use go_cedar.Base.{
  ℕ, zero, suc, ◌+◌, ◌-◌, ◌≤◌, ◌≡◌, refl, List, [], ◌∷◌, Bool, true, false, if◌then◌else◌, Outcome,
  ok, ℤ, length, arith, Bool-cases, inl, inr, subst, sym,
}
use go_cedar.Logger.{
  Formatting, Logger, Severity, debug_log, success_log, info_log, warning_log, error_log, fatal_log,
  Part, words, Entry, spaces, padding, write, debug, debugf, debugw, success, successf, successw,
  info, infof, infow, warn, warnf, warnw, error, errorf, errorw, fatalf, is_logged,
}

pub data Call (Arg : Type 0) : Type 0 where
  calls_debug calls_success calls_warn calls_error : List Arg → Call Arg
  calls_debugf calls_successf calls_warnf calls_errorf calls_fatalf : List ℕ → List Arg → Call Arg
  calls_debugw calls_successw calls_infow calls_warnw calls_errorw : List ℕ → Arg → Call Arg
  calls_info : ℤ → List Arg → Call Arg
  calls_infof : ℤ → List ℕ → List Arg → Call Arg

abbrev pub severity_of : {Arg : Type 0} → Call Arg → Severity
severity_of (calls_debug _) = debug_log
severity_of (calls_debugf _ _) = debug_log
severity_of (calls_debugw _ _) = debug_log
severity_of (calls_success _) = success_log
severity_of (calls_successf _ _) = success_log
severity_of (calls_successw _ _) = success_log
severity_of (calls_info _ _) = info_log
severity_of (calls_infof _ _ _) = info_log
severity_of (calls_infow _ _) = info_log
severity_of (calls_warn _) = warning_log
severity_of (calls_warnf _ _) = warning_log
severity_of (calls_warnw _ _) = warning_log
severity_of (calls_error _) = error_log
severity_of (calls_errorf _ _) = error_log
severity_of (calls_errorw _ _) = error_log
severity_of (calls_fatalf _ _) = fatal_log

-- A line with a prefix starts with prefix and padding, together of the given width.
abbrev pub HasWidth : {Arg : Type 0} → Bool → ℕ → List (Part Arg) → Type 0
HasWidth false n parts = Unit
HasWidth true n (words prefix ∷ words pad ∷ words t ∷ []) = length prefix + length pad ≡ n
HasWidth true n _ = ⊥

-- What is written: so many lines, of the severity, and as wide.
abbrev pub AreLines : {Arg : Type 0} → Severity → Bool → ℕ → List (Entry Arg) → Type 0
AreLines s b n [] = Unit
AreLines s b n (e ∷ es) = (e.severity ≡ s) × HasWidth b n e.parts × AreLines s b n es

length-spaces : (n : ℕ) → length (spaces n) ≡ n
length-spaces zero = refl
length-spaces (suc n) = omega (arith, length-spaces n)

module _ (env : Formatting) where
  open env use {Arg}

  -- A call is silent where its verbose level is above 0 and not enabled.
  abbrev pub lines_of : Call Arg → ℕ
  lines_of (calls_info level _) = if is_logged env level then 1 else 0
  lines_of (calls_infof level _ _) = if is_logged env level then 1 else 0
  lines_of _ = 1

  unfoldable pub log : Call Arg → ℕ → Logger → Outcome (List (Entry Arg))
  log (calls_debug args) = debug env args
  log (calls_debugf format args) = debugf env format args
  log (calls_debugw msg fields) = debugw env msg fields
  log (calls_success args) = success env args
  log (calls_successf format args) = successf env format args
  log (calls_successw msg fields) = successw env msg fields
  log (calls_info level args) = info env level args
  log (calls_infof level format args) = infof env level format args
  log (calls_infow msg fields) = infow env msg fields
  log (calls_warn args) = warn env args
  log (calls_warnf format args) = warnf env format args
  log (calls_warnw msg fields) = warnw env msg fields
  log (calls_error args) = error env args
  log (calls_errorf format args) = errorf env format args
  log (calls_errorw msg fields) = errorw env msg fields
  log (calls_fatalf format args) = fatalf env format args

  -- A call that writes so many lines, of the severity, and as wide as the longest prefix.
  abbrev pub Writes : Severity → ℕ → ℕ → Logger → Outcome (List (Entry Arg)) → Type 0
  Writes s n longest l r =
      (entries : List (Entry Arg)) × (r ≡ ok entries)
      × (length entries ≡ n)
      × AreLines s l.has_prefix longest entries

  padding_fits :
      (longest : ℕ) (prefix : List ℕ)
      → length prefix ≤ longest
      → padding longest prefix ≡ ok (spaces (longest - length prefix))
  unfolding padding
  padding_fits longest prefix h = ground arith

  write-Writes :
      (s : Severity) (plain : List (Part Arg)) (t : List ℕ) (longest : ℕ) (l : Logger)
      → (l.has_prefix ≡ true → length l.log_prefix ≤ longest)
      → Writes s 1 longest l (write env s plain t longest l)
  unfolding write
  write-Writes s plain t longest l h = elim (Bool-cases l.has_prefix) [
    | inl e ↦
        let pad = spaces (longest - length l.log_prefix) in
        (
          record { severity = s; parts = words l.log_prefix ∷ words pad ∷ words t ∷ [] } ∷ [],
          ground (arith, e, padding_fits longest l.log_prefix),
          refl,
          (
            refl,
            subst
                (λ b.
                  HasWidth {Arg = Arg} b longest (words l.log_prefix ∷ words pad ∷ words t ∷ []))
                (sym e) (omega (arith, h e, length-spaces (longest - length l.log_prefix))),
            tt,
          ),
        )
    | inr e ↦ (
      record { severity = s; parts = plain } ∷ [],
      ground (arith, e),
      refl,
      (refl, subst (λ b. HasWidth {Arg = Arg} b longest plain) (sym e) tt, tt),
    )
  ]

  write_if :
      (b : Bool) (s : Severity) (plain : List (Part Arg)) (t : List ℕ) (longest : ℕ) (l : Logger)
      → (l.has_prefix ≡ true → length l.log_prefix ≤ longest)
      → Writes s (if b then 1 else 0) longest l (if b then write env s plain t longest l else ok [])
  write_if true s plain t longest l h = write-Writes s plain t longest l h
  write_if false s plain t longest l h = ([], refl, refl, tt)

  -- A logger whose prefix is not longer than the longest one: every call writes its lines.
  pub log-Writes :
      (c : Call Arg) (longest : ℕ) (l : Logger)
      → (l.has_prefix ≡ true → length l.log_prefix ≤ longest)
      → Writes (severity_of c) (lines_of c) longest l (log c longest l)
  unfolding log debug debugf debugw success successf successw info infof infow warn warnf warnw
      error errorf errorw fatalf
  log-Writes (calls_info level args) n l h = write_if (is_logged env level) _ _ _ n l h
  log-Writes (calls_infof level format args) n l h = write_if (is_logged env level) _ _ _ n l h
  log-Writes (calls_debug args) n l h = write-Writes _ _ _ n l h
  log-Writes (calls_debugf format args) n l h = write-Writes _ _ _ n l h
  log-Writes (calls_debugw msg fields) n l h = write-Writes _ _ _ n l h
  log-Writes (calls_success args) n l h = write-Writes _ _ _ n l h
  log-Writes (calls_successf format args) n l h = write-Writes _ _ _ n l h
  log-Writes (calls_successw msg fields) n l h = write-Writes _ _ _ n l h
  log-Writes (calls_infow msg fields) n l h = write-Writes _ _ _ n l h
  log-Writes (calls_warn args) n l h = write-Writes _ _ _ n l h
  log-Writes (calls_warnf format args) n l h = write-Writes _ _ _ n l h
  log-Writes (calls_warnw msg fields) n l h = write-Writes _ _ _ n l h
  log-Writes (calls_error args) n l h = write-Writes _ _ _ n l h
  log-Writes (calls_errorf format args) n l h = write-Writes _ _ _ n l h
  log-Writes (calls_errorw msg fields) n l h = write-Writes _ _ _ n l h
  log-Writes (calls_fatalf format args) n l h = write-Writes _ _ _ n l h
