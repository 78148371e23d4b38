-- ===== src/Logger/Labels.antt =====
-- Loggers of log/logger.go that are made and labelled, and share `longestLabel`.
use go_cedar.Base.{
  ℕ, zero, suc, ◌≤◌, ◌≡◌, List, [], ◌∷◌, true, false, none, some, ok, length, get_elem?, set, arith,
  Option-cases, inl, inr, subst,
}
use go_cedar.Logger.{
  Formatting, Logger, set_log_label, new_logger, is_empty, bracketed, words, debug_log, write,
  debugf, get_log_prefix, get_log_label,
}
use go_cedar.Logger.Calls.{Call, severity_of, lines_of, Writes, log, log-Writes}

pub record Loggers : Type 0 where
  pub longest_label : ℕ
  pub loggers : List Logger

-- A logger is made, or the one at a place gets a label.
pub data Event : Type 0 where
  makes : List ℕ → Event
  labels : ℕ → List ℕ → Event

unfoldable pub exec : Event → Loggers → Loggers
exec (makes label) s =
    let (n, l) = new_logger label s.longest_label in
    record { longest_label = n; loggers = l ∷ s.loggers }
exec (labels k label) s = elim (get_elem? s.loggers k) [
  | none ↦ s
  | some old ↦
      let (n, l) = set_log_label label s.longest_label old in
      record { longest_label = n; loggers = set s.loggers k l }
]

unfoldable pub exec_all : List Event → Loggers → Loggers
exec_all [] s = s
exec_all (e ∷ es) s = exec_all es (exec e s)

abbrev pub no_loggers : Loggers
no_loggers = record { longest_label = 0; loggers = [] }

-- Every prefix that is used is as long as the longest one at most.
abbrev Fits : ℕ → Logger → Type 0
Fits n l = l.has_prefix ≡ true → length l.log_prefix ≤ n

abbrev AllFit : ℕ → List Logger → Type 0
AllFit n [] = Unit
AllFit n (l ∷ ls) = Fits n l × AllFit n ls

AllFit-le : (n m : ℕ) (ls : List Logger) → n ≤ m → AllFit n ls → AllFit m ls
AllFit-le n m [] h a = tt
AllFit-le n m (l ∷ ls) h (f, a) = ((λ e. omega (arith, f e)), AllFit-le n m ls h a)

AllFit-set :
    (n k : ℕ) (l : Logger) (ls : List Logger) → Fits n l → AllFit n ls → AllFit n (set ls k l)
AllFit-set n k l [] f a = tt
AllFit-set n zero l (x ∷ ls) f (g, a) = (f, a)
AllFit-set n (suc k) l (x ∷ ls) f (g, a) = (g, AllFit-set n k l ls f a)

AllFit-get :
    (n k : ℕ) (l : Logger) (ls : List Logger) → get_elem? ls k ≡ some l → AllFit n ls → Fits n l
AllFit-get n k l [] h a = cc
AllFit-get n zero l (x ∷ ls) h (f, a) = let g : x ≡ l = ground arith in subst (Fits n) g f
AllFit-get n (suc k) l (x ∷ ls) h (f, a) = AllFit-get n k l ls h a

set_log_label-Fits :
    (label : List ℕ) (n : ℕ) (l : Logger)
    → let (m, l') = set_log_label label n l in (n ≤ m) × Fits m l'
unfolding set_log_label
set_log_label-Fits label n l = ground arith

new_logger-Fits : (label : List ℕ) (n : ℕ) → let (m, l) = new_logger label n in (n ≤ m) × Fits m l
unfolding new_logger set_log_label
new_logger-Fits label n = ground arith

abbrev Sound : Loggers → Type 0
Sound s = AllFit s.longest_label s.loggers

exec-Sound : (e : Event) (s : Loggers) → Sound s → Sound (exec e s)
unfolding exec
exec-Sound (makes label) s a =
    let (le, f) = new_logger-Fits label s.longest_label in
    (f, AllFit-le s.longest_label _ s.loggers le a)
exec-Sound (labels k label) s a = elim (Option-cases (get_elem? s.loggers k)) [
  | inl n ↦ let g : s ≡ exec (labels k label) s = ground (arith, n) in subst Sound g a
  | inr (old, h) ↦
      let (le, f) = set_log_label-Fits label s.longest_label old in
      let (n, l) = set_log_label label s.longest_label old in
      let g : record { longest_label = n; loggers = set s.loggers k l } ≡ exec (labels k label) s =
        ground (arith, h) in
      subst Sound g (AllFit-set n k l s.loggers f (AllFit-le s.longest_label n s.loggers le a))
]

exec_all-Sound : (es : List Event) (s : Loggers) → Sound s → Sound (exec_all es s)
unfolding exec_all
exec_all-Sound [] s a = a
exec_all-Sound (e ∷ es) s a = exec_all-Sound es (exec e s) (exec-Sound e s a)

module _ (env : Formatting) where
  open env use {Arg}

  -- After any making and labelling of loggers, every logging call of every logger goes through, in
  -- particular `strings.Repeat` gets no negative count. The call writes one line, or none where its
  -- verbose level is above 0 and not enabled; the line has the method's severity; and where the
  -- logger has a prefix, prefix and padding are together as long as the longest prefix so far.
  pub log_aligned :
      (es : List Event) (k : ℕ) (l : Logger) (c : Call Arg)
      → get_elem? (exec_all es no_loggers).loggers k ≡ some l
      → let n = (exec_all es no_loggers).longest_label in
        Writes env (severity_of c) (lines_of env c) n l (log env c n l)
  log_aligned es k l c h =
      let s = exec_all es no_loggers in
      log-Writes env c s.longest_label l
        (AllFit-get s.longest_label k l s.loggers h (exec_all-Sound es no_loggers tt))

  -- After a label has been set and then the empty one, `GetLogPrefix` still gives the old label's
  -- prefix, while the lines have none.
  pub stale_prefix :
      (label format : List ℕ) (args : List Arg) (n : ℕ) (l : Logger)
      → is_empty label ≡ false
      → let (m, l') = set_log_label label n l in
        let (m', l'') = set_log_label [] m l' in
        (get_log_prefix l'' ≡ bracketed label)
        × (get_log_label l'' ≡ [])
        × (debugf env format args m' l''
            ≡ ok (
                record { severity = debug_log; parts = words (env.sprintf format args) ∷ [] } ∷ []))
  unfolding set_log_label get_log_prefix get_log_label debugf write
  stale_prefix label format args n l h = ground arith
