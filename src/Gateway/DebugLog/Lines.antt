-- ===== src/Gateway/DebugLog/Lines.antt =====
-- os_debug.c: the lines that stand in the log file after a series of calls.
use mathlib.Core.List.{append_assoc, append-nil}
use linux_programing.Common.{
  ℕ, ◌+◌, ◌≡◌, refl, ◌∙◌, sym, ap, false, Option, none, some, List, [], ◌∷◌, ◌++◌, ltb, leb, arith,
  get_elem?, if◌then◌else◌, Bool-cases, inl, inr,
}
use linux_programing.Gateway.Files.{is_file}
use linux_programing.Gateway.DebugLog.{
  raise_flag, strlevel, Place, Line, Logger, Meets, base_name, logging_init, open_log, log, Call,
  minfo, mwarn, mdebug, merror, merror_exit, use_debug, Outcome, running, exited, bad_access,
  logged, exit_after, call, calls, start,
}

abbrev pub contents : Option (List Line) → List Line
contents none = []
contents (some lines) = lines

-- The line of a call, when the file can be opened.
abbrev pub line_of : (dbg_flag : ℕ) → (level : List ℕ) → Place → List ℕ → Meets → List Line
line_of d level p text m =
    if m.fopen
    then record {
      timestamp = m.timestamp;
      origin = if ltb 0 d then some (m.getpid, record p { file = base_name p.file }) else none;
      level = level;
      text = text;
    }
      ∷ []
    else []

-- The lines that a series of calls leaves, and how many of the calls reach the file.
abbrev pub lines_of : ℕ → List Call → List Line
lines_of d [] = []
lines_of d (minfo p text m ∷ cs) =
    line_of d (b'I' ∷ b'N' ∷ b'F' ∷ b'O' ∷ []) p text m ++ lines_of d cs
lines_of d (mwarn p text m ∷ cs) =
    line_of d (b'W' ∷ b'A' ∷ b'R' ∷ b'N' ∷ b'I' ∷ b'N' ∷ b'G' ∷ []) p text m ++ lines_of d cs
lines_of d (mdebug p text m ∷ cs) =
    (if leb 1 d then line_of d (b'D' ∷ b'E' ∷ b'B' ∷ b'U' ∷ b'G' ∷ []) p text m else [])
    ++ lines_of d cs
lines_of d (merror p text m ∷ cs) =
    line_of d (b'E' ∷ b'R' ∷ b'R' ∷ b'O' ∷ b'R' ∷ []) p text m ++ lines_of d cs
lines_of d (merror_exit p text m ∷ cs) =
    line_of d (b'C' ∷ b'R' ∷ b'I' ∷ b'T' ∷ b'I' ∷ b'C' ∷ b'A' ∷ b'L' ∷ []) p text m
lines_of d (use_debug ∷ cs) = lines_of (d + 1) cs

abbrev pub logging : ℕ → List Call → ℕ
logging d [] = 0
logging d (mdebug p text m ∷ cs) = (if leb 1 d then 1 else 0) + logging d cs
logging d (merror_exit p text m ∷ cs) = 1
logging d (use_debug ∷ cs) = logging (d + 1) cs
logging d (c ∷ cs) = 1 + logging d cs

-- The logger of a series that went on or ended by `exit`.
abbrev pub Ended : (P : Logger → Type 0) → Outcome → Type 0
Ended P (running l) = P l
Ended P (exited l) = P l
Ended P bad_access = ⊥

open_log-contents : (file : Option (List Line)) → open_log file ≡ contents file
unfolding open_log is_file
open_log-contents none = refl
open_log-contents (some lines) = refl

-- `flags.initialized` is never set.
abbrev logger : (dbg_flag pid mutex_inits : ℕ) → Option (List Line) → Logger
logger d pid n file = record {
  dbg_flag = d;
  pid = pid;
  initialized = false;
  mutex_inits = n;
  logfile = file;
}

abbrev extended : Option (List Line) → List Line → Meets → Option (List Line)
extended file lines m = if m.fopen then some (contents file ++ lines) else file

log_lem :
    (level : ℕ) (name : List ℕ) (p : Place) (text : List ℕ) (m : Meets) (d pid n : ℕ)
    (file : Option (List Line))
    → get_elem? strlevel level ≡ some name
    → log level p text m (logger d pid n file)
      ≡ some (logger d m.getpid (n + 1) (extended file (line_of d name p text m) m))
unfolding log logging_init
log_lem level name p text m d pid n file known = elim (Bool-cases m.fopen) [
  | inl opened ↦ rw (opened, known, open_log-contents file) refl
  | inr closed ↦ rw closed refl
]

contents-extended :
    (file : Option (List Line)) (d : ℕ) (name : List ℕ) (p : Place) (text : List ℕ) (m : Meets)
    → contents (extended file (line_of d name p text m) m)
      ≡ contents file ++ line_of d name p text m
contents-extended file d name p text m = elim (Bool-cases m.fopen) [
  | inl opened ↦ rw opened refl
  | inr closed ↦ rw closed (sym (append-nil (contents file)))
]

-- The file is the old one with `lines` behind it, and the mutex was initialised `k` times more.
abbrev Wrote : Option (List Line) → List Line → ℕ → Logger → Type 0
Wrote file lines k l = (contents l.logfile ≡ contents file ++ lines) × (l.mutex_inits ≡ k)

Ended-map :
    (P Q : Logger → Type 0) (o : Outcome) → ((l : Logger) → P l → Q l) → Ended P o → Ended Q o
Ended-map P Q (running l) f e = f l e
Ended-map P Q (exited l) f e = f l e
Ended-map P Q bad_access f e = e

-- A line, and what the later calls add.
line-Wrote :
    (file : Option (List Line)) (d : ℕ) (name : List ℕ) (p : Place) (text : List ℕ) (m : Meets)
    (lines : List Line) (j k : ℕ) (o : Outcome)
    → j ≡ k
    → Ended (Wrote (extended file (line_of d name p text m) m) lines j) o
    → Ended (Wrote file (line_of d name p text m ++ lines) k) o
line-Wrote file d name p text m lines j k o same e =
    Ended-map _ (Wrote file (line_of d name p text m ++ lines) k) o
      (λ l w. (
        w.0
            ∙ (ap (λ c. c ++ lines) (contents-extended file d name p text m)
                ∙ append_assoc (contents file) (line_of d name p text m) lines),
        w.1 ∙ same,
      ))
      e

calls-Wrote :
    (cs : List Call) (d pid n : ℕ) (file : Option (List Line))
    → Ended (Wrote file (lines_of d cs) (n + logging d cs)) (calls cs (logger d pid n file))
unfolding calls call logged exit_after raise_flag
calls-Wrote [] d pid n file = (sym (append-nil (contents file)), omega arith)
calls-Wrote (minfo p text m ∷ cs) d pid n file =
    rw (calls, log_lem 1 (b'I' ∷ b'N' ∷ b'F' ∷ b'O' ∷ []) p text m d pid n file refl)
      (line-Wrote file d (b'I' ∷ b'N' ∷ b'F' ∷ b'O' ∷ []) p text m (lines_of d cs) _ _ _
        (omega arith) (calls-Wrote cs d m.getpid (n + 1) _))
calls-Wrote (mwarn p text m ∷ cs) d pid n file =
    rw
      (
        calls,
        log_lem 2 (b'W' ∷ b'A' ∷ b'R' ∷ b'N' ∷ b'I' ∷ b'N' ∷ b'G' ∷ []) p text m d pid n file refl,
      )
      (line-Wrote file d (b'W' ∷ b'A' ∷ b'R' ∷ b'N' ∷ b'I' ∷ b'N' ∷ b'G' ∷ []) p text m
        (lines_of d cs) _ _ _ (omega arith) (calls-Wrote cs d m.getpid (n + 1) _))
calls-Wrote (merror p text m ∷ cs) d pid n file =
    rw (calls, log_lem 3 (b'E' ∷ b'R' ∷ b'R' ∷ b'O' ∷ b'R' ∷ []) p text m d pid n file refl)
      (line-Wrote file d (b'E' ∷ b'R' ∷ b'R' ∷ b'O' ∷ b'R' ∷ []) p text m (lines_of d cs) _ _ _
        (omega arith) (calls-Wrote cs d m.getpid (n + 1) _))
calls-Wrote (mdebug p text m ∷ cs) d pid n file = elim (Bool-cases (leb 1 d)) [
  | inl debugging ↦
      rw
        (
          calls,
          debugging,
          log_lem 0 (b'D' ∷ b'E' ∷ b'B' ∷ b'U' ∷ b'G' ∷ []) p text m d pid n file refl,
        )
        (line-Wrote file d (b'D' ∷ b'E' ∷ b'B' ∷ b'U' ∷ b'G' ∷ []) p text m (lines_of d cs) _ _ _
          (omega arith) (calls-Wrote cs d m.getpid (n + 1) _))
  | inr quiet ↦
      let none_more : 0 + logging d cs ≡ logging d cs = omega arith in
      rw (calls, quiet, none_more) (calls-Wrote cs d pid n file)
]
calls-Wrote (merror_exit p text m ∷ cs) d pid n file =
    rw
      (
        calls,
        log_lem 4 (b'C' ∷ b'R' ∷ b'I' ∷ b'T' ∷ b'I' ∷ b'C' ∷ b'A' ∷ b'L' ∷ []) p text m d pid n file
            refl,
      )
      (
        contents-extended file d (b'C' ∷ b'R' ∷ b'I' ∷ b'T' ∷ b'I' ∷ b'C' ∷ b'A' ∷ b'L' ∷ []) p text
            m,
        refl,
      )
calls-Wrote (use_debug ∷ cs) d pid n file = calls-Wrote cs (d + 1) pid n file

-- After any series of calls from the start of the program, the log file has the lines it had before,
-- and behind them one for each call that could open the file, in order: debug messages only after
-- `use_debug`, and none behind `merror_exit`. No level is outside the table of names. The mutex of
-- the log was initialised anew by every call that logs.
pub calls-lines :
    (cs : List Call) (file : Option (List Line))
    → Ended
        (λ l.
          (contents l.logfile ≡ contents file ++ lines_of 0 cs) × (l.mutex_inits ≡ logging 0 cs))
        (calls cs (start file))
calls-lines cs file =
    let all : 0 + logging 0 cs ≡ logging 0 cs = omega arith in rw all at (calls-Wrote cs 0 0 0 file)
