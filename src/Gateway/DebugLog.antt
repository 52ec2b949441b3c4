-- ===== src/Gateway/DebugLog.antt =====
-- final-assignment/shared/os_debug.c: the lines of logs/debug.log. The clock, the process id and the
-- answers of `fopen` are arguments, and so is the text that `vfprintf` makes of a message.
pub mod Lines
mod Tests
use linux_programing.Common.{
  ℕ, zero, suc, ◌+◌, Bool, true, false, Option, none, some, List, [], ◌∷◌, ◌++◌, ◌==◌, ltb, leb,
  get_elem?, if◌then◌else◌,
}
use linux_programing.Common.Int.{ℤ, pos, negsuc}
use linux_programing.Gateway.Files.{is_file}

-- `strlevel`
abbrev strlevel : List (List ℕ)
strlevel =
    (b'D' ∷ b'E' ∷ b'B' ∷ b'U' ∷ b'G' ∷ [])
    ∷ (b'I' ∷ b'N' ∷ b'F' ∷ b'O' ∷ [])
    ∷ (b'W' ∷ b'A' ∷ b'R' ∷ b'N' ∷ b'I' ∷ b'N' ∷ b'G' ∷ [])
    ∷ (b'E' ∷ b'R' ∷ b'R' ∷ b'O' ∷ b'R' ∷ [])
    ∷ (b'C' ∷ b'R' ∷ b'I' ∷ b'T' ∷ b'I' ∷ b'C' ∷ b'A' ∷ b'L' ∷ [])
    ∷ []

-- Where a call stands: `__FILE__`, `__LINE__` and `__func__`.
pub record Place : Type 0 where
  pub file : List ℕ
  pub line : ℕ
  pub func : List ℕ

-- A line: the timestamp, the process and the place when debugging, the name of the level, the text.
pub record Line : Type 0 where
  pub timestamp : List ℕ
  pub origin : Option (ℕ × Place)
  pub level : List ℕ
  pub text : List ℕ

-- The lines of the log file, `none` when there is no such file, and how often the mutex was initialised.
pub record Logger : Type 0 where
  pub dbg_flag : ℕ
  pub pid : ℕ
  pub initialized : Bool
  pub mutex_inits : ℕ
  pub logfile : Option (List Line)

-- What one call meets: the timestamp, `getpid`, and whether `fopen` succeeds.
pub record Meets : Type 0 where
  pub timestamp : List ℕ
  pub getpid : ℕ
  pub fopen : Bool

-- What follows the last '/', as `strrchr` finds it.
abbrev pub after_slash : List ℕ → Option (List ℕ)
after_slash [] = none
after_slash (c ∷ path) = elim (after_slash path) [
  | some name ↦ some name
  | none ↦ if c == b'/' then some path else none
]

pub base_name : List ℕ → List ℕ
base_name path = elim (after_slash path) [ none ↦ path | some name ↦ name ]

pub logging_init : ℕ → Logger → Logger
logging_init getpid l = record l { mutex_inits = l.mutex_inits + 1; pid = getpid }

-- `fopen` for appending when the file is there, and for writing, which makes it empty, when it is not.
open_log : Option (List Line) → List Line
unfolding is_file
open_log file = elim (is_file (elim file [ none ↦ false | some lines ↦ true ]) true) [
  | pos n ↦ elim file [ none ↦ [] | some lines ↦ lines ]
  | negsuc n ↦ []
]

-- `none`: `strlevel[level]` is outside the array.
pub log : (level : ℕ) → Place → (text : List ℕ) → Meets → Logger → Option Logger
unfolding open_log logging_init base_name
log level p text m l =
    let l1 : Logger = if l.initialized then l else logging_init m.getpid l in
    let origin : Option (ℕ × Place) =
      if ltb 0 l1.dbg_flag then some (l1.pid, record p { file = base_name p.file }) else none in
    if m.fopen
    then (elim (get_elem? strlevel level) [
      | none ↦ none
      | some name ↦ some (record l1 {
        logfile = some (
            open_log l1.logfile
            ++ record { timestamp = m.timestamp; origin = origin; level = name; text = text } ∷ []);
      })
    ])
    else some l1

pub data Call : Type 0 where
  minfo mwarn mdebug merror merror_exit : Place → (text : List ℕ) → Meets → Call
  use_debug : Call

pub data Outcome : Type 0 where
  running : Logger → Outcome
  exited : Logger → Outcome
  bad_access : Outcome

logged : Option Logger → Outcome
logged none = bad_access
logged (some l) = running l

exit_after : Option Logger → Outcome
exit_after none = bad_access
exit_after (some l) = exited l

raise_flag : Logger → Logger
raise_flag l = record l { dbg_flag = l.dbg_flag + 1 }

pub call : Call → Logger → Outcome
unfolding log logged exit_after raise_flag
call (minfo p text m) l = logged (log 1 p text m l)
call (mwarn p text m) l = logged (log 2 p text m l)
call (mdebug p text m) l = if leb 1 l.dbg_flag then logged (log 0 p text m l) else running l
call (merror p text m) l = logged (log 3 p text m l)
call (merror_exit p text m) l = exit_after (log 4 p text m l)
call use_debug l = running (raise_flag l)

pub calls : List Call → Logger → Outcome
calls [] l = running l
calls (c ∷ cs) l = elim (call c l) [
  | running k ↦ calls cs k
  | exited k ↦ exited k
  | bad_access ↦ bad_access
]

-- The static variables at the start, with the file as an earlier run left it.
abbrev pub start : Option (List Line) → Logger
start file = record { dbg_flag = 0; pid = 0; initialized = false; mutex_inits = 0; logfile = file }
