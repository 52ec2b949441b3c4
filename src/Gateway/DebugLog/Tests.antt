-- ===== src/Gateway/DebugLog/Tests.antt =====
-- The debug log at concrete calls.
use linux_programing.Common.{◌≡◌, ◌++◌, true, none, List, [], ◌∷◌}
use linux_programing.Gateway.DebugLog.{
  Place, Meets, Call, minfo, mdebug, merror_exit, use_debug, calls, start,
}
use linux_programing.Gateway.DebugLog.Lines.{Ended, contents, lines_of, logging, calls-lines}

abbrev place : Place
place = record { file = b'/' ∷ b'a' ∷ []; line = 7; func = b'f' ∷ [] }

abbrev meets : Meets
meets = record { timestamp = b't' ∷ []; getpid = 42; fopen = true }

abbrev cs : List Call
cs =
    mdebug place (b'x' ∷ []) meets
    ∷ minfo place (b'y' ∷ []) meets
    ∷ use_debug
    ∷ mdebug place (b'z' ∷ []) meets
    ∷ merror_exit place [] meets
    ∷ minfo place [] meets
    ∷ []

calls-lines_example :
    Ended
      (λ l. (contents l.logfile ≡ contents none ++ lines_of 0 cs) × (l.mutex_inits ≡ logging 0 cs))
      (calls cs (start none))
calls-lines_example = calls-lines cs none
