-- ===== src/Gateway/LogPipe.antt =====
-- The way of a log message: `_log` and `write_to_pipe` of final-assignment/shared/os_file.c, and the
-- child process in `main` of final-assignment/main-server.c, which appends what it reads to a file.
pub mod Relay
use linux_programing.Common.{
  ℕ, zero, suc, ◌-◌, Bool, true, false, Option, none, some, List, [], ◌∷◌, ◌++◌, length, take, ltb,
  ◌==◌, if◌then◌else◌,
}

-- `OS_MSG_SIZE`
abbrev pub os_msg_size : ℕ
os_msg_size = 128

-- The formatted text in `char msg[OS_MSG_SIZE]`, whose other bytes are whatever the stack held:
-- `none` when `vsprintf` writes behind the array.
pub format_msg : (stack : List ℕ) → (text : List ℕ) → Option (List ℕ)
format_msg stack text =
    if ltb (length text) os_msg_size
    then some (text ++ 0 ∷ take (os_msg_size - 1 - length text) stack)
    else none

-- The blocks in the pipe, oldest first, behind a call of `write_to_pipe`, whose mutex makes it one
-- step; `written` is whether `write` succeeds.
pub write_to_pipe :
    (written : Bool) → (stack : List ℕ) → (text : List ℕ) → List (List ℕ) → Option (List (List ℕ))
unfolding format_msg
write_to_pipe written stack text pipe = elim (format_msg stack text) [
  | none ↦ none
  | some block ↦ some (if written then pipe ++ block ∷ [] else pipe)
]

-- `strlen(recv_buf)` bytes of the buffer.
pub c_string : List ℕ → List ℕ
c_string [] = []
c_string (c ∷ bytes) = let rest = c_string bytes in if c == 0 then [] else c ∷ rest

-- The loop of the child over the blocks that `read` returns, each with whether `write` succeeds.
pub append_blocks : List (List ℕ × Bool) → (log : List ℕ) → List ℕ
unfolding c_string
append_blocks [] log = log
append_blocks ((block, written) ∷ reads) log =
    append_blocks reads (if written then log ++ c_string block else log)
