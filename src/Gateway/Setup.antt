-- ===== src/Gateway/Setup.antt =====
-- final-assignment/main-server.c, `main` and `prevent_zombie`: the server and its log process over the
-- pipe, as a step relation. A step is a call of `main` in either process, a report of `data_mgr` through
-- `write_to_pipe`, or the handler of SIGCHLD. What the system answers is an argument of the step.
pub mod Shutdown
pub mod Ending
mod Tests
use linux_programing.Common.{
  ℕ, ◌≡◌, Bool, true, false, Option, none, some, List, [], ◌∷◌, ◌++◌, ◌&&◌, ◌||◌, ◌==◌, leb, length,
  if◌then◌else◌,
}

-- The parent before each of its calls and with its threads running; it has ended, or SIGPIPE has ended
-- it. `pthread_join` never returns for all threads, whose loops have no end.
pub data Parent : Type 0 where
  p_pipe p_fork p_close p_signal p_create p_running p_gone p_killed : Parent

-- The child before it exists, and before each of its calls; `c_write` has a block in `recv_buf`. It has
-- ended by `_exit(0)` or by `merror_exit`.
pub data Child : Type 0 where
  c_absent c_close c_open c_read : Child
  c_write : (recv_buf : List ℕ) → Child
  c_finish c_exited c_failed : Child

-- `pipe` holds blocks, oldest first; `sent` are those ever written to it, and `attempts` those that the
-- child has tried to append to `gateway.log`, with the result. The ends of the pipe are those that each
-- process has open. `opened` is whether the file could be opened.
pub record State : Type 0 where
  pub parent : Parent
  pub child : Child
  pub pipe : List (List ℕ)
  pub sent : List (List ℕ)
  pub attempts : List (List ℕ × Bool)
  pub parent_reads : Bool
  pub parent_writes : Bool
  pub child_reads : Bool
  pub child_writes : Bool
  pub opened : Bool
  pub handler : Bool
  pub pending : Bool
  pub reaped : Bool

abbrev pub initial : State
initial = record {
  parent = p_pipe;
  child = c_absent;
  pipe = [];
  sent = [];
  attempts = [];
  parent_reads = false;
  parent_writes = false;
  child_reads = false;
  child_writes = false;
  opened = false;
  handler = false;
  pending = false;
  reaped = false;
}

-- The end of the parent closes its ends, and leaves no one to handle a signal.
left : Parent → State → State
left p s = record s {
  parent = p;
  parent_reads = false;
  parent_writes = false;
  pending = false;
  handler = false;
}

-- What the system answers to the parent: what ends it, such as a failed call or a signal
-- from outside, success, or a call of `write_to_pipe`
-- with whether `write` succeeds. Of the threads, `connection_mgr` ends the process when `bind` or `select` fails.
pub data Act : Type 0 where
  quits goes_on : Act
  reports : (msg : List ℕ) → (written : Bool) → Act

-- `write` waits while the pipe is full, and raises SIGPIPE when no process can read.
report : (capacity : ℕ) → List ℕ → (written : Bool) → State → Option State
unfolding left
report capacity msg written s =
    if s.parent_reads || s.child_reads
    then if leb capacity (length s.pipe)
      then none
      else some
          (if written then record s { pipe = s.pipe ++ msg ∷ []; sent = s.sent ++ msg ∷ [] } else s)
    else some (left p_killed s)

parent_at : (capacity : ℕ) → Parent → Act → State → Option State
unfolding left report
parent_at capacity p_gone act s = none
parent_at capacity p_killed act s = none
parent_at capacity p quits s = some (left p_gone s)
parent_at capacity p_pipe goes_on s =
    some (record s { parent = p_fork; parent_reads = true; parent_writes = true })
parent_at capacity p_fork goes_on s = some (record s {
  parent = p_close;
  child = c_close;
  child_reads = s.parent_reads;
  child_writes = s.parent_writes;
})
parent_at capacity p_close goes_on s = some (record s { parent = p_signal; parent_reads = false })
parent_at capacity p_signal goes_on s = some (record s { parent = p_create; handler = true })
parent_at capacity p_create goes_on s = some (record s { parent = p_running })
parent_at capacity p_running (reports msg written) s = report capacity msg written s
parent_at capacity p act s = none

pub parent_step : (capacity : ℕ) → Act → State → Option State
unfolding parent_at
parent_step capacity act s = parent_at capacity s.parent act s

-- The end of the child closes its ends and sends SIGCHLD, which is dropped when no handler is set.
ended : Child → State → State
ended c s = record s { child = c; child_reads = false; child_writes = false; pending = s.handler }

-- What the system answers to the child: whether the call succeeds, and what `open` returns, `none`
-- for -1.
pub record Answer : Type 0 where
  pub succeeds : Bool
  pub fd : Option ℕ

-- `read` waits while the pipe is empty and a process can write to it, and then returns 0.
read_pipe : List (List ℕ) → State → Option State
read_pipe (block ∷ blocks) s = some (record s { child = c_write block; pipe = blocks })
read_pipe [] s =
    if s.parent_writes || s.child_writes then none else some (record s { child = c_finish })

-- `if(!fd)` ends the child when `open` returns 0, and takes -1 for a file.
open_log : Option ℕ → State → State
unfolding ended
open_log none s = record s { child = c_read; opened = false }
open_log (some fd) s =
    if fd == 0 then ended c_failed s else record s { child = c_read; opened = true }

child_at : Child → Answer → State → Option State
unfolding ended open_log read_pipe
child_at c_close a s =
    some
      (if a.succeeds then record s { child = c_open; child_writes = false } else ended c_failed s)
child_at c_open a s = some (open_log a.fd s)
child_at c_read a s = if a.succeeds then read_pipe s.pipe s else some (ended c_failed s)
child_at (c_write recv_buf) a s =
    some (record s {
      child = c_read;
      attempts = s.attempts ++ (recv_buf, a.succeeds && s.opened) ∷ [];
    })
child_at c_finish a s = some (ended (if a.succeeds then c_exited else c_failed) s)
child_at _ a s = none

pub child_step : Answer → State → Option State
unfolding child_at
child_step a s = child_at s.child a s

-- `wait(NULL)` takes the child, which has ended.
pub prevent_zombie : State → State
prevent_zombie s = record s { pending = false; reaped = true }

pub data Step (capacity : ℕ) (s : State) : State → Type 0 where
  run_parent : {t : State} (act : Act) → parent_step capacity act s ≡ some t → Step capacity s t
  run_child : {t : State} (a : Answer) → child_step a s ≡ some t → Step capacity s t
  signalled : s.pending ≡ true → Step capacity s (prevent_zombie s)

pub data Run (capacity : ℕ) (s : State) : State → Type 0 where
  here : Run capacity s s
  next : {t u : State} → Run capacity s t → Step capacity t u → Run capacity s u
