-- ===== src/Threads/RelatedPipe.antt =====
-- 07-pipes-FIFOs/related_pipe/main.c: a parent that writes three messages to a pipe, and its child, which
-- reads them. A step is one system call of one process; writes of 16 bytes to a pipe are not split.
pub mod Flow
pub mod Order
mod Tests
use linux_programing.Common.{
  ℕ, ◌+◌, Bool, true, false, Option, none, some, List, [], ◌∷◌, ◌++◌, ◌||◌, if◌then◌else◌, take,
  drop, ◌≡◌,
}

-- `MSG_SIZE`
abbrev pub msg_size : ℕ
msg_size = 16

abbrev pub hello : List ℕ
hello =
    b'h' ∷ b'e' ∷ b'l' ∷ b'l' ∷ b'o' ∷ b',' ∷ b' ' ∷ b'w' ∷ b'o' ∷ b'r' ∷ b'l' ∷ b'd' ∷ b' ' ∷ b'#'
    ∷ []

abbrev pub msg1 : List ℕ
msg1 = hello ++ b'1' ∷ 0 ∷ []

abbrev pub msg2 : List ℕ
msg2 = hello ++ b'2' ∷ 0 ∷ []

abbrev pub msg3 : List ℕ
msg3 = hello ++ b'3' ∷ 0 ∷ []

-- The parent before each of its calls, and in `while(1)`; `p_killed` by SIGPIPE.
pub data Parent : Type 0 where
  p_close_read p_write1 p_write2 p_write3 p_close_write p_spinning p_killed : Parent

-- The child in its loop, behind it, and at its `exit` after a failed `read`.
pub data Child : Type 0 where
  c_reading c_ended c_failed : Child

-- The bytes in the pipe, the ends that each process has open, and the messages printed.
pub record State : Type 0 where
  pub pipe : List ℕ
  pub parent_read : Bool
  pub parent_write : Bool
  pub child_read : Bool
  pub child_write : Bool
  pub printed : List (List ℕ)
  pub parent : Parent
  pub child : Child

-- Behind `fork` both processes have both ends.
abbrev pub initial : State
initial = record {
  pipe = [];
  parent_read = true;
  parent_write = true;
  child_read = true;
  child_write = true;
  printed = [];
  parent = p_close_read;
  child = c_reading;
}

pub write_pipe : List ℕ → Parent → State → State
write_pipe msg p s =
    if s.parent_read || s.child_read
    then record s { pipe = s.pipe ++ msg; parent = p }
    else record s { parent = p_killed }

parent_at : Parent → State → Option State
unfolding write_pipe
parent_at p_close_read s = some (record s { parent_read = false; parent = p_write1 })
parent_at p_write1 s = some (write_pipe msg1 p_write2 s)
parent_at p_write2 s = some (write_pipe msg2 p_write3 s)
parent_at p_write3 s = some (write_pipe msg3 p_close_write s)
parent_at p_close_write s = some (record s { parent_write = false; parent = p_spinning })
parent_at p_spinning s = none
parent_at p_killed s = none

pub parent_step : State → Option State
unfolding parent_at
parent_step s = parent_at s.parent s

-- `read`: at most 16 of the bytes that are there; with none, the end of the file when no process can
-- write, and otherwise it waits.
pub read_pipe : List ℕ → State → Option State
read_pipe [] s =
    if s.parent_write || s.child_write then none else some (record s { child = c_ended })
read_pipe (b ∷ bytes) s = some (record s {
  pipe = drop msg_size (b ∷ bytes);
  printed = s.printed ++ take msg_size (b ∷ bytes) ∷ [];
})

-- The `close` of the write end is commented out. `failed` is an error of `read`.
child_at : Child → (failed : Bool) → State → Option State
unfolding read_pipe
child_at c_reading failed s =
    if failed
    then some (record s { child = c_failed; child_read = false; child_write = false })
    else read_pipe s.pipe s
child_at c_ended failed s = none
child_at c_failed failed s = none

pub child_step : (failed : Bool) → State → Option State
unfolding child_at
child_step failed s = child_at s.child failed s

pub data Step (s : State) : State → Type 0 where
  run_parent : {t : State} → parent_step s ≡ some t → Step s t
  run_child : {t : State} (failed : Bool) → child_step failed s ≡ some t → Step s t

pub data Reach : State → Type 0 where
  start : Reach initial
  next : {s t : State} → Reach s → Step s t → Reach t
