-- ===== src/FileIo/Locks.antt =====
-- 02-linux-file-system/fcntl: process_A.c and process_B.c on one file with record locks, as a step
-- relation. A step is one call of one process, and what the system answers is its argument; process_A.c
-- sleeps for ever, and can be ended by a signal.
pub mod Contents
pub mod Held
mod Tests
use linux_programing.Common.{
  codes, ℕ, ◌+◌, ◌≡◌, Bool, true, false, Option, none, some, List, [], ◌∷◌, ◌++◌, ◌&&◌, ltb,
  if◌then◌else◌,
}
use linux_programing.FileIo.{write_at}

-- `l_start` and `l_len` of a `struct flock` with F_WRLCK and SEEK_SET.
pub record Flock : Type 0 where
  pub l_start : ℕ
  pub l_len : ℕ

-- No byte is in both.
pub apart : Flock → List Flock → Bool
apart fl [] = true
apart fl (other ∷ locks) =
    if ltb fl.l_start (other.l_start + other.l_len) && ltb other.l_start (fl.l_start + fl.l_len)
    then false
    else apart fl locks

-- Process A before `open`, `write` and `fcntl`, and in its loop; it has returned, or was ended.
pub data PlaceA : Type 0 where
  a_open a_write a_lock a_sleep a_ended : PlaceA

-- Process B before `open`, both calls of `fcntl` and `write`; it has closed the file or returned.
pub data PlaceB : Type 0 where
  b_open b_lock1 b_lock2 b_write b_ended : PlaceB

-- `file` is `none` when there is no file. `wrote` is whether A has written.
pub record State : Type 0 where
  pub file : Option (List ℕ)
  pub a : PlaceA
  pub b : PlaceB
  pub locks_a : List Flock
  pub locks_b : List Flock
  pub wrote : Bool

abbrev pub initial : Option (List ℕ) → State
initial file = record {
  file = file;
  a = a_open;
  b = b_open;
  locks_a = [];
  locks_b = [];
  wrote = false;
}

-- `sizeof(text) - 1` bytes of `char text[16]` and of `char text[10]`.
abbrev pub text_a : List ℕ
text_a = codes "hello word\n" ++ 0 ∷ 0 ∷ 0 ∷ 0 ∷ []

abbrev pub text_b : List ℕ
text_b = codes "phonglt9" ++ 0 ∷ []

abbrev pub bytes_1_to_5 : Flock
bytes_1_to_5 = record { l_start = 1; l_len = 5 }

abbrev pub second_lock : Flock
second_lock = record { l_start = 6; l_len = 8 }

-- O_CREAT makes an empty file when there is none.
abbrev pub contents : Option (List ℕ) → List ℕ
contents none = []
contents (some bytes) = bytes

a_at : PlaceA → (ok : Bool) → State → Option State
unfolding write_at apart
a_at a_open ok s = some (
    if ok
    then record s { file = some (contents s.file); a = a_write }
    else record s { a = a_ended })
a_at a_write ok s = some (
    if ok
    then record s { file = some (write_at 0 text_a (contents s.file)); a = a_lock; wrote = true }
    else record s { a = a_ended })
a_at a_lock ok s = some (
    if ok && apart bytes_1_to_5 s.locks_b
    then record s { a = a_sleep; locks_a = bytes_1_to_5 ∷ s.locks_a }
    else record s { a = a_sleep })
a_at a_sleep ok s = none
a_at a_ended ok s = none

pub a_step : (ok : Bool) → State → Option State
unfolding a_at
a_step ok s = a_at s.a ok s

-- The end of a process gives its locks back.
closed_b : State → State
closed_b s = record s { b = b_ended; locks_b = [] }

open_b : Option (List ℕ) → (ok : Bool) → State → State
open_b none ok s = record s { b = b_ended }
open_b (some bytes) ok s = if ok then record s { b = b_lock1 } else record s { b = b_ended }

b_at : PlaceB → (ok : Bool) → State → Option State
unfolding write_at apart closed_b open_b
b_at b_open ok s = some (open_b s.file ok s)
b_at b_lock1 ok s = some (
    if ok && apart bytes_1_to_5 s.locks_a
    then record s { b = b_lock2; locks_b = bytes_1_to_5 ∷ s.locks_b }
    else record s { b = b_lock2 })
b_at b_lock2 ok s = some (
    if ok && apart second_lock s.locks_a
    then record s { b = b_write; locks_b = second_lock ∷ s.locks_b }
    else closed_b s)
b_at b_write ok s =
    some
      (closed_b (if ok then record s { file = some (write_at 6 text_b (contents s.file)) } else s))
b_at b_ended ok s = none

pub b_step : (ok : Bool) → State → Option State
unfolding b_at
b_step ok s = b_at s.b ok s

pub killed_a : State → State
killed_a s = record s { a = a_ended; locks_a = [] }

pub data Step (s : State) : State → Type 0 where
  run_a : {t : State} (ok : Bool) → a_step ok s ≡ some t → Step s t
  run_b : {t : State} (ok : Bool) → b_step ok s ≡ some t → Step s t
  kill_a : Step s (killed_a s)

pub data Reach (file : Option (List ℕ)) : State → Type 0 where
  start : Reach file (initial file)
  next : {s t : State} → Reach file s → Step s t → Reach file t
