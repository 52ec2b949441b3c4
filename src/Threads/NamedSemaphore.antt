-- ===== src/Threads/NamedSemaphore.antt =====
-- 09-semaphore/POSIX-semaphore/named-semaphore/main.c: any number of processes that run the program on one
-- named semaphore. A step is one call of one process on the semaphore.
pub mod Exclusion
mod Tests
use linux_programing.Common.{
  ℕ, zero, suc, ◌+◌, ◌≡◌, Bool, true, false, Option, none, some, List, [], ◌∷◌, ◌++◌, if◌then◌else◌,
}

-- A process before `sem_open`, before `sem_timedwait`, with the semaphore, after `sem_post`, and after
-- it returned -1 or what `sem_close` answered.
pub data Place : Type 0 where
  p_start p_opened p_holding p_posted p_failed p_returned : Place

-- The answers to one call: the error of `sem_open` or of the clock, the end of the ten seconds, and the
-- errors of `sem_post` and `sem_close`.
pub record Answers : Type 0 where
  pub open_fails : Bool
  pub clock_fails : Bool
  pub timed_out : Bool
  pub post_fails : Bool
  pub close_fails : Bool

-- The semaphore "/named_app" with its value, when there is one. The first `sem_open` makes it with the
-- value 1 when there is none; the second opens the one that is there.
sem_open : Option ℕ → ℕ
sem_open none = 1
sem_open (some value) = value

sem_timedwait : (timed_out : Bool) → Option ℕ → Option (Place × Option ℕ)
sem_timedwait timed_out none = none
sem_timedwait timed_out (some zero) = if timed_out then some (p_failed, some zero) else none
sem_timedwait timed_out (some (suc value)) = some (p_holding, some value)

sem_post : Option ℕ → Option ℕ
sem_post none = none
sem_post (some value) = some (value + 1)

-- `sem_unlink(&sem)` does not name the semaphore, which stays.
pub process_move : Answers → Place → Option ℕ → Option (Place × Option ℕ)
unfolding sem_open sem_timedwait sem_post
process_move a p_start sem =
    if a.open_fails then some (p_failed, sem) else some (p_opened, some (sem_open sem))
process_move a p_opened sem =
    if a.clock_fails then some (p_failed, sem) else sem_timedwait a.timed_out sem
process_move a p_holding sem =
    if a.post_fails then some (p_failed, sem) else some (p_posted, sem_post sem)
process_move a p_posted sem = if a.close_fails then some (p_failed, sem) else some (p_returned, sem)
process_move a p_failed sem = none
process_move a p_returned sem = none

pub record System : Type 0 where
  pub sem : Option ℕ
  pub processes : List Place

abbrev pub initial : System
initial = record { sem = none; processes = [] }

-- The program is started once more, or one of the processes makes its next call.
pub data Step (s : System) : System → Type 0 where
  arrive : Step s (record s { processes = s.processes ++ p_start ∷ [] })
  run :
      {q : Place} {sem : Option ℕ} (a : Answers) (p : Place) (front back : List Place)
      → s.processes ≡ front ++ p ∷ back
      → process_move a p s.sem ≡ some (q, sem)
      → Step s (record { sem = sem; processes = front ++ q ∷ back })

pub data Reach : System → Type 0 where
  start : Reach initial
  next : {s t : System} → Reach s → Step s t → Reach t
