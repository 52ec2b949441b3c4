-- ===== src/Threads/LostWakeup.antt =====
-- 04-thread/conditional-var/con_var.c: a thread counts past the threshold and signals; `main`
-- waits for the counter to equal the threshold. A step is one action of a thread, and `none` means
-- that it sleeps or has ended.
pub mod Stuck
mod Tests
use linux_programing.Common.{
  ℕ, ◌+◌, ◌≡◌, Bool, true, false, Option, none, some, leb, ◌==◌, if◌then◌else◌,
}

abbrev pub threshold : ℕ
threshold = 5

-- `handle_th1`: not created; before the lock, in the loop with the lock, after the signal, after the unlock.
pub data Worker : Type 0 where
  w_absent w_start w_counting w_signalled w_ended : Worker

-- `main`: before `pthread_create`; before the lock; about to call `pthread_cond_wait`; asleep in it; woken, but without the
-- lock; at the test of the counter; behind the loop, with and without the lock;
-- returned -1, without a thread.
pub data Main : Type 0 where
  m_create m_start m_locked m_waiting m_woken m_testing m_past m_ended m_failed : Main

pub record State : Type 0 where
  pub locked : Bool
  pub counter : ℕ
  pub worker : Worker
  pub main : Main

pub initial : State
initial = record { locked = false; counter = 0; worker = w_absent; main = m_create }

-- `pthread_cond_signal` wakes `main` if it is asleep, and is lost otherwise.
abbrev pub signal : Main → Main
signal m_waiting = m_woken
signal m = m

worker_at : Worker → State → Option State
worker_at w_absent s = none
worker_at w_start s =
    if s.locked then none else some (record s { locked = true; worker = w_counting })
worker_at w_counting s =
    if leb s.counter threshold
    then some (record s { counter = s.counter + 1 })
    else some (record s { worker = w_signalled; main = signal s.main })
worker_at w_signalled s = some (record s { locked = false; worker = w_ended })
worker_at w_ended s = none

pub worker_step : State → Option State
unfolding worker_at
worker_step s = worker_at s.worker s

-- `created` is the answer of `pthread_create`.
main_at : Main → (created : Bool) → State → Option State
main_at m_create created s =
    if created
    then some (record s { worker = w_start; main = m_start })
    else some (record s { main = m_failed })
main_at m_start created s =
    if s.locked then none else some (record s { locked = true; main = m_locked })
main_at m_locked created s = some (record s { locked = false; main = m_waiting })
main_at m_waiting created s = none
main_at m_woken created s =
    if s.locked then none else some (record s { locked = true; main = m_testing })
main_at m_testing created s =
    if s.counter == threshold
    then some (record s { main = m_past })
    else some (record s { main = m_locked })
main_at m_past created s = some (record s { locked = false; main = m_ended })
main_at m_ended created s = none
main_at m_failed created s = none

pub main_step : (created : Bool) → State → Option State
unfolding main_at
main_step created s = main_at s.main created s

-- Either thread moves, or `main` wakes for no reason.
pub data Step (s : State) : State → Type 0 where
  work : {t : State} → worker_step s ≡ some t → Step s t
  run_main : {t : State} (created : Bool) → main_step created s ≡ some t → Step s t
  spurious : s.main ≡ m_waiting → Step s (record s { main = m_woken })

pub data Reach : State → Type 0 where
  start : Reach initial
  next : {s t : State} → Reach s → Step s t → Reach t
