-- ===== src/Threads/Wakeup.antt =====
-- BTVN/04-thread/conditional-variables/main.c: a thread counts up to the threshold and signals;
-- `main` waits while the counter is below it. A step is one action of a thread, and `none` means
-- that it sleeps or has ended.
pub mod Progress
mod Tests
use linux_programing.Common.{ℕ, ◌+◌, ◌≡◌, Bool, true, false, Option, none, some, ltb, if◌then◌else◌}

abbrev pub threshold : ℕ
threshold = 5

-- `threadFunc`: not created; before the lock, in the loop with the lock, after the signal, after the unlock.
pub data Worker : Type 0 where
  w_absent w_start w_counting w_signalled w_ended : Worker

-- `main`: before `pthread_create`; before the lock; at the test of the loop, with the lock; asleep in `pthread_cond_wait`;
-- woken, but without the lock; behind the loop, before the unlock; in `pthread_join`; at its end.
pub data Main : Type 0 where
  m_create m_start m_testing m_waiting m_woken m_past m_joining m_ended : Main

pub record State : Type 0 where
  pub locked : Bool
  pub counter : ℕ
  pub worker : Worker
  pub main : Main

pub initial : State
initial = record { locked = false; counter = 0; worker = w_absent; main = m_create }

abbrev pub signal : Main → Main
signal m_waiting = m_woken
signal m = m

worker_at : Worker → State → Option State
worker_at w_absent s = none
worker_at w_start s =
    if s.locked then none else some (record s { locked = true; worker = w_counting })
worker_at w_counting s =
    if ltb s.counter threshold
    then some (record s { counter = s.counter + 1 })
    else some (record s { worker = w_signalled; main = signal s.main })
worker_at w_signalled s = some (record s { locked = false; worker = w_ended })
worker_at w_ended s = none

pub worker_step : State → Option State
unfolding worker_at
worker_step s = worker_at s.worker s

-- `pthread_join` returns when the worker has ended.
join : Worker → State → Option State
join w_ended s = some (record s { main = m_ended })
join _ s = none

-- `created` is the answer of `pthread_create`; `main` goes on also when it fails.
main_at : Main → (created : Bool) → State → Option State
unfolding join
main_at m_create created s =
    some (record s { worker = if created then w_start else w_absent; main = m_start })
main_at m_start created s =
    if s.locked then none else some (record s { locked = true; main = m_testing })
main_at m_testing created s =
    if ltb s.counter threshold
    then some (record s { locked = false; main = m_waiting })
    else some (record s { main = m_past })
main_at m_waiting created s = none
main_at m_woken created s =
    if s.locked then none else some (record s { locked = true; main = m_testing })
main_at m_past created s = some (record s { locked = false; main = m_joining })
main_at m_joining created s = join s.worker s
main_at m_ended created s = none

pub main_step : (created : Bool) → State → Option State
unfolding main_at
main_step created s = main_at s.main created s

-- Either thread moves, or `main` wakes for no reason.
pub data Step (s : State) : State → Type 0 where
  work : {t : State} → worker_step s ≡ some t → Step s t
  run_main : {t : State} (created : Bool) → main_step created s ≡ some t → Step s t
  spurious : s.main ≡ m_waiting → Step s (record s { main = m_woken })

pub data Reach : State → Type 0 where
  start : Reach initial
  next : {s t : State} → Reach s → Step s t → Reach t
