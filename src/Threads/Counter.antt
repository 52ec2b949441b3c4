-- ===== src/Threads/Counter.antt =====
-- 04-thread/mutil-thread/main.c: two threads count a shared variable up under one lock, and `main` waits
-- for both. A step is one action of a thread; the load and the store of `++counter` are two.
pub mod Joined
mod Tests
use linux_programing.Common.{ℕ, ◌+◌, ◌≡◌, Bool, true, false, Option, none, some, if◌then◌else◌}

-- A thread that is not created yet; before the lock, with the lock, with the counter loaded, after the
-- store, after the unlock.
pub data Worker : Type 0 where
  w_absent w_start w_locked : Worker
  w_loaded : (loaded : ℕ) → Worker
  w_stored w_ended : Worker

-- `main` before each of its calls, and at its two ends: every thread is joined, or one could not be
-- created.
pub data Main : Type 0 where
  m_create1 m_create2 m_join1 m_join2 m_ended m_failed : Main

pub record Shared : Type 0 where
  pub lock1 : Bool
  pub counter : ℕ

-- `handle_th1` and `handle_th2`, which differ in what they print and in a pause.
pub worker_move : Worker → Shared → Option (Worker × Shared)
worker_move w_absent s = none
worker_move w_start s = if s.lock1 then none else some (w_locked, record s { lock1 = true })
worker_move w_locked s = some (w_loaded s.counter, s)
worker_move (w_loaded n) s = some (w_stored, record s { counter = n + 1 })
worker_move w_stored s = some (w_ended, record s { lock1 = false })
worker_move w_ended s = none

pub record State : Type 0 where
  pub shared : Shared
  pub th1 : Worker
  pub th2 : Worker
  pub main : Main

abbrev pub initial : State
initial = record {
  shared = record { lock1 = false; counter = 2 };
  th1 = w_absent;
  th2 = w_absent;
  main = m_create1;
}

-- `created` is the answer of `pthread_create`; `pthread_join` waits for the end of its thread.
joined : Worker → Main → State → Option State
joined w_ended m s = some (record s { main = m })
joined _ m s = none

main_at : Main → (created : Bool) → State → Option State
unfolding joined
main_at m_create1 created s =
    if created
    then some (record s { th1 = w_start; main = m_create2 })
    else some (record s { main = m_failed })
main_at m_create2 created s =
    if created
    then some (record s { th2 = w_start; main = m_join1 })
    else some (record s { main = m_failed })
main_at m_join1 created s = joined s.th1 m_join2 s
main_at m_join2 created s = joined s.th2 m_ended s
main_at m_ended created s = none
main_at m_failed created s = none

pub main_step : (created : Bool) → State → Option State
unfolding main_at
main_step created s = main_at s.main created s

-- The end of `main` is the end of the process.
abbrev pub alive : Main → Bool
alive m_ended = false
alive m_failed = false
alive m = true

pub data Step (s : State) : State → Type 0 where
  run_main : {t : State} (created : Bool) → main_step created s ≡ some t → Step s t
  work1 :
      {w : Worker} {sh : Shared}
      → alive s.main ≡ true
      → worker_move s.th1 s.shared ≡ some (w, sh)
      → Step s (record s { th1 = w; shared = sh })
  work2 :
      {w : Worker} {sh : Shared}
      → alive s.main ≡ true
      → worker_move s.th2 s.shared ≡ some (w, sh)
      → Step s (record s { th2 = w; shared = sh })

pub data Reach : State → Type 0 where
  start : Reach initial
  next : {s t : State} → Reach s → Step s t → Reach t
