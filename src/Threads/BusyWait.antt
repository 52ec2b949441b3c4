-- ===== src/Threads/BusyWait.antt =====
-- 04-thread/conditional-var/main.c: a thread counts to the threshold under a lock, and `main` looks at
-- the counter again and again, without the lock. A step is one action of one of the two; the load and
-- the store of `counter += 1` are two.
pub mod Ends
mod Tests
use linux_programing.Common.{
  ℕ, ◌+◌, ◌≡◌, Bool, true, false, Option, none, some, ltb, ◌==◌, if◌then◌else◌,
}

-- `THRESHOLD`
abbrev pub threshold : ℕ
threshold = 5

-- `handle_th1` before it exists; at its lock, its test, its load and its store; at its unlock; ended.
pub data Thread : Type 0 where
  t_absent t_lock t_test t_load : Thread
  t_store : (loaded : ℕ) → Thread
  t_unlock t_exited : Thread

-- `main` before each of its calls, and in its loop; it has ended, or could not create the thread.
pub data Main : Type 0 where
  m_create m_look m_join m_ended m_failed : Main

pub record State : Type 0 where
  pub lock : Bool
  pub counter : ℕ
  pub thread : Thread
  pub main : Main

abbrev pub initial : State
initial = record { lock = false; counter = 0; thread = t_absent; main = m_create }

thread_at : Thread → State → Option State
thread_at t_absent s = none
thread_at t_lock s = if s.lock then none else some (record s { lock = true; thread = t_test })
thread_at t_test s =
    some (record s { thread = if ltb s.counter threshold then t_load else t_unlock })
thread_at t_load s = some (record s { thread = t_store s.counter })
thread_at (t_store n) s = some (record s { counter = n + 1; thread = t_test })
thread_at t_unlock s = some (record s { lock = false; thread = t_exited })
thread_at t_exited s = none

pub thread_step : State → Option State
unfolding thread_at
thread_step s = thread_at s.thread s

-- `pthread_join` waits for the end of the thread.
join : Thread → State → Option State
join t_exited s = some (record s { main = m_ended })
join _ s = none

main_at : Main → (created : Bool) → State → Option State
unfolding join
main_at m_create created s =
    some (
      if created then record s { thread = t_lock; main = m_look } else record s { main = m_failed })
main_at m_look created s = some (if s.counter == threshold then record s { main = m_join } else s)
main_at m_join created s = join s.thread s
main_at m_ended created s = none
main_at m_failed created s = none

-- `created` is the answer of `pthread_create`.
pub main_step : (created : Bool) → State → Option State
unfolding main_at
main_step created s = main_at s.main created s

-- The end of `main` is the end of the process.
abbrev pub over : Main → Bool
over m_ended = true
over m_failed = true
over _ = false

pub data Step (s : State) : State → Type 0 where
  run_main : {t : State} (created : Bool) → main_step created s ≡ some t → Step s t
  run_thread : {t : State} → over s.main ≡ false → thread_step s ≡ some t → Step s t

pub data Reach : State → Type 0 where
  start : Reach initial
  next : {s t : State} → Reach s → Step s t → Reach t
