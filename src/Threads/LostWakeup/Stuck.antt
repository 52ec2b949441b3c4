-- ===== src/Threads/LostWakeup/Stuck.antt =====
-- 04-thread/conditional-var/con_var.c: the reachable states.
use linux_programing.Common.{ℕ, ◌+◌, ◌≤◌, ◌≡◌, Bool, true, false}
use linux_programing.Threads.LostWakeup.{
  threshold, Worker, w_absent, w_start, w_counting, w_signalled, w_ended, Main, m_create, m_locked,
  m_testing, m_past, m_ended, State,
}

abbrev w_holds : Worker → ℕ
w_holds w_counting = 1
w_holds w_signalled = 1
w_holds _ = 0

abbrev m_holds : Main → ℕ
m_holds m_locked = 1
m_holds m_testing = 1
m_holds m_past = 1
m_holds _ = 0

abbrev m_passed : Main → ℕ
m_passed m_past = 1
m_passed m_ended = 1
m_passed _ = 0

abbrev held : Bool → ℕ
held true = 1
held false = 0

-- What the counter can be at each place of the worker.
abbrev Counted : Worker → ℕ → Type 0
Counted w_absent c = c ≡ 0
Counted w_start c = c ≡ 0
Counted w_counting c = c ≤ threshold + 1
Counted w_signalled c = c ≡ threshold + 1
Counted w_ended c = c ≡ threshold + 1

-- Before `pthread_create` there is no thread.
abbrev Made : Main → Worker → Type 0
Made m_create w = w ≡ w_absent
Made _ w = Unit

record IsStuck (s : State) : Type 0 where
  owner : held s.locked ≡ w_holds s.worker + m_holds s.main
  counted : Counted s.worker s.counter
  passed : m_passed s.main ≡ 0
  made : Made s.main s.worker
