-- ===== src/Threads/LostWakeup/Tests.antt =====
-- The theorem on the lost wake-up after the first step of the thread.
use linux_programing.Common.{true}
use linux_programing.Threads.LostWakeup.{State, w_counting, m_start}

abbrev counting : State
counting = record { locked = true; counter = 0; worker = w_counting; main = m_start }
