-- ===== src/Threads/BusyWait/Tests.antt =====
-- The busy wait at a concrete run: the thread has stored once, and `main` looks on.
use linux_programing.Common.{◌≡◌, refl, true}
use linux_programing.Threads.BusyWait.{
  t_test, m_look, State, thread_step, main_step, over, run_main, run_thread, Reach, start, next,
}
use linux_programing.Threads.BusyWait.Ends.{Onward, busy_wait_ends}

abbrev counting : State
counting = record { lock = true; counter = 1; thread = t_test; main = m_look }

run : Reach counting
unfolding thread_step main_step
run =
    let locked = next (next start (run_main true refl)) (run_thread refl refl) in
    let loaded = next (next locked (run_thread refl refl)) (run_thread refl refl) in
    next loaded (run_thread refl refl)

busy_wait_ends_example : (t : State) × Onward counting t × (over t.main ≡ true)
busy_wait_ends_example = busy_wait_ends run
