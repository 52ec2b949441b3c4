-- ===== src/Threads/Counter/Tests.antt =====
-- 04-thread/mutil-thread/main.c at a concrete run.
use linux_programing.Common.{refl, true, false}
use linux_programing.Threads.Counter.{
  w_ended, m_ended, State, worker_move, main_step, main_at, joined, run_main, work1, work2, Reach,
  start, next,
}

abbrev finished : State
finished = record {
  shared = record { lock1 = false; counter = 4 };
  th1 = w_ended;
  th2 = w_ended;
  main = m_ended;
}

-- Both threads are created; the second counts first.
run : Reach finished
unfolding worker_move main_step main_at joined
run =
    let created = next (next start (run_main true refl)) (run_main true refl) in
    let locked = next (next created (work2 refl refl)) (work2 refl refl) in
    let second = next (next locked (work2 refl refl)) (work2 refl refl) in
    let loaded = next (next second (work1 refl refl)) (work1 refl refl) in
    let first = next (next loaded (work1 refl refl)) (work1 refl refl) in
    next (next first (run_main true refl)) (run_main true refl)
