-- ===== src/Threads/ReadLock/Tests.antt =====
-- BTVN/04-thread/rw_lock/main.c at a concrete run.
use linux_programing.Common.{◌≡◌, refl, true, [], ◌∷◌, length}
use linux_programing.Threads.ReadLock.{
  t_ended, m_ended, State, all, thread_at, thread_step, joined, main_at, main_step, run_main, read1,
  read2, Reach, start, next,
}
use linux_programing.Threads.ReadLock.Values.{AllValues, HasTen, ended-printed}

abbrev finished : State
finished = record {
  shared = record { readers = 0; a = 10; printed = 10 ∷ 1 ∷ 10 ∷ [] };
  thread1 = record { place = t_ended; check = true };
  thread2 = record { place = t_ended; check = true };
  main = m_ended;
}

-- The first thread loads before the store of `main` and prints behind its output; both threads hold the
-- lock at once.
run : Reach finished
unfolding thread_step thread_at main_step main_at joined
run =
    let created =
      next (next (next start (run_main true refl)) (run_main true refl)) (run_main true refl) in
    let locked = next (next created (read1 refl refl)) (read2 refl refl) in
    let loaded = next (next locked (read1 refl refl)) (run_main true refl) in
    let shown = next (next loaded (run_main true refl)) (run_main true refl) in
    let first = next (next (next shown (read1 refl refl)) (read1 refl refl)) (read1 refl refl) in
    let second =
      next (next (next (next first (read2 refl refl)) (read2 refl refl)) (read2 refl refl))
        (read2 refl refl) in
    next (next (next second (run_main true refl)) (run_main true refl)) (run_main true refl)

ended-printed_example :
    (all finished.thread1.check finished.thread2.check ≡ true)
    × (finished.shared.readers ≡ 0)
    × (length finished.shared.printed ≡ 3)
    × AllValues finished.shared.printed
    × HasTen finished.shared.printed
ended-printed_example = ended-printed run refl
