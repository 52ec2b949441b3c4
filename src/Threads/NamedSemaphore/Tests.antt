-- ===== src/Threads/NamedSemaphore/Tests.antt =====
-- named-semaphore/main.c at a concrete run.
use linux_programing.Common.{◌≤◌, refl, false, some, [], ◌∷◌}
use linux_programing.Threads.NamedSemaphore.{
  p_start, p_opened, p_holding, Answers, sem_open, sem_timedwait, process_move, System, arrive, run,
  Reach, start, next,
}
use linux_programing.Threads.NamedSemaphore.Exclusion.{holders, holders-bounded}

abbrev granted : Answers
granted = record {
  open_fails = false;
  clock_fails = false;
  timed_out = false;
  post_fails = false;
  close_fails = false;
}

-- The second process has the semaphore, and the first waits for it.
abbrev contended : System
contended = record { sem = some 0; processes = p_opened ∷ p_holding ∷ [] }

contended_run : Reach contended
unfolding process_move sem_open sem_timedwait
contended_run =
    let both = next (next start arrive) arrive in
    let first = next both (run granted p_start [] (p_start ∷ []) refl refl) in
    let second = next first (run granted p_start (p_opened ∷ []) [] refl refl) in
    next second (run granted p_opened (p_opened ∷ []) [] refl refl)

holders-bounded_example : holders contended.processes ≤ 1
holders-bounded_example = holders-bounded contended_run
