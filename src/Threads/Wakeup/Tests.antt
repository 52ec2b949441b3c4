-- ===== src/Threads/Wakeup/Tests.antt =====
-- The theorems on the waking of `main` at the end of its loop.
use linux_programing.Common.{◌≡◌, ◌⊎◌, some, true, refl}
use linux_programing.Threads.Wakeup.{
  State, initial, worker_at, worker_step, main_at, main_step, w_absent, w_ended, m_waiting, m_past,
  m_ended, Reach, start, next, work, run_main, threshold,
}
use linux_programing.Threads.Wakeup.Progress.{progress}

abbrev counted : State
counted = record { locked = true; counter = threshold; worker = w_ended; main = m_past }

counted-Reach : Reach counted
unfolding initial worker_step worker_at main_step main_at
counted-Reach =
    let started = next (next start (run_main true refl)) (work refl) in
    let two = next (next started (work refl)) (work refl) in
    let four = next (next two (work refl)) (work refl) in
    let signalled = next (next four (work refl)) (work refl) in
    next (next (next signalled (work refl)) (run_main true refl)) (run_main true refl)

progress_example :
    ((m_past ≡ m_ended) × (w_ended ≡ w_ended))
    ⊎ ((m_past ≡ m_waiting) × (w_ended ≡ w_absent))
    ⊎ ((t : State) × ((worker_step counted ≡ some t) ⊎ (main_step true counted ≡ some t)))
progress_example = progress counted-Reach
