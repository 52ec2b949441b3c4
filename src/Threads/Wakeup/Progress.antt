-- ===== src/Threads/Wakeup/Progress.antt =====
-- BTVN/04-thread/conditional-variables/main.c: the reachable states.
use linux_programing.Common.{
  ℕ, ◌+◌, ◌≤◌, ◌≡◌, Bool, true, false, none, some, arith, ◌⊎◌, inl, inr, Option-cases,
}
use linux_programing.Threads.Wakeup.{
  threshold, Worker, w_absent, w_start, w_counting, w_signalled, w_ended, Main, m_create, m_testing,
  m_waiting, m_past, m_joining, m_ended, State, initial, worker_step, main_step, work, run_main,
  spurious, Reach, start, next,
}

abbrev w_holds : Worker → ℕ
w_holds w_counting = 1
w_holds w_signalled = 1
w_holds _ = 0

abbrev m_holds : Main → ℕ
m_holds m_testing = 1
m_holds m_past = 1
m_holds _ = 0

abbrev held : Bool → ℕ
held true = 1
held false = 0

-- What the counter can be at each place of the worker.
abbrev Counted : Worker → ℕ → Type 0
Counted w_absent c = c ≡ 0
Counted w_start c = c ≡ 0
Counted w_counting c = c ≤ threshold
Counted w_signalled c = c ≡ threshold
Counted w_ended c = c ≡ threshold

-- Asleep, `main` still has the signal to come, if there is a thread; behind the loop, the counter is at the threshold.
abbrev Awaited : Main → Worker → ℕ → Type 0
Awaited m_create w c = w ≡ w_absent
Awaited m_waiting w_absent c = Unit
Awaited m_waiting w_start c = Unit
Awaited m_waiting w_counting c = Unit
Awaited m_waiting _ c = ⊥
Awaited m_past w c = c ≡ threshold
Awaited m_joining w c = c ≡ threshold
Awaited m_ended w c = (c ≡ threshold) × (w ≡ w_ended)
Awaited _ w c = Unit

record IsLive (s : State) : Type 0 where
  owner : held s.locked ≡ w_holds s.worker + m_holds s.main
  counted : Counted s.worker s.counter
  awaited : Awaited s.main s.worker s.counter

worker-IsLive : (s t : State) → worker_step s ≡ some t → IsLive s → IsLive t
unfolding worker_step
worker-IsLive s t e v = ground arith

main-IsLive : (created : Bool) (s t : State) → main_step created s ≡ some t → IsLive s → IsLive t
unfolding main_step
main-IsLive true s t e v = ground arith
main-IsLive false s t e v = ground arith

Reach-IsLive : {s : State} → Reach s → IsLive s
unfolding initial
Reach-IsLive start = ground arith
Reach-IsLive (next {s} {t} r (work e)) = worker-IsLive s t e (Reach-IsLive r)
Reach-IsLive (next {s} {t} r (run_main created e)) = main-IsLive created s t e (Reach-IsLive r)
Reach-IsLive (next r (spurious e)) =
    let v = Reach-IsLive r in ground (arith, v.owner, v.counted, v.awaited)

-- In every reachable state in which `main` is behind its loop and has not yet unlocked, the
-- counter is the threshold.
pub past_at_threshold : {s : State} → Reach s → s.main ≡ m_past → s.counter ≡ threshold
past_at_threshold r e = let v = Reach-IsLive r in ground (arith, v.awaited)

-- Where neither thread can move.
resting :
    (s : State)
    → worker_step s ≡ none
    → main_step true s ≡ none
    → IsLive s
    → ((s.main ≡ m_ended) × (s.worker ≡ w_ended))
      ⊎ ((s.main ≡ m_waiting) × (s.worker ≡ w_absent))
      ⊎ ((t : State) × ((worker_step s ≡ some t) ⊎ (main_step true s ≡ some t)))
unfolding worker_step main_step
resting s w m v = ground (arith, w, m, v.owner, v.counted, v.awaited)

-- In every reachable state one of the threads can move without a spurious wake-up, or both have ended, or
-- `pthread_create` has failed and `main` sleeps, waiting for a thread that there is not.
pub progress :
    {s : State}
    → Reach s
    → ((s.main ≡ m_ended) × (s.worker ≡ w_ended))
      ⊎ ((s.main ≡ m_waiting) × (s.worker ≡ w_absent))
      ⊎ ((t : State) × ((worker_step s ≡ some t) ⊎ (main_step true s ≡ some t)))
unfolding worker_step main_step
progress {s} r =
    let v = Reach-IsLive r in
    elim (Option-cases (worker_step s)) [
      | inr (t, e) ↦ inr (inr (t, inl e))
      | inl w ↦ elim (Option-cases (main_step true s)) [
        | inr (t, e) ↦ inr (inr (t, inr e))
        | inl m ↦ resting s w m v
      ]
    ]
