-- ===== src/Threads/BusyWait/Ends.antt =====
-- 04-thread/conditional-var/main.c: the loop of `main` ends.
use linux_programing.Common.{
  ℕ, zero, suc, ◌+◌, ◌-◌, ◌*◌, ◌≤◌, ◌<◌, ◌≡◌, ◌≢◌, ◌⊎◌, inl, inr, refl, Bool, true, false, some,
  ltb, ◌==◌, if◌then◌else◌, Bool-cases, arith,
}
use linux_programing.Threads.BusyWait.{
  threshold, Thread, t_absent, t_lock, t_test, t_load, t_store, t_unlock, t_exited, Main, m_create,
  m_look, m_join, m_ended, m_failed, State, thread_step, main_at, main_step, over, Step, run_main,
  run_thread, Reach, start, next,
}

-- What the place of the thread says of the counter and the lock.
abbrev Placed : Thread → (counter : ℕ) → (lock : Bool) → Type 0
Placed t_absent c lock = (c ≡ 0) × (lock ≡ false)
Placed t_lock c lock = (c ≡ 0) × (lock ≡ false)
Placed t_test c lock = c ≤ threshold
Placed t_load c lock = c < threshold
Placed (t_store n) c lock = (c < threshold) × (n ≡ c)
Placed t_unlock c lock = c ≡ threshold
Placed t_exited c lock = c ≡ threshold

-- What the place of `main` says of the thread.
abbrev Known : Main → Thread → (counter : ℕ) → Type 0
Known m_create w c = w ≡ t_absent
Known m_look w c = w ≢ t_absent
Known m_join w c = (w ≢ t_absent) × (c ≡ threshold)
Known m_ended w c = (w ≡ t_exited) × (c ≡ threshold)
Known m_failed w c = Unit

record IsCount (s : State) : Type 0 where
  placed : Placed s.thread s.counter s.lock
  known : Known s.main s.thread s.counter

main-IsCount : (created : Bool) (s t : State) → main_step created s ≡ some t → IsCount s → IsCount t
unfolding main_step
main-IsCount created s t e v = ground (arith, v)

thread-IsCount :
    (s t : State) → over s.main ≡ false → thread_step s ≡ some t → IsCount s → IsCount t
unfolding thread_step
thread-IsCount s t o e v = ground (arith, v)

Reach-IsCount : {s : State} → Reach s → IsCount s
Reach-IsCount start = record { placed = (refl, refl); known = refl }
Reach-IsCount (next {s} {t} r (run_main created e)) = main-IsCount created s t e (Reach-IsCount r)
Reach-IsCount (next {s} {t} r (run_thread o e)) = thread-IsCount s t o e (Reach-IsCount r)

-- How many steps the thread has left, and how many `main` has that are no look in vain.
abbrev thread_rank : Thread → (counter : ℕ) → ℕ
thread_rank t_absent c = 30
thread_rank t_lock c = 20
thread_rank t_test c = 3 * (threshold - c) + 2
thread_rank t_load c = 3 * (threshold - c) + 1
thread_rank (t_store n) c = 3 * (threshold - c)
thread_rank t_unlock c = 1
thread_rank t_exited c = 0

abbrev main_rank : Main → ℕ
main_rank m_create = 3
main_rank m_look = 2
main_rank m_join = 1
main_rank _ = 0

abbrev pub rank : State → ℕ
rank s = thread_rank s.thread s.counter + main_rank s.main

exited-cases : (w : Thread) → (w ≡ t_exited) ⊎ (w ≢ t_exited)
exited-cases t_exited = inl refl
exited-cases t_absent = inr (λ e. cc)
exited-cases t_lock = inr (λ e. cc)
exited-cases t_test = inr (λ e. cc)
exited-cases t_load = inr (λ e. cc)
exited-cases (t_store n) = inr (λ e. cc)
exited-cases t_unlock = inr (λ e. cc)

main-rank :
    (m : Main) (created : Bool) (s t : State)
    → s.main ≡ m
    → main_at m created s ≡ some t
    → IsCount s
    → (t ≡ s) ⊎ (rank t < rank s)
unfolding main_at
main-rank m_create created s t at e v = inr (ground (arith, v, at, e))
main-rank m_look created s t at e v = elim (Bool-cases (s.counter == threshold)) [
  | inl full ↦ inr (ground (arith, at, e, full))
  | inr less ↦ inl (ground (arith, e, less))
]
main-rank m_join created s t at e v = inr (ground (arith, at, e))
main-rank m_ended created s t at e v = cc
main-rank m_failed created s t at e v = cc

thread-rank : (s t : State) → thread_step s ≡ some t → IsCount s → rank t < rank s
unfolding thread_step
thread-rank s t e v = ground (arith, v)

Step-rank : {s t : State} → Step s t → IsCount s → (t ≡ s) ⊎ (rank t < rank s)
Step-rank {s} {t} (run_main created e) v =
    main-rank s.main created s t refl (unfold main_step in e) v
Step-rank {s} {t} (run_thread o e) v = inr (thread-rank s t e v)

-- A step that is no look in vain.
abbrev pub Nearer : State → Type 0
Nearer s = (t : State) × Step s t × (rank t < rank s)

by_thread : (s t : State) → over s.main ≡ false → thread_step s ≡ some t → IsCount s → Nearer s
by_thread s t o e v = (t, run_thread o e, thread-rank s t e v)

-- A thread that has been created and has not ended can move.
thread-Nearer :
    (w : Thread) (s : State)
    → s.thread ≡ w
    → w ≢ t_absent
    → w ≢ t_exited
    → over s.main ≡ false
    → IsCount s
    → Nearer s
unfolding thread_step
thread-Nearer t_absent s at na ne o v = absurd (na refl)
thread-Nearer t_lock s at na ne o v =
    by_thread s (record s { lock = true; thread = t_test }) o (ground (arith, at, v.placed)) v
thread-Nearer t_test s at na ne o v =
    by_thread s (record s { thread = if ltb s.counter threshold then t_load else t_unlock }) o
      (ground (arith, at)) v
thread-Nearer t_load s at na ne o v =
    by_thread s (record s { thread = t_store s.counter }) o (ground (arith, at)) v
thread-Nearer (t_store n) s at na ne o v =
    by_thread s (record s { counter = n + 1; thread = t_test }) o (ground (arith, at)) v
thread-Nearer t_unlock s at na ne o v =
    by_thread s (record s { lock = false; thread = t_exited }) o (ground (arith, at)) v
thread-Nearer t_exited s at na ne o v = absurd (ne refl)

by_main : (s t : State) → main_step true s ≡ some t → rank t < rank s → Nearer s
by_main s t e lt = (t, run_main true e, lt)

main-Nearer : (m : Main) (s : State) → s.main ≡ m → IsCount s → (over s.main ≡ true) ⊎ Nearer s
unfolding main_step
main-Nearer m_create s at v = inr (
    by_main s (record s { thread = t_lock; main = m_look }) (ground (arith, at))
      (ground (arith, at, v.known)))
main-Nearer m_look s at v = elim (Bool-cases (s.counter == threshold)) [
  | inl full ↦
      inr (by_main s (record s { main = m_join }) (ground (arith, at, full)) (ground (arith, at)))
  | inr less ↦ inr (
      thread-Nearer s.thread s refl (ground (arith, at, v.known))
        (λ q. ground (arith, q, v.placed, less)) (ground (arith, at)) v)
]
main-Nearer m_join s at v = elim (exited-cases s.thread) [
  | inl e ↦
      inr (by_main s (record s { main = m_ended }) (ground (arith, at, e)) (ground (arith, at)))
  | inr ne ↦
      inr (thread-Nearer s.thread s refl (ground (arith, at, v.known)) ne (ground (arith, at)) v)
]
main-Nearer m_ended s at v = inl (ground (arith, at))
main-Nearer m_failed s at v = inl (ground (arith, at))

Step-IsCount : {s t : State} → Step s t → IsCount s → IsCount t
Step-IsCount {s} {t} (run_main created e) v = main-IsCount created s t e v
Step-IsCount {s} {t} (run_thread o e) v = thread-IsCount s t o e v

-- In a reachable state each step but a look in vain comes nearer to the end.
pub step_nearer : {s t : State} → Reach s → Step s t → (t ≡ s) ⊎ (rank t < rank s)
step_nearer r st = Step-rank st (Reach-IsCount r)

-- A run from one state to another.
pub data Onward : State → State → Type 0 where
  arrived : {s : State} → Onward s s
  onward : {s t u : State} → Step s t → Onward t u → Onward s u

ends_within :
    (n : ℕ) (s : State) → rank s ≤ n → IsCount s → (t : State) × Onward s t × (over t.main ≡ true)
ends_within zero s h v = elim (main-Nearer s.main s refl v) [
  | inl done ↦ (s, arrived, done)
  | inr (t, st, lt) ↦ absurd (omega (arith, lt, h))
]
ends_within (suc n) s h v = elim (main-Nearer s.main s refl v) [
  | inl done ↦ (s, arrived, done)
  | inr (t, st, lt) ↦
      let (u, run, done) = ends_within n t (omega (arith, lt, h)) (Step-IsCount st v) in
      (u, onward st run, done)
]

-- From every reachable state a run leads to an end of `main`: however long it has looked in vain, it is
-- never stuck, and neither is the thread that it waits for. Every access to `counter` is a step of its
-- own.
pub busy_wait_ends : {s : State} → Reach s → (t : State) × Onward s t × (over t.main ≡ true)
busy_wait_ends {s} r = ends_within (rank s) s (omega arith) (Reach-IsCount r)

-- Whenever `main` is behind its loop the counter is at the threshold, whatever the thread does next.
pub behind_loop :
    {s : State} → Reach s → (s.main ≡ m_join) ⊎ (s.main ≡ m_ended) → s.counter ≡ threshold
behind_loop {s} r (inl e) = let v = Reach-IsCount r in ground (arith, v.known, e)
behind_loop {s} r (inr e) = let v = Reach-IsCount r in ground (arith, v.known, e)
