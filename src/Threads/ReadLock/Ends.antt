-- ===== src/Threads/ReadLock/Ends.antt =====
-- BTVN/04-thread/rw_lock/main.c: what holds at the end of `main`.
use mathlib.Core.Path.{subst}
use linux_programing.Common.{
  ℕ, ◌+◌, ◌≡◌, refl, Bool, true, false, some, List, [], ◌∷◌, ◌++◌, length, length-append, arith,
}
use linux_programing.Threads.ReadLock.{
  Place, t_absent, t_start, t_locked, t_loaded, t_printed, t_checked, t_ended, Thread, Main, m_init,
  m_create1, m_create2, m_store, m_load, m_print, m_join1, m_join2, m_destroy, m_ended, m_failed,
  m_undefined, Shared, thread_at, joined, main_at, thread_step, State, all, main_step, alive,
  run_main, read1, read2, Reach, start, next,
}

-- How often a thread holds the lock, and how much it has printed.
abbrev holds : Place → ℕ
holds t_locked = 1
holds (t_loaded n) = 1
holds t_printed = 1
holds t_checked = 1
holds _ = 0

abbrev printed_by : Place → ℕ
printed_by t_printed = 1
printed_by t_checked = 1
printed_by t_ended = 1
printed_by _ = 0

abbrev printed_by_main : Main → ℕ
printed_by_main m_join1 = 1
printed_by_main m_join2 = 1
printed_by_main m_destroy = 1
printed_by_main m_ended = 1
printed_by_main m_undefined = 1
printed_by_main _ = 0

abbrev checked : Place → Bool
checked t_checked = true
checked t_ended = true
checked _ = false

-- The threads that `main` has created and joined.
abbrev Known : Main → Place → Place → Type 0
Known m_init v w = (v ≡ t_absent) × (w ≡ t_absent)
Known m_create1 v w = (v ≡ t_absent) × (w ≡ t_absent)
Known m_create2 v w = w ≡ t_absent
Known m_join2 v w = v ≡ t_ended
Known m_destroy v w = (v ≡ t_ended) × (w ≡ t_ended)
Known m_ended v w = (v ≡ t_ended) × (w ≡ t_ended)
Known _ v w = Unit

-- What one thread does to the shared state beside the other.
record Moved (t u : Thread) (m : ℕ) (s : Shared) : Type 0 where
  readers : s.readers ≡ holds t.place + holds u.place
  count : length s.printed ≡ printed_by t.place + printed_by u.place + m
  check1 : t.check ≡ checked t.place
  check2 : u.check ≡ checked u.place

Moved-swap : (t u : Thread) (m : ℕ) (s : Shared) → Moved t u m s → Moved u t m s
Moved-swap t u m s i = record {
  readers = omega (arith, i.readers);
  count = omega (arith, i.count);
  check1 = i.check2;
  check2 = i.check1;
}

length_one : (xs : List ℕ) (n : ℕ) → length (xs ++ n ∷ []) ≡ length xs + 1
length_one xs n = length-append xs (n ∷ [])

thread_at-Moved :
    (p : Place) (t t' u : Thread) (m : ℕ) (s s' : Shared)
    → t.place ≡ p
    → Moved t u m s
    → thread_at p t s ≡ some (t', s')
    → Moved t' u m s'
unfolding thread_at
thread_at-Moved t_absent t t' u m s s' q i e = ground (arith, i)
thread_at-Moved t_start t t' u m s s' q i e = ground (arith, i)
thread_at-Moved t_locked t t' u m s s' q i e = ground (arith, i)
thread_at-Moved (t_loaded n) t t' u m s s' q i e = ground (arith, i, length_one s.printed n)
thread_at-Moved t_printed t t' u m s s' q i e = ground (arith, i)
thread_at-Moved t_checked t t' u m s s' q i e = ground (arith, i)
thread_at-Moved t_ended t t' u m s s' q i e = ground (arith, i)

thread-Moved :
    (t t' u : Thread) (m : ℕ) (s s' : Shared)
    → Moved t u m s
    → thread_step t s ≡ some (t', s')
    → Moved t' u m s'
unfolding thread_step
thread-Moved t t' u m s s' i e = thread_at-Moved t.place t t' u m s s' refl i e

thread-Known1 :
    (m : Main) (t t' : Thread) (w : Place) (s s' : Shared)
    → alive m ≡ true
    → Known m t.place w
    → thread_step t s ≡ some (t', s')
    → Known m t'.place w
unfolding thread_step thread_at
thread-Known1 m t t' w s s' a k e = ground (arith, a, k, e)

thread-Known2 :
    (m : Main) (v : Place) (t t' : Thread) (s s' : Shared)
    → alive m ≡ true
    → Known m v t.place
    → thread_step t s ≡ some (t', s')
    → Known m v t'.place
unfolding thread_step thread_at
thread-Known2 m v t t' s s' a k e = ground (arith, a, k, e)

record IsRun (s : State) : Type 0 where
  moved : Moved s.thread1 s.thread2 (printed_by_main s.main) s.shared
  known : Known s.main s.thread1.place s.thread2.place

main_at-IsRun :
    (m : Main) (granted : Bool) (s t : State)
    → s.main ≡ m
    → main_at m granted s ≡ some t
    → IsRun s
    → IsRun t
unfolding main_at joined
main_at-IsRun m_init granted s t q e v = ground (arith, v)
main_at-IsRun m_create1 true s t q e v = ground (arith, v)
main_at-IsRun m_create1 false s t q e v = ground (arith, v)
main_at-IsRun m_create2 true s t q e v = ground (arith, v)
main_at-IsRun m_create2 false s t q e v = ground (arith, v)
main_at-IsRun m_store granted s t q e v = ground (arith, v)
main_at-IsRun m_load granted s t q e v = ground (arith, v)
main_at-IsRun (m_print n) granted s t q e v = ground (arith, v, length_one s.shared.printed n)
main_at-IsRun m_join1 granted s t q e v = ground (arith, v)
main_at-IsRun m_join2 granted s t q e v = ground (arith, v)
main_at-IsRun m_destroy granted s t q e v = ground (arith, v)
main_at-IsRun m_ended granted s t q e v = ground (arith, v)
main_at-IsRun m_failed granted s t q e v = ground (arith, v)
main_at-IsRun m_undefined granted s t q e v = ground (arith, v)

main-IsRun : (granted : Bool) (s t : State) → main_step granted s ≡ some t → IsRun s → IsRun t
unfolding main_step
main-IsRun granted s t e v = main_at-IsRun s.main granted s t refl e v

Reach-IsRun : {s : State} → Reach s → IsRun s
Reach-IsRun start = record {
  moved = record { readers = refl; count = refl; check1 = refl; check2 = refl };
  known = (refl, refl);
}
Reach-IsRun (next {s} {t} r (run_main granted e)) = main-IsRun granted s t e (Reach-IsRun r)
Reach-IsRun (next {s} r (read1 {t} {sh} a e)) =
    let v = Reach-IsRun r in
    record {
      moved = thread-Moved s.thread1 t s.thread2 _ s.shared sh v.moved e;
      known = thread-Known1 s.main s.thread1 t s.thread2.place s.shared sh a v.known e;
    }
Reach-IsRun (next {s} r (read2 {t} {sh} a e)) =
    let v = Reach-IsRun r in
    record {
      moved = Moved-swap t s.thread1 _ sh (
          thread-Moved s.thread2 t s.thread1 _ s.shared sh
            (Moved-swap s.thread1 s.thread2 _ s.shared v.moved) e);
      known = thread-Known2 s.main s.thread1.place s.thread2 t s.shared sh a v.known e;
    }

-- Behind the end of `main` both threads are through.
pub ended_free :
    {s : State}
    → Reach s
    → s.main ≡ m_ended
    → (all s.thread1.check s.thread2.check ≡ true)
      × (s.shared.readers ≡ 0)
      × (length s.shared.printed ≡ 3)
unfolding all
ended_free {s} r e =
    let v = Reach-IsRun r in
    let k = subst (λ m. Known m s.thread1.place s.thread2.place) e v.known in
    ground (arith, v.moved, k, e)
