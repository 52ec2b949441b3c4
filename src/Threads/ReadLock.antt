-- ===== src/Threads/ReadLock.antt =====
-- BTVN/04-thread/rw_lock/main.c: two threads read an array under a lock for readers, and `main` stores into
-- it without the lock. A step is one action of a thread; the load and the output of `printf` are two, and
-- every access to a variable is one.
pub mod Ends
pub mod Values
mod Tests
use linux_programing.Common.{
  ℕ, ◌+◌, ◌-◌, ◌≡◌, Bool, true, false, Option, none, some, List, [], ◌∷◌, ◌++◌, if◌then◌else◌,
}

-- A thread that is not created yet; before the lock, with the lock, with `a[0]` loaded, after the output,
-- after the store into its `check`, after the unlock.
pub data Place : Type 0 where
  t_absent t_start t_locked : Place
  t_loaded : (loaded : ℕ) → Place
  t_printed t_checked t_ended : Place

-- A thread with the `check` it was given.
pub record Thread : Type 0 where
  pub place : Place
  pub check : Bool

-- `main` before each of its actions, and at its ends: it has returned 0 or 1, or has waited for a thread
-- that was never created, whose identifier is not set.
pub data Main : Type 0 where
  m_init m_create1 m_create2 m_store m_load : Main
  m_print : (loaded : ℕ) → Main
  m_join1 m_join2 m_destroy m_ended m_failed m_undefined : Main

-- The lock is held by `readers` readers; no thread of the program locks it for writing. Only `a[0]` is
-- used of the array.
pub record Shared : Type 0 where
  pub readers : ℕ
  pub a : ℕ
  pub printed : List ℕ

-- `read_array1` and `read_array2`, which are the same.
thread_at : Place → Thread → Shared → Option (Thread × Shared)
thread_at t_absent t s = none
thread_at t_start t s = some (record t { place = t_locked }, record s { readers = s.readers + 1 })
thread_at t_locked t s = some (record t { place = t_loaded s.a }, s)
thread_at (t_loaded n) t s =
    some (record t { place = t_printed }, record s { printed = s.printed ++ n ∷ [] })
thread_at t_printed t s = some (record t { place = t_checked; check = true }, s)
thread_at t_checked t s = some (record t { place = t_ended }, record s { readers = s.readers - 1 })
thread_at t_ended t s = none

pub thread_step : Thread → Shared → Option (Thread × Shared)
unfolding thread_at
thread_step t s = thread_at t.place t s

pub record State : Type 0 where
  pub shared : Shared
  pub thread1 : Thread
  pub thread2 : Thread
  pub main : Main

abbrev absent : Thread
absent = record { place = t_absent; check = false }

abbrev pub initial : State
initial = record {
  shared = record { readers = 0; a = 1; printed = [] };
  thread1 = absent;
  thread2 = absent;
  main = m_init;
}

-- `all` over the two checks.
pub all : (check0 check1 : Bool) → Bool
all true true = true
all true false = false
all false _ = false

-- `pthread_join`.
joined : Place → Main → State → Option State
joined t_absent m s = some (record s { main = m_undefined })
joined t_ended m s = some (record s { main = m })
joined _ m s = none

-- `granted` is what `pthread_rwlock_init` and `pthread_create` answer; the answer of the latter is not
-- looked at.
main_at : Main → (granted : Bool) → State → Option State
unfolding joined
main_at m_init granted s = some (record s { main = if granted then m_create1 else m_failed })
main_at m_create1 granted s = some (record s {
  thread1 = record absent { place = if granted then t_start else t_absent };
  main = m_create2;
})
main_at m_create2 granted s = some (record s {
  thread2 = record absent { place = if granted then t_start else t_absent };
  main = m_store;
})
main_at m_store granted s = some (record s { shared = record s.shared { a = 10 }; main = m_load })
main_at m_load granted s = some (record s { main = m_print s.shared.a })
main_at (m_print n) granted s =
    some (record s {
      shared = record s.shared { printed = s.shared.printed ++ n ∷ [] };
      main = m_join1;
    })
main_at m_join1 granted s = joined s.thread1.place m_join2 s
main_at m_join2 granted s = joined s.thread2.place m_destroy s
main_at m_destroy granted s = some (record s { main = m_ended })
main_at m_ended granted s = none
main_at m_failed granted s = none
main_at m_undefined granted s = none

pub main_step : (granted : Bool) → State → Option State
unfolding main_at
main_step granted s = main_at s.main granted s

-- The end of `main` is the end of the process, and nothing is said behind what is undefined.
abbrev pub alive : Main → Bool
alive m_ended = false
alive m_failed = false
alive m_undefined = false
alive _ = true

pub data Step (s : State) : State → Type 0 where
  run_main : {t : State} (granted : Bool) → main_step granted s ≡ some t → Step s t
  read1 :
      {t : Thread} {sh : Shared}
      → alive s.main ≡ true
      → thread_step s.thread1 s.shared ≡ some (t, sh)
      → Step s (record s { thread1 = t; shared = sh })
  read2 :
      {t : Thread} {sh : Shared}
      → alive s.main ≡ true
      → thread_step s.thread2 s.shared ≡ some (t, sh)
      → Step s (record s { thread2 = t; shared = sh })

pub data Reach : State → Type 0 where
  start : Reach initial
  next : {s t : State} → Reach s → Step s t → Reach t
