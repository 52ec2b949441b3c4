-- ===== src/Threads/ProducerConsumer.antt =====
-- 09-semaphore/producer-consumer/main.c: two processes, three semaphores. A step of a process is
-- one semaphore operation; `none` means that it sleeps in `sem_wait`.
pub mod Safety
mod Tests
use linux_programing.Common.{
  ◌≡◌, ℕ, zero, suc, ◌+◌, ◌-◌, Bool, Option, none, some, List, [], ◌∷◌, ltb, if◌then◌else◌,
}

abbrev pub buffer_size : ℕ
buffer_size = 10

-- Where a process stands: before its first wait, after it, after `sem_wait(mutex)`, or between its
-- two posts.
pub data Place : Type 0 where
  outside reserved inside posted : Place

pub record System : Type 0 where
  pub mutex : ℕ
  pub full : ℕ
  pub empty : ℕ
  pub producer : Place
  pub consumer : Place

-- The three `sem_init` calls, with both processes at the top of their loops.
pub initial : System
initial = record {
  mutex = 1;
  full = 0;
  empty = buffer_size;
  producer = outside;
  consumer = outside;
}

producer_at : Place → System → Option System
producer_at outside s =
    if ltb 0 s.empty then some (record s { empty = s.empty - 1; producer = reserved }) else none
producer_at reserved s =
    if ltb 0 s.mutex then some (record s { mutex = s.mutex - 1; producer = inside }) else none
producer_at inside s = some (record s { full = s.full + 1; producer = posted })
producer_at posted s = some (record s { mutex = s.mutex + 1; producer = outside })

pub producer_step : System → Option System
unfolding producer_at
producer_step s = producer_at s.producer s

consumer_at : Place → System → Option System
consumer_at outside s =
    if ltb 0 s.full then some (record s { full = s.full - 1; consumer = reserved }) else none
consumer_at reserved s =
    if ltb 0 s.mutex then some (record s { mutex = s.mutex - 1; consumer = inside }) else none
consumer_at inside s = some (record s { mutex = s.mutex + 1; consumer = posted })
consumer_at posted s = some (record s { empty = s.empty + 1; consumer = outside })

pub consumer_step : System → Option System
unfolding consumer_at
consumer_step s = consumer_at s.consumer s

-- Either process may move.
pub data Step (s : System) : System → Type 0 where
  produce : {t : System} → producer_step s ≡ some t → Step s t
  consume : {t : System} → consumer_step s ≡ some t → Step s t

pub data Reach : System → Type 0 where
  start : Reach initial
  next : {s t : System} → Reach s → Step s t → Reach t
