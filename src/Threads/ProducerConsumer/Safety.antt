-- ===== src/Threads/ProducerConsumer/Safety.antt =====
-- 09-semaphore/producer-consumer/main.c: the reachable states.
use linux_programing.Common.{ℕ, ◌+◌, ◌≤◌, ◌≡◌, ◌≢◌, ◌⊎◌, inl, inr, arith, Option-cases}
use linux_programing.Threads.ProducerConsumer.{
  buffer_size, Place, outside, reserved, inside, posted, System, initial, producer_step,
  consumer_step, Step, produce, consume, Reach, start, next,
}

-- Whether the producer holds the mutex, and a slot that is neither empty nor full.
abbrev p_mutex : Place → ℕ
p_mutex outside = 0
p_mutex reserved = 0
p_mutex inside = 1
p_mutex posted = 1

abbrev p_slot : Place → ℕ
p_slot outside = 0
p_slot reserved = 1
p_slot inside = 1
p_slot posted = 0

-- The same of the consumer.
abbrev c_mutex : Place → ℕ
c_mutex outside = 0
c_mutex reserved = 0
c_mutex inside = 1
c_mutex posted = 0

abbrev c_slot : Place → ℕ
c_slot outside = 0
c_slot reserved = 1
c_slot inside = 1
c_slot posted = 1

record IsBalanced (s : System) : Type 0 where
  one_holder : s.mutex + p_mutex s.producer + c_mutex s.consumer ≡ 1
  slots : s.empty + s.full + p_slot s.producer + c_slot s.consumer ≡ buffer_size

Step-IsBalanced : {s t : System} → Step s t → IsBalanced s → IsBalanced t
unfolding producer_step consumer_step
Step-IsBalanced (produce e) b = ground arith
Step-IsBalanced (consume e) b = ground arith

Reach-IsBalanced : {s : System} → Reach s → IsBalanced s
unfolding initial
Reach-IsBalanced start = omega arith
Reach-IsBalanced (next r st) = Step-IsBalanced st (Reach-IsBalanced r)

-- In every reachable state in which the producer is between `sem_wait(mutex)` and
-- `sem_post(mutex)`, the consumer is not.
pub mutual_exclusion :
    {s : System} → Reach s → (s.producer ≡ inside) ⊎ (s.producer ≡ posted) → s.consumer ≢ inside
mutual_exclusion r p c = let b = Reach-IsBalanced r in ground (arith, b.one_holder)

-- In every reachable state neither `full` nor `empty` is above the size of the buffer.
pub full_bounded : {s : System} → Reach s → (s.full ≤ buffer_size) × (s.empty ≤ buffer_size)
full_bounded r = let b = Reach-IsBalanced r in omega (arith, b.slots)

-- In every reachable state one of the two processes can move.
pub no_deadlock : {s : System} → Reach s → (t : System) × Step s t
unfolding producer_step consumer_step
no_deadlock {s} r =
    let b = Reach-IsBalanced r in
    elim (Option-cases (producer_step s)) [
      | inr (t, e) ↦ (t, produce e)
      | inl p ↦ elim (Option-cases (consumer_step s)) [
        | inr (t, e) ↦ (t, consume e)
        | inl c ↦ absurd (ground (arith, b.one_holder, b.slots))
      ]
    ]
