-- ===== src/Threads/ProducerConsumer/Tests.antt =====
-- The theorems on the producer and the consumer where the producer is inside.
use linux_programing.Common.{refl}
use linux_programing.Threads.ProducerConsumer.{
  System, outside, inside, initial, producer_at, producer_step, Step, produce, Reach, start, next,
}
use linux_programing.Threads.ProducerConsumer.Safety.{no_deadlock}

abbrev producing : System
producing = record { mutex = 0; full = 0; empty = 9; producer = inside; consumer = outside }

producing-Reach : Reach producing
unfolding initial producer_step producer_at
producing-Reach = next (next start (produce refl)) (produce refl)

no_deadlock_example : (t : System) × Step producing t
no_deadlock_example = no_deadlock producing-Reach
