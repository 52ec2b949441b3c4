-- ===== src/Threads.antt =====
-- Programs whose behaviour depends on how their threads or processes interleave.
pub mod ProducerConsumer
pub mod LostWakeup
pub mod Wakeup
pub mod Counter
pub mod NamedSemaphore
pub mod RelatedPipe
pub mod BusyWait
pub mod ReadLock
