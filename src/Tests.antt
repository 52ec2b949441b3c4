-- ===== src/Tests.antt =====
-- The theorems at concrete inputs.
mod SharedList
mod Sensors
mod Connections
mod Driver
mod Storage
mod MessageQueue
