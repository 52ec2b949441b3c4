-- ===== src/Gateway.antt =====
-- The sensor gateway, final-assignment/.
pub mod Heap
pub mod Order
pub mod Search
pub mod Sort
pub mod SharedList
pub mod Net
pub mod Message
pub mod Timestamp
pub mod DebugLog
pub mod SensorNode
pub mod Storage
pub mod Averages
pub mod ReportLog
pub mod Consumers
pub mod Connections
pub mod Data
pub mod Database
pub mod Files
pub mod Json
pub mod Options
pub mod LogPipe
pub mod Setup
pub mod JsonFile
