-- ===== src/Storage.antt =====
-- The storage service (services/storage/enclave/src): its database, its queues and its requests.
pub mod LevelDb
pub mod Queue
pub mod Keys
pub mod Slots
pub mod Fifo
pub mod Service
pub mod Client
