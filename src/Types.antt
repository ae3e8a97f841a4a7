-- ===== src/Types.antt =====
-- The data that the services exchange and store (types/src).
pub mod Error
pub mod Crypto
pub mod Owners
pub mod Storage
pub mod File
pub mod Worker
pub mod Function
pub mod Staged
pub mod Task
pub mod TaskState
pub mod Transition
pub mod Restore
pub mod WellFormed
pub mod Saving
pub mod Moves
pub mod Progress
pub mod Participants
pub mod Finishing
pub mod Runtime
pub mod Aead
pub mod Cipher
pub mod Tags
