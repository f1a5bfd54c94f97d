-- ===== src/Examples.antt =====
-- The theorems at concrete inputs.
pub mod Frames
pub mod Queues
pub mod Sessions
pub mod Stores
pub mod Server
pub mod Builder
