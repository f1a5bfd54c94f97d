-- ===== src/Protocol/Builders.antt =====
-- internal/protocol/server_payload_builders.go: the payloads that the server sends, from typed
-- fields. A Go array of n bytes is a list of n bytes, and a string its bytes.
pub mod Fields
pub mod Short
pub mod Long
pub mod Settings
pub mod Records
pub mod Sync
pub mod Tables
pub mod Schedules
