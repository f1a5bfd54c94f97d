-- ===== src/Protocol/Payload.antt =====
-- internal/protocol/server_payload_validation.go, with the layouts of cmd12.go to cmd15.go: which
-- payloads the server may send with a command.
pub mod Faults
pub mod Fixed
pub mod Tables
pub mod Validate
pub mod Firmware
pub mod Records
pub mod Schedules
pub mod Tabled
