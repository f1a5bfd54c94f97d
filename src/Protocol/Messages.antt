-- ===== src/Protocol/Messages.antt =====
-- internal/protocol/messages.go: the messages that a controller sends.
pub mod Registration
pub mod Reports
