-- ===== src/Protocol.antt =====
-- internal/protocol: the wire protocol between the adapter and the controllers.
pub mod Cmd
pub mod AckCode
pub mod Messages
pub mod Frame
pub mod Payload
pub mod Builders
