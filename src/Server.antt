-- ===== src/Server.antt =====
-- internal/server: what the server decides about connections and commands.
pub mod Policy
pub mod Guard
pub mod Flush
pub mod DebugLog
pub mod Link
pub mod HexText
pub mod CommandBuilder
