-- ===== src/Lib.antt =====
-- Verification of the TCP adapter: a server to which controllers connect over TCP, and which queues
-- commands for them, sends them, and waits for their acknowledgements.
--
-- The parts, and the files that model them (paths from the repository's root):
-- Crc: internal/protocol/crc16.go.
-- Protocol: internal/protocol. Cmd and AckCode are constants.go; Messages is messages.go; Frame is
--   frame.go, with `encode_frame` for EncodeFrame and `read_frame_with_mode` for ReadFrameWithMode;
--   Payload is server_payload_validation.go, one function for each case of its switch; Builders is
--   server_payload_builders.go, `build_cmd14` for Cmd14SyncSchedulePayload.Build and so on.
-- Queue: internal/queue/queue.go. A queue is its four buffers, and each method is a function from
--   queue to queue.
-- Store: the interface of internal/store/store.go, as a record of operations on a state of its own
--   that each can fail; Store.Memory is InMemoryStore, and Store.File is FileStore, over the results of
--   its calls of package os and encoding/json; Store.Backups is cleanupCorruptBackups.
-- Session: internal/session/manager.go. Session.Manager holds the manager's state and the life of a
--   session; its children hold Enqueue, the commands in flight, and Restore. Session.Room is the
--   overflow handling of enqueueLocked, Session.Retry the loop of ProcessInFlight, Session.Backoff
--   the retry delays. Session.Manager.Calls makes the methods steps of one machine.
-- Server: Server.Policy is internal/server/command_policy.go, the others are server.go. Server.Guard
--   is the limits per remote host; Server.Flush is flushQueue, over the manager's methods as a record
--   of calls, which Server.Flush.Calls fills; Server.Link is handleConn, one turn of its loop as a step;
--   Server.DebugLog is the buffers of debug events and raw messages. Server.CommandBuilder is
--   command_builder.go, with encoding/json as a parameter, and Server.HexText its texts of hex.
-- Common: shared types, lists, words, dictionaries and their lemmas. Examples: concrete inputs.
--
-- A Go string is its bytes, a byte a number below 256, an error a value of a data type with the
-- arguments of its message. Times and durations are integers in nanoseconds, and where the source
-- adds durations in int64 or counts in uint8, uint16 or uint32, the wrap-around is written out. The
-- current time is an argument. A Go map is an association list; a range over it takes the list's
-- order, and the theorems hold for each list. The mutexes make each method one step.
--
-- The manager is over any type of connections and any store: what a store answers is free, so the
-- theorems hold for stores that fail. What a connection answers to a write is a function of the frame
-- and the number of frames before it. Two loops have fuel: that of enqueueLocked, one round more than
-- the queue has commands, and that of flushQueue, one round more than the budget has bytes; a theorem
-- for each says that this is enough.
--
-- A flush, a turn of handleConn and each method of the manager is one step: what other goroutines do
-- while a flush runs is not modelled, and a flush has one time throughout.
--
-- Not modelled: of internal/server/server.go the sockets, the sweep and the shutdown, the metrics and
-- most fields of the published events; the HTTP interface but for the building of commands; the form's
-- page and schema; temporary files and the PostgreSQL store; configuration, Kafka, and the programs under cmd.
pub mod Common
pub mod Crc
pub mod Protocol
pub mod Queue
pub mod Store
pub mod Session
pub mod Server
pub mod Examples
