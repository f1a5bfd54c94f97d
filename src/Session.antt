-- ===== src/Session.antt =====
-- internal/session/manager.go: the sessions of all controllers.
-- A method runs under the manager's mutex, so it is one step from manager to manager. The store, the
-- type of connections and the clock are parameters; a method takes the time `now` once where the
-- source reads the clock several times in a row. Counters and limits that the source compares with 0
-- first are natural numbers, 0 for every value that the source treats as absent.
pub mod Types
pub mod Backoff
pub mod Room
pub mod Manager
pub mod Retry
