-- ===== src/Store.antt =====
-- internal/store/store.go: what is kept of a session across restarts.
pub mod Memory
pub mod File
pub mod Backups
use tcpadapter.Common.{ℕ, Bool, List, Bytes, Result, Option}
use tcpadapter.Common.Int.{ℤ}
use tcpadapter.Queue.{Command}

pub record InFlightSnapshot : Type 0 where
  pub seq : ℕ
  pub command : Command
  pub sent_at : ℤ
  pub attempts : ℕ

pub record SessionSnapshot : Type 0 where
  pub controller_id : Bytes
  pub last_seen : ℤ
  pub buffer_free : ℕ
  pub fw_mode : Bool
  pub sync_mode : Bool
  pub pending : List Command
  pub in_flight : List InFlightSnapshot
  pub next_seq : ℕ

-- The interface `Store`. Its implementations keep state of their own, and each call returns the
-- error, if there was one, with the new state.
pub record Store : Type 1 where
  pub State : Type 0
  pub StoreError : Type 0
  pub save_session : SessionSnapshot → State → Option StoreError × State
  pub delete_session : Bytes → State → Option StoreError × State
  pub list_sessions : State → Result StoreError (List SessionSnapshot)
