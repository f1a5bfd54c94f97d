-- ===== src/Session/Types.antt =====
-- The records of internal/session/manager.go.
use tcpadapter.Common.{ℕ, Bool, Bytes, Option}
use tcpadapter.Common.Int.{ℤ}
use tcpadapter.Common.Dict.{Dict}
use tcpadapter.Queue.{Command, ControllerQueue}
use tcpadapter.Protocol.Frame.{FrameMode}

pub record InFlightEntry : Type 0 where
  pub seq : ℕ
  pub command : Command
  pub sent_at : ℤ
  pub attempts : ℕ

-- `conn` is `none` for a nil `net.Conn`.
pub record Session (Conn : Type 0) : Type 0 where
  pub controller_id : Bytes
  pub conn : Option Conn
  pub queue : ControllerQueue
  pub last_seen : ℤ
  pub last_touched_persisted_at : ℤ
  pub buffer_free : ℕ
  pub fw_mode : Bool
  pub sync_mode : Bool
  pub dedup : Dict Bytes ℤ
  pub in_flight : Dict ℕ InFlightEntry
  pub next_seq : ℕ
  pub frame_mode : FrameMode

-- "reject", "drop_oldest", and any other string.
pub data OverflowPolicy : Type 0 where
  reject drop_oldest_policy : OverflowPolicy
  unknown_policy : Bytes → OverflowPolicy

pub data LimitType : Type 0 where
  depth bytes : LimitType

pub data Action : Type 0 where
  rejected dropped : Action

pub record OverflowEvent : Type 0 where
  pub controller_id : Bytes
  pub limit_type : LimitType
  pub policy : OverflowPolicy
  pub action : Action

pub record DeliveryPolicy : Type 0 where
  pub ack_timeout : ℤ
  pub retry_backoff : ℤ
  pub max_retries : ℤ

pub data OutcomeType : Type 0 where
  expired_outcome failed_outcome retrying_outcome : OutcomeType

pub data OutcomeReason : Type 0 where
  ttl_expired_while_waiting retries_exceeded ack_timeout_passed : OutcomeReason

pub record InFlightOutcome : Type 0 where
  pub type : OutcomeType
  pub seq : ℕ
  pub command : Command
  pub attempts : ℕ
  pub reason : OutcomeReason

-- The errors of the manager's methods; `store_failed` carries what the store returned.
pub data SessionError (E : Type 0) : Type 0 where
  session_exists session_not_found duplicate queue_full queue_bytes_full : SessionError E
  max_connections : SessionError E
  -- No error of the program: the fuel of a loop ran out.
  out_of_fuel : SessionError E
  store_failed : E → SessionError E
