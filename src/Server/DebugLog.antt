-- ===== src/Server/DebugLog.antt =====
-- The debug events and raw messages of internal/server/server.go: buffers of the last 256 items.
pub mod Laws
use tcpadapter.Common.{
  ℕ, zero, suc, ◌-◌, Bool, ◌||◌, List, [], ◌∷◌, ◌++◌, none, some, length, drop, get_elem?, ltb,
  ◌==◌, if◌then◌else◌, Bytes,
}
use tcpadapter.Common.Int.{ℤ}
use tcpadapter.Protocol.Frame.{FrameMode}

pub record DebugEvent : Type 0 where
  pub timestamp : ℤ
  pub kind : Bytes
  pub controller_id : Bytes
  pub remote_addr : Bytes
  pub command_id : ℕ
  pub command_seq : ℕ
  pub message_id : Bytes
  pub trace_id : Bytes
  pub status : Bytes
  pub reason : Bytes
  pub payload_len : ℕ

pub record RawDebugMessage : Type 0 where
  pub timestamp : ℤ
  pub direction : Bytes
  pub controller_id : Bytes
  pub remote_addr : Bytes
  pub command_id : ℕ
  pub command_seq : ℕ
  pub frame_mode : FrameMode
  pub ttl : ℕ
  pub raw_hex : Bytes
  pub payload_hex : Bytes
  pub payload_len : ℕ
  pub message_id : Bytes
  pub trace_id : Bytes

-- What the two pairs of methods share.
module _ {ℓ} {A : Type ℓ} where
  -- An append, and then only the last `most` items.
  unfoldable pub record_item : ℕ → A → List A → List A
  record_item most item items =
      let longer = items ++ item ∷ [] in
      if ltb most (length longer) then drop (length longer - most) longer else longer

  -- `for i := len(items) - 1; i >= 0 && len(out) < limit; i--`, with `i + 1` and the room in `out`.
  unfoldable pub newest : List A → ℕ → ℕ → List A
  newest items zero room = []
  newest items (suc i) zero = []
  newest items (suc i) (suc room) = elim (get_elem? items i) [
    | none ↦ []
    | some item ↦ item ∷ newest items i room
  ]

  -- A limit that is not positive is 0.
  unfoldable pub items_snapshot : ℕ → List A → List A
  unfolding newest
  items_snapshot limit items =
      newest items (length items)
        (if limit == 0 || ltb (length items) limit then length items else limit)

abbrev pub max_debug_events : ℕ
max_debug_events = 256

abbrev pub max_raw_debug_messages : ℕ
max_raw_debug_messages = 256

-- `debug_logs` is the setting `cfg.DebugLogs`.
unfoldable pub record_debug_event : Bool → DebugEvent → List DebugEvent → List DebugEvent
unfolding record_item
record_debug_event debug_logs event events =
    if debug_logs then record_item max_debug_events event events else events

unfoldable pub debug_events_snapshot : ℕ → List DebugEvent → List DebugEvent
unfolding items_snapshot
debug_events_snapshot limit events = items_snapshot limit events

unfoldable pub record_raw_message :
    Bool → RawDebugMessage → List RawDebugMessage → List RawDebugMessage
unfolding record_item
record_raw_message debug_logs msg messages =
    if debug_logs then record_item max_raw_debug_messages msg messages else messages

unfoldable pub raw_messages_snapshot : ℕ → List RawDebugMessage → List RawDebugMessage
unfolding items_snapshot
raw_messages_snapshot limit messages = items_snapshot limit messages
