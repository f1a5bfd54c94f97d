-- ===== src/Session/Manager/Views.antt =====
-- What internal/session/manager.go tells of its sessions.
use tcpadapter.Common.{
  ℕ, ◌+◌, Bool, true, false, not, List, [], ◌∷◌, Option, none, some, map, length, take, ltb, ◌==◌,
  if◌then◌else◌, Bytes,
}
use tcpadapter.Common.Int.{ℤ, ltb_ℤ}
use tcpadapter.Common.Sorts.{sort_by, bytes_less}
use tcpadapter.Common.Dict.{Dict, lookup, bytes_key}
use tcpadapter.Queue.{ControllerQueue, len, total_estimated_bytes}
use tcpadapter.Protocol.Frame.{FrameMode}
use tcpadapter.Session.Types.{Session}
use tcpadapter.Session.Manager.{Manager, is_online}

-- `queue` is the session's own queue, at the time of the call.
pub record DeliveryContext (Conn : Type 0) : Type 0 where
  pub controller_id : Bytes
  pub conn : Option Conn
  pub queue : ControllerQueue
  pub buffer_free : ℕ
  pub fw_mode : Bool
  pub sync_mode : Bool
  pub frame_mode : FrameMode

pub record Stats : Type 0 where
  pub session_count : ℕ
  pub queue_depth_sum : ℕ
  pub queue_depth_max : ℕ
  pub queue_bytes_sum : ℕ
  pub queue_bytes_max : ℕ
  pub in_flight_count_sum : ℕ
  pub in_flight_count_max : ℕ
  pub online_session_count : ℕ

pub record ControllerQueueStat : Type 0 where
  pub controller_id : Bytes
  pub queue_depth : ℕ
  pub queue_bytes : ℕ
  pub in_flight : ℕ
  pub online : Bool
  pub last_seen : ℤ

pub record ControllerSessionStat : Type 0 where
  pub controller_id : Bytes
  pub remote_addr : Bytes
  pub queue_depth : ℕ
  pub queue_bytes : ℕ
  pub in_flight : ℕ
  pub online : Bool
  pub last_seen : ℤ
  pub buffer_free : ℕ
  pub fw_mode : Bool
  pub sync_mode : Bool
  pub next_seq : ℕ

-- `if x > max { max = x }`
abbrev larger : ℕ → ℕ → ℕ
larger max x = if ltb max x then x else max

abbrev pub deeper : ControllerQueueStat → ControllerQueueStat → Bool
deeper a b =
    if not (a.queue_depth == b.queue_depth)
    then ltb b.queue_depth a.queue_depth
    else if not (a.in_flight == b.in_flight)
    then ltb b.in_flight a.in_flight
    else bytes_less a.controller_id b.controller_id

abbrev same_online : Bool → Bool → Bool
same_online true b = b
same_online false b = not b

abbrev pub more_recent : ControllerSessionStat → ControllerSessionStat → Bool
more_recent a b =
    if not (same_online a.online b.online)
    then a.online
    else if not (a.queue_depth == b.queue_depth)
    then ltb b.queue_depth a.queue_depth
    else if ltb_ℤ b.last_seen a.last_seen
    then true
    else if ltb_ℤ a.last_seen b.last_seen
    then false
    else bytes_less a.controller_id b.controller_id

module _ {Conn : Type 0} where
  unfoldable pub delivery_context :
      {State : Type 0} → Bytes → Manager Conn State → Option (DeliveryContext Conn)
  unfolding lookup
  delivery_context id m = elim (lookup id m.sessions) [
    | none ↦ none
    | some s ↦ some (record {
      controller_id = s.controller_id;
      conn = s.conn;
      queue = s.queue;
      buffer_free = s.buffer_free;
      fw_mode = s.fw_mode;
      sync_mode = s.sync_mode;
      frame_mode = s.frame_mode;
    })
  ]

  -- `Get`
  unfoldable pub get : {State : Type 0} → Bytes → Manager Conn State → Option (Session Conn)
  unfolding lookup
  get id m = lookup id m.sessions

  unfoldable pub in_flight_seqs : {State : Type 0} → Bytes → Manager Conn State → List ℕ
  unfolding lookup sort_by
  in_flight_seqs id m = elim (lookup id m.sessions) [
    | none ↦ []
    | some s ↦ sort_by ltb (map (λ p. p.0) s.in_flight)
  ]

  -- One session of the loop.
  unfoldable pub add_stats : Session Conn → Stats → Stats
  unfolding len total_estimated_bytes
  add_stats s t =
      let depth = len s.queue in
      let bytes = total_estimated_bytes s.queue in
      let in_flight = length s.in_flight in
      record t {
        queue_depth_sum = t.queue_depth_sum + depth;
        queue_depth_max = larger t.queue_depth_max depth;
        queue_bytes_sum = t.queue_bytes_sum + bytes;
        queue_bytes_max = larger t.queue_bytes_max bytes;
        in_flight_count_sum = t.in_flight_count_sum + in_flight;
        in_flight_count_max = larger t.in_flight_count_max in_flight;
        online_session_count = t.online_session_count + (if is_online s then 1 else 0);
      }

  unfoldable pub stats_of : Dict Bytes (Session Conn) → Stats → Stats
  unfolding add_stats
  stats_of [] t = t
  stats_of ((_, s) ∷ m) t = stats_of m (add_stats s t)

  unfoldable pub snapshot_stats : {State : Type 0} → Manager Conn State → Stats
  unfolding stats_of
  snapshot_stats m = stats_of m.sessions (record {
    session_count = length m.sessions;
    queue_depth_sum = 0;
    queue_depth_max = 0;
    queue_bytes_sum = 0;
    queue_bytes_max = 0;
    in_flight_count_sum = 0;
    in_flight_count_max = 0;
    online_session_count = 0;
  })

  unfoldable pub queue_stat : Bytes × Session Conn → ControllerQueueStat
  unfolding len total_estimated_bytes
  queue_stat (_, s) = record {
    controller_id = s.controller_id;
    queue_depth = len s.queue;
    queue_bytes = total_estimated_bytes s.queue;
    in_flight = length s.in_flight;
    online = is_online s;
    last_seen = s.last_seen;
  }

  -- A limit that is not positive is 0, and stands for 20.
  unfoldable pub top_queue_stats :
      {State : Type 0} → ℕ → Manager Conn State → List ControllerQueueStat
  unfolding sort_by queue_stat bytes_less
  top_queue_stats limit m =
      take (if limit == 0 then 20 else limit) (sort_by deeper (map queue_stat m.sessions))

  -- `remote_addr` is the text of the connection's address, empty without one.
  unfoldable pub session_stat : (Conn → Bytes) → Bytes × Session Conn → ControllerSessionStat
  unfolding len total_estimated_bytes
  session_stat remote_addr (_, s) = record {
    controller_id = s.controller_id;
    remote_addr = elim s.conn [ none ↦ [] | some c ↦ remote_addr c ];
    queue_depth = len s.queue;
    queue_bytes = total_estimated_bytes s.queue;
    in_flight = length s.in_flight;
    online = is_online s;
    last_seen = s.last_seen;
    buffer_free = s.buffer_free;
    fw_mode = s.fw_mode;
    sync_mode = s.sync_mode;
    next_seq = s.next_seq;
  }

  -- A limit that is not positive is 0, and there is none.
  unfoldable pub session_stats :
      {State : Type 0} → ℕ → (Conn → Bytes) → Manager Conn State → List ControllerSessionStat
  unfolding sort_by session_stat bytes_less
  session_stats limit remote_addr m =
      let all = sort_by more_recent (map (session_stat remote_addr) m.sessions) in
      if limit == 0 then all else take limit all
