-- ===== src/Server/Guard.antt =====
-- The guard of internal/server/server.go on remote addresses: how many connections each host has,
-- and which hosts are blocked for bad registrations.
pub mod Counts
pub mod Blocks
pub mod Strikes
pub mod Reachable
use tcpadapter.Common.{
  ℕ, suc, ◌+◌, ◌-◌, Bool, true, false, not, ◌&&◌, ◌||◌, List, [], ◌∷◌, ◌++◌, Option, none, some,
  length, keep_if, ltb, leb, ◌==◌, if◌then◌else◌, Bytes,
}
use tcpadapter.Common.Int.{ℤ, ◌+ℤ◌, ◌-ℤ◌, ltb_ℤ}
use tcpadapter.Common.Dict.{Eq, Dict, lookup, insert, delete, bytes_key}
use tcpadapter.Protocol.Messages.Registration.{is_empty}

-- `blocked_til` is `none` for the zero time.
pub record IpSecurityState : Type 0 where
  pub violations : List ℤ
  pub blocked_til : Option ℤ

-- The settings that the guard reads; a limit that is not positive is 0, since the code only asks
-- whether it is positive.
pub record GuardConfig : Type 0 where
  pub max_connections_per_ip : ℕ
  pub ip_violation_limit : ℕ
  pub ip_violation_window : ℤ
  pub ip_block_duration : ℤ

-- The fields of `Server` under `connMu`.
pub record Guard (Conn : Type 0) : Type 0 where
  pub conns : Dict Conn (Unit {0})
  pub ip_conn_count : Dict Bytes ℕ
  pub ip_sec : Dict Bytes IpSecurityState
  pub ip_violation_total : ℕ
  pub ip_block_applied_total : ℕ

-- A read of a map of numbers, 0 where the key is missing.
abbrev pub count_at : Bytes → Dict Bytes ℕ → ℕ
count_at host m = elim (lookup host m) [ none ↦ 0 | some n ↦ n ]

-- `remote_host` is `connRemoteHost`, whose answer the network code gives.
module _ {Conn : Type 0} ⦃e : Eq Conn⦄ (remote_host : Conn → Bytes) (cfg : GuardConfig) where
  unfoldable pub try_track_conn : Conn → Guard Conn → Bool × Guard Conn
  unfolding lookup insert
  try_track_conn c g =
      let host = remote_host c in
      let n = count_at host g.ip_conn_count in
      if ltb 0 cfg.max_connections_per_ip && leb cfg.max_connections_per_ip n then (false, g) else (
        true,
        record g {
          conns = insert c tt g.conns;
          ip_conn_count = insert host (suc n) g.ip_conn_count;
        },
      )

  unfoldable pub untrack_conn : Conn → Guard Conn → Guard Conn
  unfolding lookup insert delete
  untrack_conn c g =
      let host = remote_host c in
      record g {
        conns = delete c g.conns;
        ip_conn_count = elim (lookup host g.ip_conn_count) [
          | none ↦ g.ip_conn_count
          | some n ↦
              if leb n 1 then delete host g.ip_conn_count else insert host (n - 1) g.ip_conn_count
        ];
      }

module _ {Conn : Type 0} (cfg : GuardConfig) where
  unfoldable pub is_ip_blocked : Bytes → ℤ → Guard Conn → Bool × Guard Conn
  unfolding lookup insert
  is_ip_blocked host now g =
      if cfg.ip_violation_limit == 0 then (false, g) else elim (lookup host g.ip_sec) [
        | none ↦ (false, g)
        | some st ↦ elim st.blocked_til [
          | none ↦ (false, g)
          | some til ↦ if ltb_ℤ now til then (true, g) else (
            false,
            record g {
              ip_sec = insert host (record { violations = []; blocked_til = none }) g.ip_sec;
            },
          )
        ]
      ]

  abbrev pub security_at : Bytes → Guard Conn → IpSecurityState
  security_at host g = elim (lookup host g.ip_sec) [
    | none ↦ record { violations = []; blocked_til = none }
    | some st ↦ st
  ]

  -- The violations of a host that are still in the window.
  abbrev pub kept : Bytes → ℤ → Guard Conn → List ℤ
  kept host now g =
      keep_if (λ ts. ltb_ℤ (now -ℤ cfg.ip_violation_window) ts) (security_at host g).violations

  unfoldable pub register_ip_violation : Bytes → ℤ → Guard Conn → Guard Conn
  unfolding lookup insert ◌+ℤ◌ ◌-ℤ◌
  register_ip_violation host now g =
      let st = security_at host g in
      let violations = kept host now g ++ now ∷ [] in
      let counted = record g { ip_violation_total = suc g.ip_violation_total } in
      if cfg.ip_violation_limit == 0 || is_empty host
      then g
      else if leb cfg.ip_violation_limit (length violations)
      then record counted {
        ip_sec =
            insert host
              (record { violations = []; blocked_til = some (now +ℤ cfg.ip_block_duration) })
              g.ip_sec;
        ip_block_applied_total = suc g.ip_block_applied_total;
      }
      else record counted { ip_sec = insert host (record st { violations = violations }) g.ip_sec }

-- What `Run` does with an accepted connection while `active` others are served, less its counters: `true`
-- if the connection is handled.
module _ {Conn : Type 0} ⦃e : Eq Conn⦄ (remote_host : Conn → Bytes) (cfg : GuardConfig) where
  unfoldable pub admit_conn : ℕ → ℕ → ℤ → Conn → Guard Conn → Bool × Guard Conn
  unfolding is_ip_blocked try_track_conn
  admit_conn max_connections active now c g =
      let (is_blocked, g') = is_ip_blocked cfg (remote_host c) now g in
      if leb max_connections active
      then (false, g)
      else if is_blocked
      then (false, g')
      else try_track_conn remote_host cfg c g'
