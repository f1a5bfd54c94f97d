-- ===== src/Server/Guard/Reachable.antt =====
-- The states of the guard that the connections bring about.
use tcpadapter.Common.{◌≡◌, refl, Bytes, some, inr, arith, []}
use tcpadapter.Common.Int.{ℤ}
use tcpadapter.Common.Dict.{Eq, lookup, bytes_key}
use tcpadapter.Common.Dict.Keys.{IsFree}
use tcpadapter.Server.Guard.{
  Guard, GuardConfig, try_track_conn, untrack_conn, is_ip_blocked, register_ip_violation,
}
use tcpadapter.Server.Guard.Counts.{IsCounted, try_track_conn-IsCounted, untrack_conn-IsCounted}

abbrev pub new_guard : {Conn : Type 0} → Guard Conn
new_guard = record {
  conns = [];
  ip_conn_count = [];
  ip_sec = [];
  ip_violation_total = 0;
  ip_block_applied_total = 0;
}

module _ {Conn : Type 0} ⦃e : Eq Conn⦄ (remote_host : Conn → Bytes) (cfg : GuardConfig) where
  -- What the goroutines of `handleConn` do with the guard: an accepted connection is a new one, and
  -- only a connection that is tracked is untracked.
  pub data Step : Guard Conn → Guard Conn → Type 0 where
    tracks :
        (c : Conn) (g : Guard Conn)
        → IsFree c g.conns
        → Step g (try_track_conn remote_host cfg c g).1
    untracks :
        (c : Conn) (g : Guard Conn)
        → lookup c g.conns ≡ some tt
        → Step g (untrack_conn remote_host cfg c g)
    asks : (host : Bytes) (now : ℤ) (g : Guard Conn) → Step g (is_ip_blocked cfg host now g).1
    notes :
        (host : Bytes) (now : ℤ) (g : Guard Conn) → Step g (register_ip_violation cfg host now g)

  pub data Reachable : Guard Conn → Type 0 where
    starts : Reachable new_guard
    goes : {g h : Guard Conn} → Reachable g → Step g h → Reachable h

  asks-conns :
      (host : Bytes) (now : ℤ) (g : Guard Conn)
      → ((is_ip_blocked cfg host now g).1.conns ≡ g.conns)
        × ((is_ip_blocked cfg host now g).1.ip_conn_count ≡ g.ip_conn_count)
  unfolding is_ip_blocked
  asks-conns host now g = ground arith

  notes-conns :
      (host : Bytes) (now : ℤ) (g : Guard Conn)
      → ((register_ip_violation cfg host now g).conns ≡ g.conns)
        × ((register_ip_violation cfg host now g).ip_conn_count ≡ g.ip_conn_count)
  unfolding register_ip_violation
  notes-conns host now g = ground arith

  IsCounted-same :
      (g h : Guard Conn)
      → (h.conns ≡ g.conns) × (h.ip_conn_count ≡ g.ip_conn_count)
      → IsCounted remote_host cfg g
      → IsCounted remote_host cfg h
  IsCounted-same g h (c, n) v = record {
    distinct = rw c v.distinct;
    counts = λ host. rw (c, n) (v.counts host);
    within = λ host. rw c (v.within host);
  }

  Step-IsCounted :
      {g h : Guard Conn} → Step g h → IsCounted remote_host cfg g → IsCounted remote_host cfg h
  Step-IsCounted (tracks c g free) v = try_track_conn-IsCounted remote_host cfg c g free v
  Step-IsCounted (untracks c g tracked) v = untrack_conn-IsCounted remote_host cfg c g tracked v
  Step-IsCounted (asks host now g) v = IsCounted-same g _ (asks-conns host now g) v
  Step-IsCounted (notes host now g) v = IsCounted-same g _ (notes-conns host now g) v

  -- In every state that is reached from the new guard, where each accepted connection is a new one and only
  -- tracked connections are untracked, each host's count is the number of its tracked connections, and
  -- this is within the limit per host where one is set.
  pub Reachable-IsCounted : {g : Guard Conn} → Reachable g → IsCounted remote_host cfg g
  unfolding lookup
  Reachable-IsCounted starts = record {
    distinct = tt;
    counts = λ host. refl;
    within = λ host. inr (ground arith);
  }
  Reachable-IsCounted (goes r s) = Step-IsCounted s (Reachable-IsCounted r)
