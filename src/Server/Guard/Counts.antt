-- ===== src/Server/Guard/Counts.antt =====
-- The counts of connections per host.
use tcpadapter.Common.{
  ℕ, suc, ◌-◌, ◌≤◌, ◌≡◌, refl, ap, ◌⊎◌, inl, inr, ◌&&◌, [], ◌∷◌, none, some, ltb, leb,
  if◌then◌else◌, Bytes, arith, Bool-cases, Option-cases,
}
use tcpadapter.Common.Dict.{
  Eq, Dict, lookup, insert, delete, lookup-insert, lookup-delete, bytes_key, bytes_eq, bytes_eq_iff,
}
use tcpadapter.Common.Dict.Keys.{Distinct, IsFree, insert-Distinct, delete-Distinct}
use tcpadapter.Server.Guard.{Guard, GuardConfig, count_at, try_track_conn, untrack_conn}

module _ {Conn : Type 0} ⦃e : Eq Conn⦄ (remote_host : Conn → Bytes) where
  -- How many of the connections come from a host.
  abbrev pub number : Bytes → Dict Conn (Unit {0}) → ℕ
  number host [] = 0
  number host ((c, u) ∷ m) =
      let n = number host m in if bytes_eq (remote_host c) host then suc n else n

  number-insert :
      (host : Bytes) (c : Conn) (m : Dict Conn (Unit {0}))
      → IsFree c m
      → number host (insert c tt m)
        ≡ (if bytes_eq (remote_host c) host then suc (number host m) else number host m)
  unfolding insert
  number-insert host c [] free = refl
  number-insert host c ((d, u) ∷ m) free = rw free.0 (ground (arith, number-insert host c m free.1))

  delete-free : (c : Conn) (m : Dict Conn (Unit {0})) → IsFree c m → delete c m ≡ m
  unfolding delete
  delete-free c [] free = refl
  delete-free c ((d, u) ∷ m) free = rw free.0 (ap (◌∷◌ (d, u)) (delete-free c m free.1))

  number-delete :
      (host : Bytes) (c : Conn) (m : Dict Conn (Unit {0}))
      → Distinct m
      → lookup c m ≡ some tt
      → number host m ≡ (
          if bytes_eq (remote_host c) host
          then suc (number host (delete c m))
          else number host (delete c m))
  unfolding lookup delete
  number-delete host c [] d found = cc
  number-delete host c ((j, u) ∷ m) d found = elim (Bool-cases (e.beq j c)) [
    | inl t ↦
        let same : j ≡ c = (e.beq_iff j c).0 t in
        let gone : delete c m ≡ m = delete-free c m (rw same at d.0) in rw (t, gone, same)
    | inr t ↦ let rest = number-delete host c m d.1 (rw t at found) in rw t (ground (arith, rest))
  ]

  -- What holds of the guard's state: a connection is there once, each host's count is the number of its connections, and the
  -- number is within the limit where one is set.
  pub record IsCounted (cfg : GuardConfig) (g : Guard Conn) : Type 0 where
    pub distinct : Distinct g.conns
    pub counts : (host : Bytes) → count_at host g.ip_conn_count ≡ number host g.conns
    pub within :
        (host : Bytes)
        → (cfg.max_connections_per_ip ≡ 0) ⊎ (number host g.conns ≤ cfg.max_connections_per_ip)

  count_at-insert :
      (host other : Bytes) (n : ℕ) (m : Dict Bytes ℕ)
      → count_at other (insert host n m) ≡ (if bytes_eq host other then n else count_at other m)
  count_at-insert host other n m = elim (Bool-cases (bytes_eq host other)) [
    | inl t ↦ rw (count_at, lookup-insert host other n m, t)
    | inr t ↦ rw (count_at, lookup-insert host other n m, t)
  ]

  count_at-delete :
      (host other : Bytes) (m : Dict Bytes ℕ)
      → count_at other (delete host m) ≡ (if bytes_eq host other then 0 else count_at other m)
  count_at-delete host other m = elim (Bool-cases (bytes_eq host other)) [
    | inl t ↦ rw (count_at, lookup-delete host other m, t)
    | inr t ↦ rw (count_at, lookup-delete host other m, t)
  ]

  pub try_track_conn-IsCounted :
      (cfg : GuardConfig) (c : Conn) (g : Guard Conn)
      → IsFree c g.conns
      → IsCounted cfg g
      → IsCounted cfg (try_track_conn remote_host cfg c g).1
  unfolding try_track_conn
  try_track_conn-IsCounted cfg c g free v =
      let host = remote_host c in
      let n = count_at host g.ip_conn_count in
      elim (Bool-cases (ltb 0 cfg.max_connections_per_ip && leb cfg.max_connections_per_ip n)) [
        | inl full ↦ rw full v
        | inr room ↦ rw room record {
          distinct = insert-Distinct c tt g.conns v.distinct;
          counts = λ other.
              rw
                (
                  count_at-insert host other (suc n) g.ip_conn_count,
                  number-insert other c g.conns free,
                )
                (ground (arith, bytes_eq_iff host other, v.counts host, v.counts other));
          within = λ other. rw (number-insert other c g.conns free) (
              ground
                (arith, bytes_eq_iff host other, v.counts host, v.counts other, v.within other));
        }
      ]

  untracked_count :
      (cfg : GuardConfig) (c : Conn) (g : Guard Conn) (other : Bytes)
      → count_at other (untrack_conn remote_host cfg c g).ip_conn_count ≡ (
          if bytes_eq (remote_host c) other
          then count_at (remote_host c) g.ip_conn_count - 1
          else count_at other g.ip_conn_count)
  unfolding untrack_conn
  untracked_count cfg c g other =
      let host = remote_host c in
      elim (Option-cases (lookup host g.ip_conn_count)) [
        | inl missing ↦ elim (Bool-cases (bytes_eq host other)) [
          | inl t ↦
              let same : host ≡ other = (bytes_eq_iff host other).0 t in
              let there : lookup other g.ip_conn_count ≡ none = rw same at missing in
              rw (t, missing, count_at, there) refl
          | inr t ↦ rw (count_at, t, missing) refl
        ]
        | inr (n, found) ↦ elim (Bool-cases (leb n 1)) [
          | inl last ↦
              rw (untrack_conn, found, last, count_at-delete host other g.ip_conn_count)
                (ground arith)
          | inr more ↦
              rw (untrack_conn, found, more, count_at-insert host other (n - 1) g.ip_conn_count)
                (ground arith)
        ]
      ]

  pub untrack_conn-IsCounted :
      (cfg : GuardConfig) (c : Conn) (g : Guard Conn)
      → lookup c g.conns ≡ some tt
      → IsCounted cfg g
      → IsCounted cfg (untrack_conn remote_host cfg c g)
  unfolding untrack_conn
  untrack_conn-IsCounted cfg c g tracked v = record {
    distinct = delete-Distinct c g.conns v.distinct;
    counts = λ other. rw (untracked_count cfg c g other) (
        ground (
          arith,
          bytes_eq_iff (remote_host c) other,
          v.counts (remote_host c),
          v.counts other,
          number-delete other c g.conns v.distinct tracked,
        ));
    within =
        λ other. ground (arith, v.within other, number-delete other c g.conns v.distinct tracked);
  }
