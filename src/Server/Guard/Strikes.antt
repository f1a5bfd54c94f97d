-- ===== src/Server/Guard/Strikes.antt =====
-- What one violation does to the guard.
use tcpadapter.Common.{
  suc, ◌≤◌, ◌<◌, ◌≡◌, refl, ap, ◌∙◌, true, false, [], ◌∷◌, ◌++◌, length, leb, ◌==◌, if◌then◌else◌,
  Bytes, arith, Bool-cases, inl, inr, ◌⊎◌, some,
}
use tcpadapter.Common.Int.{ℤ, ◌+ℤ◌, ltb_ℤ}
use tcpadapter.Common.Dict.{lookup, lookup-insert_self, bytes_key, bytes_eq}
use tcpadapter.Protocol.Messages.Registration.{is_empty}
use tcpadapter.Server.Guard.{
  Guard, GuardConfig, is_ip_blocked, register_ip_violation, kept, security_at,
}
use tcpadapter.Server.Guard.Blocks.{register-inserts, state_after, register-blocks}

-- The connections and their numbers are as before, and one more violation is counted.
pub record Noted {Conn : Type 0} (g g' : Guard Conn) : Type 0 where
  pub conns : g'.conns ≡ g.conns
  pub counts : g'.ip_conn_count ≡ g.ip_conn_count
  pub total : g'.ip_violation_total ≡ suc g.ip_violation_total

-- The guard after a violation. Without a limit or a host nothing is noted. Under the limit the host's violations within
-- the window get this one, and nobody's answer changes; with the limit's last one the host is blocked, and nobody else's answer changes.
pub data Strikes {Conn : Type 0} (cfg : GuardConfig) (host : Bytes) (now : ℤ) (g : Guard Conn)
    : Guard Conn → Type 0 where
  unwatched : (cfg.ip_violation_limit ≡ 0) ⊎ (is_empty host ≡ true) → Strikes cfg host now g g
  strike :
      {g' : Guard Conn}
      → Noted g g'
      → suc (length (kept cfg host now g)) < cfg.ip_violation_limit
      → (security_at cfg host g').violations ≡ kept cfg host now g ++ now ∷ []
      → ((asked : Bytes) (later : ℤ)
          → (is_ip_blocked cfg asked later g').0 ≡ (is_ip_blocked cfg asked later g).0)
      → Strikes cfg host now g g'
  blocks :
      {g' : Guard Conn}
      → Noted g g'
      → 0 < cfg.ip_violation_limit
      → cfg.ip_violation_limit ≤ suc (length (kept cfg host now g))
      → ((asked : Bytes) (later : ℤ)
          → (is_ip_blocked cfg asked later g').0 ≡ (
              if bytes_eq host asked
              then ltb_ℤ later (now +ℤ cfg.ip_block_duration)
              else (is_ip_blocked cfg asked later g).0))
      → Strikes cfg host now g g'

register-Noted :
    {Conn : Type 0} (cfg : GuardConfig) (host : Bytes) (now : ℤ) (g : Guard Conn)
    → 0 < cfg.ip_violation_limit
    → is_empty host ≡ false
    → Noted g (register_ip_violation cfg host now g)
unfolding register_ip_violation
register-Noted cfg host now g limited named =
    let z : (cfg.ip_violation_limit == 0) ≡ false = ground arith in
    elim (Bool-cases (leb cfg.ip_violation_limit (length (kept cfg host now g ++ now ∷ [])))) [
      | inl t ↦ rw (z, named, t) (record { conns = refl; counts = refl; total = refl })
      | inr t ↦ rw (z, named, t) (record { conns = refl; counts = refl; total = refl })
    ]

register-Strikes :
    {Conn : Type 0} (cfg : GuardConfig) (host : Bytes) (now : ℤ) (g : Guard Conn)
    → 0 < cfg.ip_violation_limit
    → is_empty host ≡ false
    → Strikes cfg host now g (register_ip_violation cfg host now g)
register-Strikes cfg host now g limited named =
    let n = suc (length (kept cfg host now g)) in
    let noted = register-Noted cfg host now g limited named in
    let found : lookup host (register_ip_violation cfg host now g).ip_sec
        ≡ some (state_after cfg host now g) =
      ap (lookup host) (register-inserts cfg host now g limited named)
      ∙ lookup-insert_self host (state_after cfg host now g) g.ip_sec in
    let answer =
      λ (asked : Bytes) (later : ℤ). register-blocks cfg host now g asked later limited named in
    elim (Bool-cases (leb cfg.ip_violation_limit n)) [
      | inl t ↦
          blocks noted limited (ground arith) (λ asked later. ground (arith, answer asked later))
      | inr t ↦
          strike noted (ground arith) (rw (security_at, found, state_after, t) refl)
            (λ asked later. ground (arith, answer asked later))
    ]

pub register_ip_violation-Strikes :
    {Conn : Type 0} (cfg : GuardConfig) (host : Bytes) (now : ℤ) (g : Guard Conn)
    → Strikes cfg host now g (register_ip_violation cfg host now g)
unfolding register_ip_violation
register_ip_violation-Strikes cfg host now g = elim (Bool-cases (cfg.ip_violation_limit == 0)) [
  | inl z ↦ rw (register_ip_violation, z) (unwatched (inl (ground arith)))
  | inr z ↦ elim (Bool-cases (is_empty host)) [
    | inl n ↦ rw (register_ip_violation, z, n) (unwatched (inr n))
    | inr n ↦ register-Strikes cfg host now g (ground arith) n
  ]
]
