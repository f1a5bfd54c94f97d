-- ===== src/Server/Guard/Blocks.antt =====
-- When a host is blocked.
use tcpadapter.Common.{
  suc, ◌<◌, ◌≡◌, refl, ap, ◌∙◌, List, Bool, false, ◌&&◌, [], ◌∷◌, ◌++◌, Option, none, some, length,
  length-append, leb, ◌==◌, if◌then◌else◌, Bytes, arith, Bool-cases, inl, inr, Option-cases,
}
use tcpadapter.Common.Int.{ℤ, ◌+ℤ◌, ltb_ℤ}
use tcpadapter.Common.Dict.{lookup, insert, lookup-insert, bytes_key, bytes_eq, bytes_eq_iff}
use tcpadapter.Protocol.Messages.Registration.{is_empty}
use tcpadapter.Server.Guard.{
  Guard, GuardConfig, IpSecurityState, is_ip_blocked, register_ip_violation, kept, security_at,
}

-- The answer for what the map holds of a host.
abbrev blocked : ℤ → Option IpSecurityState → Bool
blocked later o = elim o [
  | none ↦ false
  | some st ↦ elim st.blocked_til [ none ↦ false | some til ↦ ltb_ℤ later til ]
]

is_ip_blocked-blocked :
    {Conn : Type 0} (cfg : GuardConfig) (asked : Bytes) (later : ℤ) (g : Guard Conn)
    (o : Option IpSecurityState)
    → 0 < cfg.ip_violation_limit
    → lookup asked g.ip_sec ≡ o
    → (is_ip_blocked cfg asked later g).0 ≡ blocked later o
unfolding is_ip_blocked
is_ip_blocked-blocked cfg asked later g none limited found =
    let z : (cfg.ip_violation_limit == 0) ≡ false = ground arith in rw (z, found)
is_ip_blocked-blocked cfg asked later g (some st) limited found =
    let z : (cfg.ip_violation_limit == 0) ≡ false = ground arith in
    elim (Option-cases st.blocked_til) [
      | inl none_til ↦ rw (z, found, none_til)
      | inr (til, is_til) ↦ rw (z, found, is_til) (ground arith)
    ]

-- What a violation leaves in the map.
abbrev pub state_after : {Conn : Type 0} → GuardConfig → Bytes → ℤ → Guard Conn → IpSecurityState
state_after cfg host now g =
    if leb cfg.ip_violation_limit (suc (length (kept cfg host now g)))
    then record { violations = []; blocked_til = some (now +ℤ cfg.ip_block_duration) }
    else record (security_at cfg host g) { violations = kept cfg host now g ++ now ∷ [] }

pub register-inserts :
    {Conn : Type 0} (cfg : GuardConfig) (host : Bytes) (now : ℤ) (g : Guard Conn)
    → 0 < cfg.ip_violation_limit
    → is_empty host ≡ false
    → (register_ip_violation cfg host now g).ip_sec
      ≡ insert host (state_after cfg host now g) g.ip_sec
unfolding register_ip_violation
register-inserts cfg host now g limited named =
    let z : (cfg.ip_violation_limit == 0) ≡ false = ground arith in
    let more : length (kept cfg host now g ++ now ∷ []) ≡ suc (length (kept cfg host now g)) =
      omega (arith, length-append (kept cfg host now g) (now ∷ [])) in
    elim (Bool-cases (leb cfg.ip_violation_limit (suc (length (kept cfg host now g))))) [
      | inl t ↦ rw (z, named, more, t)
      | inr t ↦ rw (z, named, more, t)
    ]

-- A violation under the limit changes no time.
same_time :
    {Conn : Type 0} (cfg : GuardConfig) (host : Bytes) (later : ℤ) (g : Guard Conn) (vs : List ℤ)
    (o : Option IpSecurityState)
    → lookup host g.ip_sec ≡ o
    → blocked later (some (record (security_at cfg host g) { violations = vs })) ≡ blocked later o
same_time cfg host later g vs none h = rw (blocked, h)
same_time cfg host later g vs (some st) h = rw (blocked, h)

pub register-blocks :
    {Conn : Type 0} (cfg : GuardConfig) (host : Bytes) (now : ℤ) (g : Guard Conn) (asked : Bytes)
    (later : ℤ)
    → 0 < cfg.ip_violation_limit
    → is_empty host ≡ false
    → (is_ip_blocked cfg asked later (register_ip_violation cfg host now g)).0 ≡ (
        if bytes_eq host asked && leb cfg.ip_violation_limit (suc (length (kept cfg host now g)))
        then ltb_ℤ later (now +ℤ cfg.ip_block_duration)
        else (is_ip_blocked cfg asked later g).0)
register-blocks cfg host now g asked later limited named =
    let after =
      is_ip_blocked-blocked cfg asked later (register_ip_violation cfg host now g) _ limited (
        ap (lookup asked) (register-inserts cfg host now g limited named)
        ∙ lookup-insert host asked (state_after cfg host now g) g.ip_sec) in
    let before = is_ip_blocked-blocked cfg asked later g _ limited refl in
    after ∙ elim (Bool-cases (bytes_eq host asked)) [
      | inl same ↦
          elim (Bool-cases (leb cfg.ip_violation_limit (suc (length (kept cfg host now g))))) [
            | inl t ↦ rw (same, blocked, t)
            | inr t ↦
                let one : host ≡ asked = (bytes_eq_iff host asked).0 same in
                rw (same, blocked, t, before, ← one)
                  (same_time cfg host later g (kept cfg host now g ++ now ∷ []) _ refl)
          ]
      | inr differs ↦ rw (differs, before)
    ]
