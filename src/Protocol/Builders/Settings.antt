-- ===== src/Protocol/Builders/Settings.antt =====
-- The builder of the settings of command 12.
use tcpadapter.Common.{
  ℕ, Bool, not, List, [], ◌∷◌, ◌++◌, ok, ◌>>=◌, ◌>>◌, fail_if, wrap_err, ltb, leb, Bytes, put_u32,
}
use tcpadapter.Protocol.Payload.Validate.{validate_server_command_payload}
use tcpadapter.Protocol.Builders.Fields.{
  Built, validated, fixed_ascii, validate_relay_flags, bool_to_byte, network_type_range,
  reboot_hour_range, in_relay1, in_relay2, in_server1, in_server2, in_ntp_server, in_operator,
  in_country_code, in_sim_phone, in_ussd,
}

pub record Cmd12Peripheral : Type 0 where
  pub address : ℕ
  pub kind : ℕ

-- `flags` has eight bytes.
pub record Cmd12RelaySettings : Type 0 where
  pub flags : Bytes
  pub impulse_sec : ℕ
  pub pause_sec : ℕ
  pub repeats : ℕ

-- `peripherals` has eight items; the reserves have 292 and 101 bytes.
pub record Cmd12SettingsRecord : Type 0 where
  pub pin_code : ℕ
  pub server1 : Bytes
  pub server2 : Bytes
  pub ntp_server : Bytes
  pub operator : Bytes
  pub network_type : ℕ
  pub country_code : Bytes
  pub sim_phone : Bytes
  pub ussd : Bytes
  pub auto_reboot_hour : ℕ
  pub extended_debug : Bool
  pub use_volte : Bool
  pub interface485_active : Bool
  pub ntp_enabled : Bool
  pub wiegand_type : ℕ
  pub peripherals : List Cmd12Peripheral
  pub relay1 : Cmd12RelaySettings
  pub relay2 : Cmd12RelaySettings
  pub input1_function : ℕ
  pub input2_function : ℕ
  pub reserve_a : Bytes
  pub reserve_b : Bytes

abbrev pub peripheral_bytes : List Cmd12Peripheral → Bytes
peripheral_bytes [] = []
peripheral_bytes (p ∷ ps) = p.address ∷ p.kind ∷ peripheral_bytes ps

-- `writeRelay`
abbrev pub relay_bytes : Cmd12RelaySettings → Bytes
relay_bytes r = r.flags ++ r.impulse_sec ∷ r.pause_sec ∷ r.repeats ∷ []

-- The four settings, and four bytes that stay 0.
abbrev pub setting_bytes : Cmd12SettingsRecord → Bytes
setting_bytes r =
    bool_to_byte r.extended_debug
    ∷ bool_to_byte r.use_volte
    ∷ bool_to_byte r.interface485_active
    ∷ bool_to_byte r.ntp_enabled
    ∷ 0
    ∷ 0
    ∷ 0
    ∷ 0
    ∷ []

-- What follows the texts, from the hour of the reboot on.
abbrev pub cmd12_tail : Cmd12SettingsRecord → Bytes
cmd12_tail r =
    r.auto_reboot_hour ∷ setting_bytes r
    ++ r.wiegand_type ∷ peripheral_bytes r.peripherals
    ++ relay_bytes r.relay1
    ++ relay_bytes r.relay2
    ++ r.input1_function ∷ r.input2_function ∷ r.reserve_a
    ++ r.reserve_b

unfoldable pub build_cmd12_record : Cmd12SettingsRecord → Built
unfolding validate_relay_flags fixed_ascii
build_cmd12_record r = do
  fail_if (not (leb r.network_type 4)) (network_type_range r.network_type)
  fail_if (ltb 23 r.auto_reboot_hour) (reboot_hour_range r.auto_reboot_hour)
  wrap_err in_relay1 (validate_relay_flags r.relay1.flags)
  wrap_err in_relay2 (validate_relay_flags r.relay2.flags)
  s1 ← wrap_err in_server1 (fixed_ascii r.server1 32)
  s2 ← wrap_err in_server2 (fixed_ascii r.server2 32)
  ntp ← wrap_err in_ntp_server (fixed_ascii r.ntp_server 32)
  op ← wrap_err in_operator (fixed_ascii r.operator 32)
  cc ← wrap_err in_country_code (fixed_ascii r.country_code 8)
  sim ← wrap_err in_sim_phone (fixed_ascii r.sim_phone 16)
  ussd ← wrap_err in_ussd (fixed_ascii r.ussd 8)
  ok (
      put_u32 r.pin_code
      ++ s1
      ++ s2
      ++ ntp
      ++ op
      ++ r.network_type ∷ cc
      ++ sim
      ++ ussd
      ++ cmd12_tail r)

-- `Cmd12SettingsPayload`; the protocol allows one record.
unfoldable pub build_cmd12 : ℕ → Cmd12SettingsRecord → Built
unfolding build_cmd12_record validate_server_command_payload
build_cmd12 timestamp r = do
  rec ← build_cmd12_record r
  validated (validate_server_command_payload 12) (put_u32 timestamp ++ 1 ∷ rec)
