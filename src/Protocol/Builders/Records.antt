-- ===== src/Protocol/Builders/Records.antt =====
-- The builders of one identifier, one schedule and one group.
use tcpadapter.Common.{
  ℕ, not, ◌||◌, ◌∷◌, ◌++◌, ok, ◌>>=◌, ◌>>◌, fail_if, wrap_err, ltb, leb, ◌==◌, Bytes, put_u16,
  put_u32,
}
use tcpadapter.Protocol.Payload.Validate.{validate_server_command_payload}
use tcpadapter.Protocol.Builders.Fields.{
  Built, invalid, fixed_ascii, in_id, slot_range, group_range, id_type_range,
}

pub record Cmd13IdRecord : Type 0 where
  pub slot_index : ℕ
  pub id : Bytes
  pub group : ℕ
  pub ban_date : ℕ
  pub lifetime_minutes : ℕ
  pub id_type : ℕ
  pub reserve : Bytes

-- `idBytes` is the padded id.
abbrev pub cmd13_record_bytes : Cmd13IdRecord → Bytes → Bytes
cmd13_record_bytes r id_bytes =
    put_u16 r.slot_index
    ++ id_bytes
    ++ r.group ∷ put_u32 r.ban_date
    ++ put_u16 r.lifetime_minutes
    ++ r.id_type ∷ r.reserve

unfoldable pub build_cmd13_record : Cmd13IdRecord → Built
unfolding fixed_ascii
build_cmd13_record r = do
  fail_if (r.slot_index == 0 || ltb 50000 r.slot_index) (slot_range r.slot_index)
  fail_if (ltb 64 r.group) (group_range r.group)
  fail_if (not (leb r.id_type 7)) (id_type_range r.id_type)
  id_bytes ← wrap_err in_id (fixed_ascii r.id 10)
  ok (cmd13_record_bytes r id_bytes)

pub record Cmd14ScheduleRecord : Type 0 where
  pub slot : ℕ
  pub start_hour : ℕ
  pub start_minute : ℕ
  pub end_hour : ℕ
  pub end_minute : ℕ
  pub flags : Bytes
  pub scenes : Bytes
  pub holiday_logic : ℕ
  pub reserve : Bytes

abbrev pub cmd14_record_bytes : Cmd14ScheduleRecord → Bytes
cmd14_record_bytes r =
    r.slot ∷ r.start_hour ∷ r.start_minute ∷ r.end_hour ∷ r.end_minute ∷ r.flags
    ++ (r.scenes ++ r.holiday_logic ∷ r.reserve)

-- A frame with one record: four bytes of time that are 0, the count, the record.
abbrev pub one_record : Bytes → Bytes
one_record rec = 0 ∷ 0 ∷ 0 ∷ 0 ∷ 1 ∷ rec

unfoldable pub build_cmd14_record : Cmd14ScheduleRecord → Built
unfolding validate_server_command_payload
build_cmd14_record r =
    let rec = cmd14_record_bytes r in
    wrap_err invalid (validate_server_command_payload 14 (one_record rec)) >> ok rec

pub record Cmd15GroupRecord : Type 0 where
  pub slot : ℕ
  pub schedule : ℕ
  pub permissions : Bytes
  pub reserve : Bytes

abbrev pub cmd15_record_bytes : Cmd15GroupRecord → Bytes
cmd15_record_bytes r = r.slot ∷ r.schedule ∷ r.permissions ++ r.reserve

unfoldable pub build_cmd15_record : Cmd15GroupRecord → Built
unfolding validate_server_command_payload
build_cmd15_record r =
    let rec = cmd15_record_bytes r in
    wrap_err invalid (validate_server_command_payload 15 (one_record rec)) >> ok rec
