-- ===== src/Protocol/Builders/Short.antt =====
-- The builders of the commands with a few bytes.
use tcpadapter.Common.{
  ℕ, Bool, [], ◌∷◌, ◌++◌, length, err, ◌>>◌, fail_if, not, ◌==◌, ◌||◌, if◌then◌else◌, Bytes,
  put_u16, put_u32,
}
use tcpadapter.Protocol.Payload.Validate.{validate_server_command_payload}
use tcpadapter.Protocol.Payload.Fixed.{fw_block_count_for_size}
use tcpadapter.Protocol.Builders.Fields.{
  Built, validated, bool_to_byte, file_size_zero, file_crc_zero, block_count_mismatch, block_size,
  not_empty_command,
}

pub record Cmd1RegistrationAckPayload : Type 0 where
  pub execution_code : ℕ
  pub server_time : ℕ

unfoldable pub build_cmd1 : Cmd1RegistrationAckPayload → Built
unfolding validate_server_command_payload
build_cmd1 p =
    validated (validate_server_command_payload 1) (p.execution_code ∷ put_u32 p.server_time)

-- `Cmd2RebootPayload`
unfoldable pub build_cmd2 : ℕ → Built
unfolding validate_server_command_payload
build_cmd2 timeout_sec = validated (validate_server_command_payload 2) (timeout_sec ∷ [])

-- `Cmd3FactoryResetPayload`
unfoldable pub build_cmd3 : ℕ → Built
unfolding validate_server_command_payload
build_cmd3 timeout_sec = validated (validate_server_command_payload 3) (timeout_sec ∷ [])

-- `Cmd5TriggerPayload`
unfoldable pub build_cmd5 : Bytes → Built
unfolding validate_server_command_payload
build_cmd5 flags = validated (validate_server_command_payload 5) flags

pub record Cmd5TriggerFlags : Type 0 where
  pub manual_unlock : Bool
  pub scenario_unlock : Bool
  pub auto_registration : Bool
  pub open_for_all : Bool
  pub forward_sms : Bool
  pub notify_unknown_id_sms : Bool
  pub notify_low_balance_sms : Bool
  pub schedule_for_all_calls : Bool

abbrev pub flag_bytes : Cmd5TriggerFlags → Bytes
flag_bytes f =
    bool_to_byte f.manual_unlock
    ∷ bool_to_byte f.scenario_unlock
    ∷ bool_to_byte f.auto_registration
    ∷ bool_to_byte f.open_for_all
    ∷ bool_to_byte f.forward_sms
    ∷ bool_to_byte f.notify_unknown_id_sms
    ∷ bool_to_byte f.notify_low_balance_sms
    ∷ bool_to_byte f.schedule_for_all_calls
    ∷ []

-- `Cmd5TriggerStructuredPayload`, with its eight reserved bytes.
unfoldable pub build_cmd5_structured : Cmd5TriggerFlags → Bytes → Built
unfolding validate_server_command_payload
build_cmd5_structured f reserve =
    validated (validate_server_command_payload 5) (flag_bytes f ++ reserve)

pub record Cmd6CaptureIdPayload : Type 0 where
  pub capture_timeout : ℕ
  pub interface : ℕ
  pub network_address : ℕ

unfoldable pub build_cmd6 : Cmd6CaptureIdPayload → Built
unfolding validate_server_command_payload
build_cmd6 p =
    validated (validate_server_command_payload 6)
      (p.capture_timeout ∷ p.interface ∷ p.network_address ∷ [])

-- `Cmd7PhotoRequestPayload`
unfoldable pub build_cmd7 : ℕ → Built
unfolding validate_server_command_payload
build_cmd7 camera_address = validated (validate_server_command_payload 7) (camera_address ∷ [])

pub record Cmd8OutputControlPayload : Type 0 where
  pub source_id : ℕ
  pub output1 : ℕ
  pub output2 : ℕ

unfoldable pub build_cmd8 : Cmd8OutputControlPayload → Built
unfolding validate_server_command_payload
build_cmd8 p =
    validated (validate_server_command_payload 8) (p.source_id ∷ p.output1 ∷ p.output2 ∷ [])

-- `Cmd18CRCBlockPayload`
unfoldable pub build_cmd18 : ℕ → Built
unfolding validate_server_command_payload
build_cmd18 block = validated (validate_server_command_payload 18) (block ∷ [])

pub record Cmd19StartFwPayload : Type 0 where
  pub firmware_number : ℕ
  pub build_timestamp : ℕ
  pub file_size : ℕ
  pub file_crc : ℕ
  pub block_count : ℕ

-- The block count that is written: the computed one where the caller leaves it at 0.
abbrev pub written_block_count : Cmd19StartFwPayload → ℕ
written_block_count p =
    if p.block_count == 0 then fw_block_count_for_size p.file_size else p.block_count

abbrev pub cmd19_bytes : Cmd19StartFwPayload → Bytes
cmd19_bytes p =
    put_u16 p.firmware_number
    ++ put_u32 p.build_timestamp
    ++ put_u32 p.file_size
    ++ put_u32 p.file_crc
    ++ put_u16 (written_block_count p)

unfoldable pub build_cmd19 : Cmd19StartFwPayload → Built
unfolding validate_server_command_payload fw_block_count_for_size
build_cmd19 p = do
  fail_if (p.file_size == 0) file_size_zero
  fail_if (p.file_crc == 0) file_crc_zero
  fail_if (not (written_block_count p == fw_block_count_for_size p.file_size)) block_count_mismatch
  validated (validate_server_command_payload 19) (cmd19_bytes p)

-- `Cmd20FWBlockPayload`
unfoldable pub build_cmd20 : ℕ → Bytes → Built
unfolding validate_server_command_payload
build_cmd20 block_number block = do
  fail_if (not (length block == 1024)) block_size
  validated (validate_server_command_payload 20) (put_u16 block_number ++ block)

-- `Cmd23SetTimePayload`
unfoldable pub build_cmd23 : ℕ → Built
unfolding validate_server_command_payload
build_cmd23 server_time = validated (validate_server_command_payload 23) (put_u32 server_time)

-- `Cmd24AckPayload`
unfoldable pub build_cmd24 : ℕ → ℕ → Built
unfolding validate_server_command_payload
build_cmd24 command_seq code =
    validated (validate_server_command_payload 24) (command_seq ∷ code ∷ [])

-- `BuildEmptyPayload`
unfoldable pub build_empty_payload : ℕ → Built
unfolding validate_server_command_payload
build_empty_payload id =
    let built = validated (validate_server_command_payload id) [] in
    if id == 9 || id == 10 || id == 17 || id == 21 || id == 22
    then built
    else err (not_empty_command id)
