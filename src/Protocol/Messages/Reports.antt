-- ===== src/Protocol/Messages/Reports.antt =====
-- Status 1, acknowledgement 11 and firmware status 4 of internal/protocol/messages.go.
use tcpadapter.Common.{
  ℕ, ◌/◌, ◌%◌, ◌^◌, Bool, true, false, not, ◌&&◌, length, Result, ok, ◌>>◌, fail_if, ltb, leb, ◌==◌,
  if◌then◌else◌, Bytes, byte_at, slice, u16, u32,
}
use tcpadapter.Protocol.Messages.Registration.{ParseError, too_short, unexpected_cmd}

pub record Status1 : Type 0 where
  pub controller_time : ℕ
  pub flags : ℕ
  pub buffer_free : ℕ

pub record Ack11 : Type 0 where
  pub command_seq : ℕ
  pub execution_code : ℕ
  pub controller_time : ℕ
  pub buffer_free_bytes : ℕ

pub record FwStatus4 : Type 0 where
  pub command_seq : ℕ
  pub progress_or_err : ℕ
  pub execution_code : ℕ

pub parse_status1_payload : Bytes → Result ParseError Status1
parse_status1_payload payload = do
  fail_if (ltb (length payload) 9) (too_short (length payload))
  fail_if (not (byte_at payload 0 == 2)) (unexpected_cmd (byte_at payload 0))
  ok (record {
    controller_time = u32 (slice 1 5 payload);
    flags = u16 (slice 5 7 payload);
    buffer_free = u16 (slice 7 9 payload);
  })

pub parse_ack11_payload : Bytes → Result ParseError Ack11
parse_ack11_payload payload = do
  fail_if (ltb (length payload) 9) (too_short (length payload))
  fail_if (not (byte_at payload 0 == 11)) (unexpected_cmd (byte_at payload 0))
  ok (record {
    command_seq = byte_at payload 1;
    execution_code = byte_at payload 2;
    controller_time = u32 (slice 3 7 payload);
    buffer_free_bytes = u16 (slice 7 9 payload);
  })

pub parse_fw_status4_payload : Bytes → Result ParseError FwStatus4
parse_fw_status4_payload payload = do
  fail_if (ltb (length payload) 4) (too_short (length payload))
  fail_if (not (byte_at payload 0 == 4)) (unexpected_cmd (byte_at payload 0))
  ok (record {
    command_seq = byte_at payload 1;
    progress_or_err = byte_at payload 2;
    execution_code = byte_at payload 3;
  })

-- `flags&(1<<11) != 0`
pub status1_ready_for_fw : ℕ → Bool
status1_ready_for_fw flags = not (flags / 2 ^ 11 % 2 == 0)

pub is_fw_finished : ℕ → Bool
is_fw_finished progress = progress == 248

pub is_fw_failed : ℕ → Bool
is_fw_failed progress = leb 249 progress && leb progress 255

-- The statuses and reasons of `InterpretAck11ExecutionCode`, one for each string.
pub data AckStatus : Type 0 where
  delivered failed in_progress expired unsupported : AckStatus

pub data AckReason : Type 0 where
  accepted parameter_error execution_error invalid_result password_required : AckReason
  command_started stale_command crc_error command_not_supported unknown_code : AckReason

pub record Ack11Status : Type 0 where
  pub status : AckStatus
  pub terminal : Bool
  pub reason : AckReason

abbrev interpretation : AckStatus → Bool → AckReason → Ack11Status
interpretation s t r = record { status = s; terminal = t; reason = r }

pub interpret_ack11_execution_code : ℕ → Ack11Status
interpret_ack11_execution_code code =
    if code == 0
    then interpretation delivered true accepted
    else if code == 1
    then interpretation failed true parameter_error
    else if code == 2
    then interpretation failed true execution_error
    else if code == 3
    then interpretation failed true invalid_result
    else if code == 4
    then interpretation failed true password_required
    else if code == 5
    then interpretation in_progress false command_started
    else if code == 6
    then interpretation expired true stale_command
    else if code == 254
    then interpretation failed true crc_error
    else if code == 255
    then interpretation unsupported true command_not_supported
    else interpretation failed true unknown_code
