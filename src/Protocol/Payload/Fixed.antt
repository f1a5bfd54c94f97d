-- ===== src/Protocol/Payload/Fixed.antt =====
-- The commands whose payload has one fixed layout, one function for each case of the switch.
use tcpadapter.Common.{
  ℕ, ◌+◌, ◌-◌, ◌/◌, ◌%◌, ◌^◌, not, ◌||◌, length, drop, fail_if, ◌>>◌, ltb, ◌==◌, if◌then◌else◌,
  Bytes, byte_at, slice, u16, u32,
}
use tcpadapter.Protocol.AckCode.{is_execution_code_allowed}
use tcpadapter.Protocol.Messages.Registration.{is_digit}
use tcpadapter.Protocol.Payload.Faults.{
  Checked, wrong_length, too_short, wrong_size, bad_execution_code, flag_not_bool,
  reserved_not_zero, interface_out_of_range, address_needed, address_not_zero, reserved_camera,
  reserved_source, output_not_bool, phone_not_digits, block_out_of_range, no_fw_number,
  no_file_size, no_file_crc, no_blocks, blocks_mismatch, error_code_out_of_range, is_bool_byte,
  check_each,
}

-- `if len(payload) != n { return ... }`
abbrev pub needs_length : ℕ → Bytes → Checked
needs_length n payload = fail_if (not (length payload == n)) (wrong_length (length payload))

-- Registration acknowledgement.
unfoldable pub validate_cmd1 : Bytes → Checked
validate_cmd1 payload = do
  needs_length 5 payload
  fail_if (ltb 5 (byte_at payload 0)) (bad_execution_code (byte_at payload 0))

-- Triggers: eight flags and eight reserved bytes.
unfoldable pub validate_cmd5 : Bytes → Checked
unfolding check_each
validate_cmd5 payload = do
  needs_length 16 payload
  check_each (λ i b. flag_not_bool i) is_bool_byte 0 (slice 0 8 payload)
  check_each (λ i b. reserved_not_zero i) (λ b. b == 0) 8 (slice 8 16 payload)

-- Capture of an id; interface 3 is the 485 bus.
unfoldable pub validate_cmd6 : Bytes → Checked
validate_cmd6 payload = do
  needs_length 3 payload
  fail_if (ltb 3 (byte_at payload 1)) (interface_out_of_range (byte_at payload 1))
  (if byte_at payload 1 == 3
      then fail_if (byte_at payload 2 == 0) address_needed
      else fail_if (not (byte_at payload 2 == 0)) address_not_zero)

-- Photo request.
unfoldable pub validate_cmd7 : Bytes → Checked
validate_cmd7 payload = needs_length 1 payload >> fail_if (byte_at payload 0 == 0) reserved_camera

-- Output control.
unfoldable pub validate_cmd8 : Bytes → Checked
validate_cmd8 payload = do
  needs_length 3 payload
  fail_if (byte_at payload 0 == 0) reserved_source
  fail_if (ltb 1 (byte_at payload 1) || ltb 1 (byte_at payload 2)) output_not_bool

-- SMS.
unfoldable pub validate_cmd11 : Bytes → Checked
unfolding check_each
validate_cmd11 payload = do
  needs_length 60 payload
  check_each (λ i b. phone_not_digits) is_digit 0 (slice 0 10 payload)

-- Checksum of one block.
unfoldable pub validate_cmd18 : Bytes → Checked
validate_cmd18 payload = do
  needs_length 1 payload
  fail_if (ltb 100 (byte_at payload 0)) (block_out_of_range (byte_at payload 0))

-- `FWBlockCountForSize` of internal/protocol/server_payload_builders.go; the sum wraps in uint32.
unfoldable pub fw_block_count_for_size : ℕ → ℕ
fw_block_count_for_size file_size =
    let blocks = (file_size + 1024 - 1) % 2 ^ 32 / 1024 in
    if file_size == 0 then 0 else if ltb 0xFFFF blocks then 0xFFFF else blocks % 2 ^ 16

abbrev pub fw_file_size : Bytes → ℕ
fw_file_size payload = u32 (slice 6 10 payload)

abbrev pub fw_blocks : Bytes → ℕ
fw_blocks payload = u16 (slice 14 16 payload)

-- Start of a firmware update.
unfoldable pub validate_cmd19 : Bytes → Checked
unfolding fw_block_count_for_size
validate_cmd19 payload = do
  needs_length 16 payload
  fail_if (u16 (slice 0 2 payload) == 0) no_fw_number
  fail_if (fw_file_size payload == 0) no_file_size
  fail_if (u32 (slice 10 14 payload) == 0) no_file_crc
  fail_if (fw_blocks payload == 0) no_blocks
  fail_if (not (fw_blocks payload == fw_block_count_for_size (fw_file_size payload)))
      (blocks_mismatch (fw_blocks payload) (fw_block_count_for_size (fw_file_size payload)))

-- Acknowledgement to the controller.
unfoldable pub validate_cmd24 : Bytes → Checked
validate_cmd24 payload = do
  needs_length 2 payload
  fail_if (not (is_execution_code_allowed (byte_at payload 1)))
      (bad_execution_code (byte_at payload 1))

-- Binding response.
unfoldable pub validate_cmd25 : Bytes → Checked
validate_cmd25 payload = do
  needs_length 281 payload
  fail_if (ltb 3 (byte_at payload 0)) (error_code_out_of_range (byte_at payload 0))

-- Custom command: its argument has the length it says.
unfoldable pub validate_cmd27 : Bytes → Checked
validate_cmd27 payload = do
  fail_if (ltb (length payload) 3) (too_short (length payload))
  fail_if (not (length (drop 3 payload) == u16 (slice 1 3 payload)))
      (wrong_size (length (drop 3 payload)))
