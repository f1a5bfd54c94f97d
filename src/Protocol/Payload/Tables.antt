-- ===== src/Protocol/Payload/Tables.antt =====
-- The commands that carry a table: four bytes of time, a count, and the records.
use tcpadapter.Common.{
  ℕ, zero, suc, ◌+◌, ◌*◌, not, ◌||◌, length, drop, ok, fail_if, ◌>>◌, ltb, leb, ◌==◌, Bytes,
  byte_at, slice, u16,
}
use tcpadapter.Protocol.Payload.Faults.{
  Checked, too_short, wrong_size, count_out_of_range, bad_network_type, bad_reboot_hour,
  setting_not_bool, relay1_not_bool, relay2_not_bool, slot_out_of_range, group_out_of_range,
  id_type_out_of_range, hour_out_of_range, minute_out_of_range, flag_not_bool, scene_out_of_range,
  holiday_logic_out_of_range, schedule_out_of_range, is_bool_byte, check_each, check_records,
  validate_padded_ascii, padded_ascii_from,
}

abbrev pub cmd12_record_size : ℕ
cmd12_record_size = 608

abbrev pub cmd13_record_size : ℕ
cmd13_record_size = 32

abbrev pub cmd14_record_size : ℕ
cmd14_record_size = 32

abbrev pub cmd15_record_size : ℕ
cmd15_record_size = 16

-- The guards that all tables begin with, and then the records.
unfoldable pub validate_table : ℕ → ℕ → (Bytes → Checked) → Bytes → Checked
unfolding check_records
validate_table most size check payload = do
  fail_if (ltb (length payload) 5) (too_short (length payload))
  fail_if (ltb (byte_at payload 4) 1 || ltb most (byte_at payload 4))
      (count_out_of_range (byte_at payload 4))
  fail_if (not (length payload == 5 + byte_at payload 4 * size)) (wrong_size (length payload))
  check_records check size 0 (byte_at payload 4) (drop 5 payload)

-- The relay flags, from number `i` on.
unfoldable pub check_relays : Bytes → ℕ → ℕ → Checked
check_relays rec i zero = ok tt
check_relays rec i (suc n) =
    fail_if (ltb 1 (byte_at rec (191 + i))) (relay1_not_bool i)
    >> fail_if (ltb 1 (byte_at rec (202 + i))) (relay2_not_bool i)
    >> check_relays rec (suc i) n

-- The settings of a controller. The messages of this record have no prefix, so it is not read by
-- `check_records`.
unfoldable pub check_cmd12_record : Bytes → Checked
unfolding check_relays
check_cmd12_record rec = do
  fail_if (not (leb (byte_at rec 132) 4)) (bad_network_type (byte_at rec 132))
  fail_if (ltb 23 (byte_at rec 165)) (bad_reboot_hour (byte_at rec 165))
  fail_if
      (ltb 1 (byte_at rec 166)
        || ltb 1 (byte_at rec 167)
        || ltb 1 (byte_at rec 168)
        || ltb 1 (byte_at rec 169))
      setting_not_bool
  check_relays rec 0 8

unfoldable pub validate_cmd12 : Bytes → Checked
unfolding check_cmd12_record
validate_cmd12 payload = do
  fail_if (ltb (length payload) 5) (too_short (length payload))
  fail_if (ltb (byte_at payload 4) 1 || ltb 1 (byte_at payload 4))
      (count_out_of_range (byte_at payload 4))
  fail_if (not (length payload == 5 + byte_at payload 4 * cmd12_record_size))
      (wrong_size (length payload))
  check_cmd12_record (slice 5 (5 + cmd12_record_size) payload)

-- An identifier.
unfoldable pub check_cmd13_record : Bytes → Checked
unfolding padded_ascii_from
check_cmd13_record rec = do
  fail_if (u16 (slice 0 2 rec) == 0 || ltb 50000 (u16 (slice 0 2 rec)))
      (slot_out_of_range (u16 (slice 0 2 rec)))
  validate_padded_ascii (slice 2 12 rec)
  fail_if (ltb 64 (byte_at rec 12)) (group_out_of_range (byte_at rec 12))
  fail_if (not (leb (byte_at rec 19) 7)) (id_type_out_of_range (byte_at rec 19))

-- A schedule.
unfoldable pub check_cmd14_record : Bytes → Checked
unfolding check_each
check_cmd14_record rec = do
  fail_if (ltb (byte_at rec 0) 1 || ltb 64 (byte_at rec 0)) (slot_out_of_range (byte_at rec 0))
  fail_if (ltb 23 (byte_at rec 1) || ltb 23 (byte_at rec 3)) hour_out_of_range
  fail_if (ltb 59 (byte_at rec 2) || ltb 59 (byte_at rec 4)) minute_out_of_range
  check_each (λ i b. flag_not_bool i) is_bool_byte 0 (slice 5 13 rec)
  check_each scene_out_of_range (λ b. leb b 64) 0 (slice 13 21 rec)
  fail_if (ltb 3 (byte_at rec 21)) (holiday_logic_out_of_range (byte_at rec 21))

-- A group.
unfoldable pub check_cmd15_record : Bytes → Checked
unfolding check_each
check_cmd15_record rec = do
  fail_if (ltb (byte_at rec 0) 1 || ltb 64 (byte_at rec 0)) (slot_out_of_range (byte_at rec 0))
  fail_if (ltb 64 (byte_at rec 1)) (schedule_out_of_range (byte_at rec 1))
  check_each (λ i b. flag_not_bool i) is_bool_byte 0 (slice 2 10 rec)

unfoldable pub validate_cmd13 : Bytes → Checked
unfolding validate_table check_cmd13_record
validate_cmd13 = validate_table 250 cmd13_record_size check_cmd13_record

unfoldable pub validate_cmd14 : Bytes → Checked
unfolding validate_table check_cmd14_record
validate_cmd14 = validate_table 64 cmd14_record_size check_cmd14_record

unfoldable pub validate_cmd15 : Bytes → Checked
unfolding validate_table check_cmd15_record
validate_cmd15 = validate_table 64 cmd15_record_size check_cmd15_record

-- Holidays, four bytes each, which are not looked at.
unfoldable pub validate_cmd16 : Bytes → Checked
unfolding validate_table
validate_cmd16 = validate_table 255 4 (λ rec. ok tt)
