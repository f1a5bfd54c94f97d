-- ===== src/Protocol/Payload/Faults.antt =====
-- The errors of the validation, and its loops.
use tcpadapter.Common.{
  ℕ, zero, suc, ◌≡◌, ◌↔◌, refl, Bool, true, false, ◌||◌, [], ◌∷◌, Result, ok, err, fail_if,
  wrap_err, ◌>>◌, ltb, ◌==◌, if◌then◌else◌, Bytes, take, drop,
}

-- One constructor for each format string, with its arguments less the command id, which the message
-- repeats from the call; a length is kept also where the message does not show it. `in_record` is the
-- prefix "record %d".
pub data Fault : Type 0 where
  wrong_length too_short wrong_size count_out_of_range : ℕ → Fault
  bad_execution_code flag_not_bool reserved_not_zero : ℕ → Fault
  interface_out_of_range : ℕ → Fault
  address_needed address_not_zero reserved_camera reserved_source output_not_bool : Fault
  phone_not_digits : Fault
  bad_network_type bad_reboot_hour : ℕ → Fault
  setting_not_bool : Fault
  relay1_not_bool relay2_not_bool : ℕ → Fault
  in_record : ℕ → Fault → Fault
  slot_out_of_range group_out_of_range id_type_out_of_range : ℕ → Fault
  after_padding not_ascii : ℕ → Fault
  hour_out_of_range minute_out_of_range : Fault
  scene_out_of_range : ℕ → ℕ → Fault
  holiday_logic_out_of_range schedule_out_of_range : ℕ → Fault
  block_out_of_range : ℕ → Fault
  no_fw_number no_file_size no_file_crc no_blocks : Fault
  blocks_mismatch : ℕ → ℕ → Fault
  error_code_out_of_range : ℕ → Fault

abbrev pub Checked : Type 0
Checked = Result Fault (Unit {0})

abbrev pub is_bool_byte : ℕ → Bool
is_bool_byte v = v == 0 || v == 1

-- `for i := range field` with an early return at the first byte that fails the test; `i` is the
-- number of the first byte.
unfoldable pub check_each : (ℕ → ℕ → Fault) → (ℕ → Bool) → ℕ → Bytes → Checked
check_each fault test i [] = ok tt
check_each fault test i (b ∷ bs) =
    let rest = check_each fault test (suc i) bs in if test b then rest else err (fault i b)

-- `for i := 0; i < count; i++` over records of `size` bytes.
unfoldable pub check_records : (Bytes → Checked) → ℕ → ℕ → ℕ → Bytes → Checked
check_records check size i zero bs = ok tt
check_records check size i (suc count) bs =
    wrap_err (in_record i) (check (take size bs))
    >> check_records check size (suc i) count (drop size bs)

-- `validatePaddedASCII`, from byte `i` on.
unfoldable pub padded_ascii_from : Bool → ℕ → Bytes → Checked
padded_ascii_from seen_zero i [] = ok tt
padded_ascii_from seen_zero i (b ∷ bs) =
    let in_padding = padded_ascii_from true (suc i) bs in
    let in_text = padded_ascii_from seen_zero (suc i) bs in
    if b == 0
    then in_padding
    else if seen_zero
    then err (after_padding i)
    else if ltb 127 b
    then err (not_ascii i)
    else in_text

abbrev pub validate_padded_ascii : Bytes → Checked
validate_padded_ascii field = padded_ascii_from false 0 field

-- A guard that is passed.
pub guarded :
    (b : Bool) (x : Fault) (k : Checked) → (fail_if b x >> k ≡ ok tt) ↔ ((b ≡ false) × (k ≡ ok tt))
guarded true x k = (λ h. cc, λ h. cc)
guarded false x k = (λ h. (refl, h), λ h. h.1)

pub guarded_last : (b : Bool) (x : Fault) → (fail_if b x ≡ ok tt) ↔ (b ≡ false)
guarded_last true x = (λ h. cc, λ h. cc)
guarded_last false x = (λ h. refl, λ h. refl)
