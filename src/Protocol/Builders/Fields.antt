-- ===== src/Protocol/Builders/Fields.antt =====
-- The errors of the builders, and their helpers at the end of the file.
use tcpadapter.Common.{
  ℕ, zero, suc, ◌-◌, Bool, not, [], ◌∷◌, ◌++◌, length, Result, ok, err, ◌>>◌, fail_if, wrap_err,
  ltb, leb, ◌==◌, if◌then◌else◌, Bytes,
}
use tcpadapter.Protocol.Messages.Registration.{is_digit}
use tcpadapter.Protocol.Payload.Faults.{Checked, Fault}

-- One constructor for each message of a builder, and `invalid` for those of the validation.
pub data BuildError : Type 0 where
  invalid : Fault → BuildError
  too_long bad_length : ℕ → BuildError
  not_ascii_at not_digit_at flag_not_bool_at : ℕ → BuildError
  phone_length : BuildError
  in_phone in_message in_server1 in_server2 in_ntp_server in_operator : BuildError → BuildError
  in_country_code in_sim_phone in_ussd in_relay1 in_relay2 in_id : BuildError → BuildError
  in_object_name in_controller_name in_admin_phone : BuildError → BuildError
  network_type_range reboot_hour_range : ℕ → BuildError
  records_out_of_range days_out_of_range record_size : ℕ → BuildError
  at_record : ℕ → BuildError → BuildError
  slot_range group_range id_type_range : ℕ → BuildError
  file_size_zero file_crc_zero block_count_mismatch : BuildError
  block_size : BuildError
  argument_too_large : BuildError
  two_object_numbers : BuildError
  object_number_too_long : ℕ → BuildError
  not_empty_command : ℕ → BuildError

abbrev pub Built : Type 0
Built = Result BuildError Bytes

-- `if err := ValidateServerCommandPayload(id, out); err != nil { return nil, err }; return out, nil`
abbrev pub validated : (Bytes → Checked) → Bytes → Built
validated check out = wrap_err invalid (check out) >> ok out

-- `make([]byte, n)`
unfoldable pub zeros : ℕ → Bytes
zeros zero = []
zeros (suc n) = 0 ∷ zeros n

-- `for i := 0; i < len(s); i++` with a test of each byte, from number `i` on.
unfoldable pub each_byte : (ℕ → BuildError) → (ℕ → Bool) → ℕ → Bytes → Result BuildError (Unit {0})
each_byte fault test i [] = ok tt
each_byte fault test i (b ∷ bs) =
    let rest = each_byte fault test (suc i) bs in if test b then rest else err (fault i)

abbrev pub is_ascii : ℕ → Bool
is_ascii b = leb b 127

-- `fixedASCII`
unfoldable pub fixed_ascii : Bytes → ℕ → Built
unfolding each_byte zeros
fixed_ascii s size = do
  fail_if (ltb size (length s)) (too_long (length s))
  each_byte not_ascii_at is_ascii 0 s
  ok (s ++ zeros (size - length s))

-- `fixedDigits`
unfoldable pub fixed_digits : Bytes → ℕ → Built
unfolding each_byte
fixed_digits s size = do
  fail_if (not (length s == size)) (bad_length (length s))
  each_byte not_digit_at is_digit 0 s
  ok s

-- `validateRelayFlags`
unfoldable pub validate_relay_flags : Bytes → Result BuildError (Unit {0})
unfolding each_byte
validate_relay_flags flags = each_byte flag_not_bool_at (λ b. leb b 1) 0 flags

-- `boolToByte`
abbrev pub bool_to_byte : Bool → ℕ
bool_to_byte v = if v then 1 else 0
