-- ===== src/Protocol/Builders/Long.antt =====
-- The builders of the commands with text or with an argument of any length.
use tcpadapter.Common.{
  ℕ, ◌-◌, ◌/◌, ◌%◌, ◌^◌, not, ◌&&◌, ◌∷◌, ◌++◌, length, ◌>>=◌, ◌>>◌, fail_if, wrap_err, ltb, ◌==◌,
  if◌then◌else◌, Bytes, put_u16, put_u32,
}
use tcpadapter.Protocol.Payload.Validate.{validate_server_command_payload}
use tcpadapter.Protocol.Builders.Fields.{
  Built, validated, zeros, fixed_ascii, fixed_digits, phone_length, in_phone, in_message,
  argument_too_large, two_object_numbers, object_number_too_long, in_object_name,
  in_controller_name, in_admin_phone,
}

pub record Cmd11SendSmsPayload : Type 0 where
  pub phone10 : Bytes
  pub message : Bytes

unfoldable pub build_cmd11 : Cmd11SendSmsPayload → Built
unfolding validate_server_command_payload fixed_ascii fixed_digits
build_cmd11 p = do
  fail_if (not (length p.phone10 == 10)) phone_length
  phone ← wrap_err in_phone (fixed_digits p.phone10 10)
  msg ← wrap_err in_message (fixed_ascii p.message 50)
  validated (validate_server_command_payload 11) (phone ++ msg)

pub record Cmd27CustomPayload : Type 0 where
  pub custom_command : ℕ
  pub argument : Bytes

unfoldable pub build_cmd27 : Cmd27CustomPayload → Built
unfolding validate_server_command_payload
build_cmd27 p = do
  fail_if (ltb 0xFFFF (length p.argument)) argument_too_large
  validated (validate_server_command_payload 27)
      (p.custom_command ∷ put_u16 (length p.argument % 2 ^ 16) ++ p.argument)

-- `object_number_raw` is the legacy form of the number, of at most eight bytes.
pub record Cmd25BindingResponsePayload : Type 0 where
  pub error_code : ℕ
  pub object_number : ℕ
  pub object_number_raw : Bytes
  pub object_name : Bytes
  pub controller_name : Bytes
  pub admin_phone : Bytes

-- `binary.LittleEndian.PutUint64`
abbrev put_u64 : ℕ → Bytes
put_u64 n = put_u32 (n % 2 ^ 32) ++ put_u32 (n / 2 ^ 32)

abbrev object_number_bytes : Cmd25BindingResponsePayload → Bytes
object_number_bytes p =
    if ltb 0 (length p.object_number_raw)
    then p.object_number_raw ++ zeros (8 - length p.object_number_raw)
    else put_u64 p.object_number

unfoldable pub build_cmd25 : Cmd25BindingResponsePayload → Built
unfolding validate_server_command_payload fixed_ascii zeros
build_cmd25 p = do
  fail_if (not (p.object_number == 0) && ltb 0 (length p.object_number_raw)) two_object_numbers
  fail_if (ltb 8 (length p.object_number_raw)) (object_number_too_long (length p.object_number_raw))
  name ← wrap_err in_object_name (fixed_ascii p.object_name 128)
  controller ← wrap_err in_controller_name (fixed_ascii p.controller_name 128)
  phone ← wrap_err in_admin_phone (fixed_ascii p.admin_phone 16)
  validated (validate_server_command_payload 25)
      (p.error_code ∷ object_number_bytes p ++ name ++ controller ++ phone)
