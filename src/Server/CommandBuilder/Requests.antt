-- ===== src/Server/CommandBuilder/Requests.antt =====
-- The requests of internal/server/command_builder.go, their errors, and the list of days in a text.
use tcpadapter.Common.{
  ℕ, ◌+◌, ◌-◌, ◌*◌, ◌^◌, ◌&&◌, List, [], ◌∷◌, Option, none, some, length, Result, ok, err, ◌>>=◌,
  ◌>>◌, fail_if, ltb, ◌==◌, if◌then◌else◌, Bytes,
}
use tcpadapter.Common.Dict.{nat_eq}
use tcpadapter.Protocol.Messages.Registration.{is_digit}
use tcpadapter.Protocol.Builders.Fields.{BuildError}
use tcpadapter.Protocol.Builders.Short.{
  Cmd5TriggerFlags, Cmd6CaptureIdPayload, Cmd8OutputControlPayload, Cmd19StartFwPayload,
}
use tcpadapter.Protocol.Builders.Long.{Cmd11SendSmsPayload}
use tcpadapter.Protocol.Builders.Settings.{Cmd12SettingsRecord}
use tcpadapter.Protocol.Builders.Records.{Cmd13IdRecord, Cmd14ScheduleRecord, Cmd15GroupRecord}
use tcpadapter.Server.HexText.{HexError, trim_space}

-- A request with a time and a text of JSON, empty where the field is missing.
pub record Timestamped : Type 0 where
  pub timestamp : ℕ
  pub json : Bytes

pub record HolidayRequest : Type 0 where
  pub timestamp : ℕ
  pub days_csv : Bytes

pub record FwBlockRequest : Type 0 where
  pub block_number : ℕ
  pub data_hex : Bytes

-- The fields of `Cmd25BindingResponsePayload`, its raw number still as hex text.
pub record BindingRequest : Type 0 where
  pub error_code : ℕ
  pub object_number : ℕ
  pub object_number_raw_hex : Bytes
  pub object_name : Bytes
  pub controller_name : Bytes
  pub admin_phone : Bytes

pub record CustomRequest : Type 0 where
  pub custom_command : ℕ
  pub argument_hex : Bytes

-- `json.Unmarshal` into each of the request types.
pub record Json (F : Type 0) : Type 0 where
  pub timeout_sec : Bytes → Result F ℕ
  pub triggers : Bytes → Result F Cmd5TriggerFlags
  pub capture_id : Bytes → Result F Cmd6CaptureIdPayload
  pub camera_address : Bytes → Result F ℕ
  pub outputs : Bytes → Result F Cmd8OutputControlPayload
  pub send_sms : Bytes → Result F Cmd11SendSmsPayload
  pub with_record : Bytes → Result F Timestamped
  pub with_records : Bytes → Result F Timestamped
  pub settings : Bytes → Result F Cmd12SettingsRecord
  pub ids : Bytes → Result F (List Cmd13IdRecord)
  pub schedules : Bytes → Result F (List Cmd14ScheduleRecord)
  pub groups : Bytes → Result F (List Cmd15GroupRecord)
  pub holidays : Bytes → Result F HolidayRequest
  pub block : Bytes → Result F ℕ
  pub fw_start : Bytes → Result F Cmd19StartFwPayload
  pub fw_block : Bytes → Result F FwBlockRequest
  pub server_time : Bytes → Result F ℕ
  pub binding : Bytes → Result F BindingRequest
  pub custom : Bytes → Result F CustomRequest

-- One constructor for each message of `buildCommandPayload`; `payload` has those of the builders.
pub data ParameterError (F : Type 0) : Type 0 where
  parameters in_record_json in_records_json : F → ParameterError F
  record_json_required records_json_required : ParameterError F
  invalid_uint32 : Bytes → ParameterError F
  no_days : ParameterError F
  in_data_hex in_object_number_raw_hex in_argument_hex : HexError → ParameterError F
  payload : BuildError → ParameterError F
  not_supported : ℕ → ParameterError F

-- `strings.Split(s, ",")`, of one part more than there are commas.
unfoldable pub split_commas : Bytes → List Bytes
split_commas [] = [] ∷ []
split_commas (c ∷ s) = elim (split_commas s) [
  | [] ↦ [] ∷ []
  | part ∷ parts ↦ if c == b',' then [] ∷ part ∷ parts else (c ∷ part) ∷ parts
]

-- The number that `fmt.Sscanf` reads by "%d": the digits at the start, at least one.
-- `value` is the number of those before.
unfoldable pub digits_value : ℕ → Bytes → ℕ
digits_value value [] = value
digits_value value (c ∷ s) =
    let rest = digits_value (value * 10 + (c - 48)) s in if is_digit c then rest else value

unfoldable pub scan_uint32 : Bytes → Option ℕ
unfolding digits_value
scan_uint32 [] = none
scan_uint32 (c ∷ s) =
    let value = digits_value 0 (c ∷ s) in
    if is_digit c && ltb value (2 ^ 32) then some value else none

-- The loop of `parseUint32CSV`. An empty part is left out.
unfoldable pub parse_parts : {F : Type 0} → List Bytes → Result (ParameterError F) (List ℕ)
unfolding scan_uint32 trim_space
parse_parts [] = ok []
parse_parts (p ∷ parts) =
    let part = trim_space p in
    let rest = parse_parts parts in
    if length part == 0 then rest else (elim (scan_uint32 part) [
      | none ↦ err (invalid_uint32 part)
      | some value ↦ rest >>= λ values. ok (value ∷ values)
    ])

unfoldable pub parse_uint32_csv : {F : Type 0} → Bytes → Result (ParameterError F) (List ℕ)
unfolding parse_parts split_commas trim_space
parse_uint32_csv s = do
  values ← parse_parts (split_commas (trim_space s))
  fail_if (length values == 0) no_days
  ok values
