-- ===== src/Server/CommandBuilder.antt =====
-- internal/server/command_builder.go: payloads from the fields of a form. What encoding/json makes of the
-- text is given, for each request type.
pub mod Accepted
pub mod Preview
pub mod Requests
pub use Requests.*
use tcpadapter.Common.{
  ℕ, zero, suc, ◌+◌, ◌-◌, ◌*◌, ◌^◌, Bool, not, ◌&&◌, ◌||◌, List, [], ◌∷◌, ◌++◌, Option, none, some,
  length, Result, ok, err, ◌>>=◌, ◌>>◌, fail_if, wrap_err, leb, ltb, ◌==◌, if◌then◌else◌, Bytes,
}
use tcpadapter.Common.Dict.{Dict, lookup, bytes_eq, nat_eq}
use tcpadapter.Protocol.Frame.{Frame, FrameError, encode_frame, auto}
use tcpadapter.Protocol.Messages.Registration.{is_digit}
use tcpadapter.Protocol.Builders.Fields.{BuildError, Built, zeros}
use tcpadapter.Protocol.Builders.Short.{
  Cmd5TriggerFlags, Cmd6CaptureIdPayload, Cmd8OutputControlPayload, Cmd19StartFwPayload, build_cmd2,
  build_cmd3, build_cmd5_structured, build_cmd6, build_cmd7, build_cmd8, build_cmd18, build_cmd19,
  build_cmd20, build_cmd23, build_empty_payload,
}
use tcpadapter.Protocol.Builders.Long.{
  Cmd11SendSmsPayload, Cmd25BindingResponsePayload, Cmd27CustomPayload, build_cmd11, build_cmd25,
  build_cmd27,
}
use tcpadapter.Protocol.Builders.Settings.{Cmd12SettingsRecord, build_cmd12}
use tcpadapter.Protocol.Builders.Records.{Cmd13IdRecord, Cmd14ScheduleRecord, Cmd15GroupRecord}
use tcpadapter.Protocol.Builders.Sync.{
  build_cmd13_structured, build_cmd14_structured, build_cmd15_structured, build_cmd16,
}
use tcpadapter.Server.HexText.{HexError, trim_space, decode_hex_string, upper_hex}

pub record BuildRequest : Type 0 where
  pub command_id : ℕ
  pub parameters : Bytes

-- `commandBuildResponse`, without the name, which is a function of the id.
pub record CommandBuildResponse : Type 0 where
  pub command_id : ℕ
  pub payload_hex : Bytes
  pub payload_len : ℕ
  pub frame_hex : Bytes
  pub frame_len : ℕ

pub data BuildFault (F : Type 0) : Type 0 where
  invalid_json id_required : BuildFault F
  build_failed : ParameterError F → BuildFault F
  preview_failed : FrameError → BuildFault F

pub data Reply (F : Type 0) : Type 0 where
  not_found method_not_allowed : Reply F
  bad_request : BuildFault F → Reply F
  built : CommandBuildResponse → Reply F

abbrev pub preview_frame : ℕ → Bytes → Frame
preview_frame id p = record { ttl = 255; seq = 1; payload = id ∷ p; mode = auto }

unfoldable pub response : ℕ → Bytes → Bytes → CommandBuildResponse
unfolding upper_hex
response id p frame = record {
  command_id = id;
  payload_hex = upper_hex p;
  payload_len = length p;
  frame_hex = upper_hex frame;
  frame_len = length frame;
}

abbrev null_text : Bytes
null_text = b'n' ∷ b'u' ∷ b'l' ∷ b'l' ∷ []

abbrev pub Payload : Type 0 → Type 0
Payload F = Result (ParameterError F) Bytes

unfoldable pub build_sms : Cmd11SendSmsPayload → Built
unfolding build_cmd11 trim_space
build_sms req = build_cmd11 (record req { phone10 = trim_space req.phone10 })

module _ {F : Type 0} (json : Json F) where
  -- `decodeBuilderParams`
  unfoldable pub decode_builder_params {ℓ} :
      {A : Type ℓ} → (Bytes → Result F A) → Bytes → Result (ParameterError F) A
  unfolding trim_space
  decode_builder_params unmarshal raw =
      let body = trim_space raw in
      wrap_err parameters
        (unmarshal (if length body == 0 || bytes_eq body null_text then b'{' ∷ b'}' ∷ [] else body))

  -- A case whose builder takes the request as it is.
  unfoldable pub plain_case : {A : Type 0} → (Bytes → Result F A) → (A → Built) → Bytes → Payload F
  unfolding decode_builder_params
  plain_case unmarshal build raw =
      decode_builder_params unmarshal raw >>= λ req. wrap_err payload (build req)

  -- A case whose records are in a text of JSON within the request.
  unfoldable pub json_case :
      {A : Type 0}
      → ParameterError F
      → (F → ParameterError F)
      → (Bytes → Result F Timestamped)
      → (Bytes → Result F A)
      → (ℕ → A → Built)
      → Bytes
      → Payload F
  unfolding decode_builder_params
  json_case required wrong unmarshal unmarshal_json build raw = do
    req ← decode_builder_params unmarshal raw
    fail_if (length req.json == 0) required
    r ← wrap_err wrong (unmarshal_json req.json)
    wrap_err payload (build req.timestamp r)

  unfoldable pub holidays_case : Bytes → Payload F
  unfolding decode_builder_params parse_uint32_csv build_cmd16
  holidays_case raw = do
    req ← decode_builder_params json.holidays raw
    days ← parse_uint32_csv req.days_csv
    wrap_err payload (build_cmd16 req.timestamp days)

  unfoldable pub fw_block_case : Bytes → Payload F
  unfolding decode_builder_params decode_hex_string build_cmd20
  fw_block_case raw = do
    req ← decode_builder_params json.fw_block raw
    block ← wrap_err in_data_hex (decode_hex_string req.data_hex)
    wrap_err payload (build_cmd20 req.block_number block)

  unfoldable pub binding_case : Bytes → Payload F
  unfolding decode_builder_params decode_hex_string build_cmd25
  binding_case raw = do
    req ← decode_builder_params json.binding raw
    raw_number ← wrap_err in_object_number_raw_hex (decode_hex_string req.object_number_raw_hex)
    wrap_err payload (
        build_cmd25 record {
          error_code = req.error_code;
          object_number = req.object_number;
          object_number_raw = raw_number;
          object_name = req.object_name;
          controller_name = req.controller_name;
          admin_phone = req.admin_phone;
        })

  unfoldable pub custom_case : Bytes → Payload F
  unfolding decode_builder_params decode_hex_string build_cmd27
  custom_case raw = do
    req ← decode_builder_params json.custom raw
    arg ← wrap_err in_argument_hex (decode_hex_string req.argument_hex)
    wrap_err payload (build_cmd27 record { custom_command = req.custom_command; argument = arg })

  -- A case that does not read the parameters.
  abbrev pub empty_case : ℕ → Bytes → Payload F
  empty_case id raw = wrap_err payload (build_empty_payload id)

  abbrev pub builders : Dict ℕ (Bytes → Payload F)
  builders =
      (2, plain_case json.timeout_sec build_cmd2)
      ∷ (3, plain_case json.timeout_sec build_cmd3)
      ∷ (5, plain_case json.triggers (λ flags. build_cmd5_structured flags (zeros 8)))
      ∷ (6, plain_case json.capture_id build_cmd6)
      ∷ (7, plain_case json.camera_address build_cmd7)
      ∷ (8, plain_case json.outputs build_cmd8)
      ∷ (9, empty_case 9)
      ∷ (10, empty_case 10)
      ∷ (17, empty_case 17)
      ∷ (21, empty_case 21)
      ∷ (22, empty_case 22)
      ∷ (11, plain_case json.send_sms build_sms)
      ∷ (
        12,
        json_case record_json_required in_record_json json.with_record json.settings build_cmd12,
      )
      ∷ (
        13,
        json_case records_json_required in_records_json json.with_records json.ids
            build_cmd13_structured,
      )
      ∷ (
        14,
        json_case records_json_required in_records_json json.with_records json.schedules
            build_cmd14_structured,
      )
      ∷ (
        15,
        json_case records_json_required in_records_json json.with_records json.groups
            build_cmd15_structured,
      )
      ∷ (16, holidays_case)
      ∷ (18, plain_case json.block build_cmd18)
      ∷ (19, plain_case json.fw_start build_cmd19)
      ∷ (20, fw_block_case)
      ∷ (23, plain_case json.server_time build_cmd23)
      ∷ (25, binding_case)
      ∷ (27, custom_case)
      ∷ []

  -- `buildCommandPayload`
  unfoldable pub build_command_payload : ℕ → Bytes → Payload F
  unfolding lookup
  build_command_payload id raw = elim (lookup id builders) [
    | none ↦ err (not_supported id)
    | some build ↦ build raw
  ]

  -- `debugBuildCommandHandler`; `read_request` decodes the body. Of a reply that is no preview only the
  -- status and the error are kept.
  unfoldable pub debug_build_command :
      (Bytes → Result F BuildRequest) → Bool → Bool → Bytes → Reply F
  unfolding encode_frame build_command_payload response
  debug_build_command read_request debug_logs is_post body =
      if not debug_logs
      then not_found
      else if not is_post
      then method_not_allowed
      else (elim (read_request body) [
        | err _ ↦ bad_request invalid_json
        | ok req ↦
            if req.command_id == 0
            then bad_request id_required
            else (elim (build_command_payload req.command_id req.parameters) [
              | err e ↦ bad_request (build_failed e)
              | ok p ↦ elim (encode_frame (preview_frame req.command_id p)) [
                | err e ↦ bad_request (preview_failed e)
                | ok frame ↦ built (response req.command_id p frame)
              ]
            ])
      ])
