-- ===== src/Examples/Builder.antt =====
-- A request for a custom command with a text of hex.
use tcpadapter.Common.{ℕ, ◌≡◌, refl, [], ◌∷◌, ok, err, true, arith}
use tcpadapter.Protocol.Payload.Fixed.{validate_cmd27}
use tcpadapter.Server.CommandBuilder.{
  Json, BuildRequest, CommandBuildResponse, built, build_command_payload, custom_case,
  debug_build_command,
}
use tcpadapter.Server.CommandBuilder.Requests.{parse_uint32_csv}
use tcpadapter.Server.CommandBuilder.Preview.{Shows, debug_build_command-Shows}

-- Decoders that know two requests only.
abbrev two_requests : Json ℕ
two_requests = record {
  timeout_sec = λ raw. ok 3;
  triggers = λ raw. err 0;
  capture_id = λ raw. err 0;
  camera_address = λ raw. err 0;
  outputs = λ raw. err 0;
  send_sms = λ raw. err 0;
  with_record = λ raw. err 0;
  with_records = λ raw. err 0;
  settings = λ raw. err 0;
  ids = λ raw. err 0;
  schedules = λ raw. err 0;
  groups = λ raw. err 0;
  holidays = λ raw. err 0;
  block = λ raw. err 0;
  fw_start = λ raw. err 0;
  fw_block = λ raw. err 0;
  server_time = λ raw. err 0;
  binding = λ raw. err 0;
  custom = λ raw. ok record {
    custom_command = 9;
    argument_hex = 32 ∷ b'0' ∷ b'1' ∷ 32 ∷ b'f' ∷ b'F' ∷ 0xC2 ∷ 0xA0 ∷ [];
  };
}

abbrev custom_request : BuildRequest
custom_request = record { command_id = 27; parameters = b'{' ∷ b'}' ∷ [] }

-- "1;2" is taken for 1.
days_cut_off : parse_uint32_csv {F = ℕ} (b'1' ∷ b';' ∷ b'2' ∷ []) ≡ ok (1 ∷ [])
unfolding parse_uint32_csv
days_cut_off = refl

two_days :
    parse_uint32_csv {F = ℕ} (32 ∷ b'1' ∷ b'0' ∷ 32 ∷ b',' ∷ b',' ∷ b'2' ∷ []) ≡ ok (10 ∷ 2 ∷ [])
unfolding parse_uint32_csv
two_days = refl

custom_payload :
    build_command_payload two_requests 27 (b'{' ∷ b'}' ∷ []) ≡ ok (9 ∷ 2 ∷ 0 ∷ 1 ∷ 255 ∷ [])
unfolding build_command_payload custom_case validate_cmd27
custom_payload = refl

custom_shown :
    (r : CommandBuildResponse) × (debug_build_command two_requests
        (λ body. ok custom_request)
        true
        true
        []
      ≡ built r)
    × Shows 27 (9 ∷ 2 ∷ 0 ∷ 1 ∷ 255 ∷ []) r
custom_shown =
    debug_build_command-Shows two_requests (λ body. ok custom_request) [] (9 ∷ 2 ∷ 0 ∷ 1 ∷ 255 ∷ [])
      custom_request refl (omega arith) (omega arith) custom_payload (omega arith) (omega arith)
