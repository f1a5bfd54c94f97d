-- ===== src/Examples/Frames.antt =====
-- Frames, checksums and payloads.
use tcpadapter.Common.{◌++◌, ◌≡◌, ◌≢◌, refl, [], ◌∷◌, ok, err, Bytes, arith, set}
use tcpadapter.Crc.{crc16_modbus}
use tcpadapter.Crc.Detects.{crc_detects_byte}
use tcpadapter.Protocol.Frame.{
  Frame, crc_mismatch, auto, compact, sequenced, encode_frame, frame_data, read_frame_with_mode,
}
use tcpadapter.Protocol.Frame.RoundTrip.{IsFrame, read-encode_same}
use tcpadapter.Protocol.Frame.Corruption.{read_damaged}
use tcpadapter.Protocol.Frame.Canonical.{encode-read}
use tcpadapter.Protocol.Frame.Auto.{read_registration}
use tcpadapter.Protocol.Messages.Registration.{sample_payload, sample_registration}
use tcpadapter.Common.Dict.{lookup}
use tcpadapter.Protocol.Payload.Validate.{validate_server_command_payload}
use tcpadapter.Protocol.Payload.Tables.{validate_cmd15}
use tcpadapter.Protocol.Payload.Tabled.{Tabled}
use tcpadapter.Protocol.Payload.Fixed.{fw_block_count_for_size, validate_cmd19}
use tcpadapter.Protocol.Payload.Firmware.{
  fw_block_count_for_size-wraps, StartsFirmware, validate_cmd19-StartsFirmware,
}

crc_detects_byte_example : crc16_modbus (1 ∷ 2 ∷ 3 ∷ []) ≢ crc16_modbus (1 ∷ 7 ∷ 3 ∷ [])
crc_detects_byte_example =
    crc_detects_byte (1 ∷ []) (3 ∷ []) {x = 2} {y = 7} (omega arith, tt) (omega arith, tt)
      (omega arith) (omega arith) (λ e. omega arith)

abbrev ping : Frame
ping = record { ttl = 3; seq = 7; payload = 23 ∷ 1 ∷ 2 ∷ 3 ∷ 4 ∷ []; mode = sequenced }

ping-IsFrame : IsFrame ping
ping-IsFrame = record {
  ttl_byte = omega arith;
  seq_byte = omega arith;
  payload_bytes = omega arith;
}

abbrev hello : Frame
hello = record { ttl = 3; seq = 0; payload = sample_payload; mode = compact }

abbrev ping_bytes : Bytes
ping_bytes = 83 ∷ 76 ∷ 68 ∷ 78 ∷ 7 ∷ 0 ∷ 3 ∷ 7 ∷ 23 ∷ 1 ∷ 2 ∷ 3 ∷ 4 ∷ 203 ∷ 123 ∷ []

abbrev hello_bytes : Bytes
hello_bytes =
    83 ∷ 76 ∷ 68 ∷ 78 ∷ 19 ∷ 0 ∷ 3 ∷ 1 ∷ 56 ∷ 54 ∷ 48 ∷ 49 ∷ 50 ∷ 51 ∷ 52 ∷ 53 ∷ 54 ∷ 55 ∷ 56 ∷ 57
    ∷ 0 ∷ 0 ∷ 0 ∷ 3 ∷ 7 ∷ 19 ∷ 125 ∷ []

hello-IsFrame : IsFrame hello
hello-IsFrame = record {
  ttl_byte = omega arith;
  seq_byte = omega arith;
  payload_bytes = omega arith;
}

ping_encoded : encode_frame ping ≡ ok ping_bytes
unfolding encode_frame crc16_modbus frame_data
ping_encoded = refl

hello_encoded : encode_frame hello ≡ ok hello_bytes
unfolding encode_frame crc16_modbus frame_data
hello_encoded = refl

-- Two bytes follow the frame.
ping_comes_back :
    read_frame_with_mode sequenced (ping_bytes ++ 83 ∷ 76 ∷ []) ≡ ok (ping, 83 ∷ 76 ∷ [])
ping_comes_back =
    read-encode_same ping ping_bytes (83 ∷ 76 ∷ []) ping-IsFrame (λ e. cc) (λ e. absurd cc)
      ping_encoded

ping_damaged : read_frame_with_mode auto (set ping_bytes 9 0 ++ []) ≡ err crc_mismatch
ping_damaged =
    read_damaged auto ping ping_bytes [] 9 0 ping-IsFrame ping_encoded (omega arith) (omega arith)
      (omega arith) (omega arith)

ping_read : read_frame_with_mode sequenced ping_bytes ≡ ok (ping, [])
unfolding read_frame_with_mode crc16_modbus
ping_read = refl

ping_canonical : (bytes : Bytes) × (encode_frame ping ≡ ok bytes) × (ping_bytes ≡ bytes ++ [])
ping_canonical = encode-read sequenced ping_bytes [] ping (omega arith) ping_read

hello_recognised : read_frame_with_mode auto (hello_bytes ++ []) ≡ ok (hello, [])
hello_recognised =
    read_registration hello _ hello_bytes [] hello-IsFrame (λ e. cc) (λ e. refl) sample_registration
      hello_encoded

-- A file of 1500 bytes in two blocks.
abbrev start_payload : Bytes
start_payload = 1 ∷ 0 ∷ 9 ∷ 0 ∷ 0 ∷ 0 ∷ 220 ∷ 5 ∷ 0 ∷ 0 ∷ 1 ∷ 2 ∷ 3 ∷ 4 ∷ 2 ∷ 0 ∷ []

start_is_valid : validate_cmd19 start_payload ≡ ok tt
unfolding validate_cmd19
start_is_valid = refl

start_payload-StartsFirmware : StartsFirmware start_payload
start_payload-StartsFirmware =
    validate_cmd19-StartsFirmware start_payload (omega arith) start_is_valid

no_blocks_of_4294967295 : fw_block_count_for_size 4294967295 ≡ 0
no_blocks_of_4294967295 = fw_block_count_for_size-wraps 4294967295 (omega arith) (omega arith)

abbrev groups_payload : Bytes
groups_payload =
    0 ∷ 0 ∷ 0 ∷ 0 ∷ 1 ∷ 1 ∷ 2 ∷ 1 ∷ 0 ∷ 0 ∷ 0 ∷ 0 ∷ 0 ∷ 0 ∷ 0 ∷ 0 ∷ 0 ∷ 0 ∷ 0 ∷ 0 ∷ 0 ∷ []

groups_accepted : validate_server_command_payload 15 groups_payload ≡ ok tt
unfolding validate_server_command_payload lookup validate_cmd15
groups_accepted = refl
