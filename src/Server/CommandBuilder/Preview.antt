-- ===== src/Server/CommandBuilder/Preview.antt =====
-- What `debugBuildCommandHandler` answers when the payload can be built.
use tcpadapter.Common.{
  ℕ, ◌≤◌, ◌<◌, ◌≡◌, refl, ap, sym, ◌∙◌, [], ◌∷◌, ◌++◌, length, Result, ok, true, false, Bytes,
  IsBytes, arith, put_u16, put_u16-IsBytes, All-append, ◌==◌,
}
use mathlib.Core.List.{append-nil}
use tcpadapter.Crc.{crc16_modbus}
use tcpadapter.Protocol.Frame.{
  Frame, encode_frame, read_frame_with_mode, sequenced, start_marker, checked_part, frame_data,
}
use tcpadapter.Protocol.Frame.RoundTrip.{IsFrame, frame_data-IsBytes, read-encode_same}
use tcpadapter.Protocol.Payload.Validate.{validate_server_command_payload}
use tcpadapter.Server.HexText.{decode_hex_string}
use tcpadapter.Server.HexText.RoundTrip.{decode_hex_string-upper_hex}
use tcpadapter.Server.CommandBuilder.{
  Json, BuildRequest, CommandBuildResponse, built, response, preview_frame, build_command_payload,
  debug_build_command,
}
use tcpadapter.Server.CommandBuilder.Accepted.{build_command_payload-Sound}

-- The preview for command `id` and its payload `p`: both texts are hex of what they name.
pub record Shows (id : ℕ) (p : Bytes) (r : CommandBuildResponse) : Type 0 where
  pub valid : validate_server_command_payload id p ≡ ok tt
  pub for_command : r.command_id ≡ id
  pub payload_text : decode_hex_string r.payload_hex ≡ ok p
  pub payload_size : r.payload_len ≡ length p
  pub frame : Bytes
  pub frame_text : decode_hex_string r.frame_hex ≡ ok frame
  pub frame_size : r.frame_len ≡ length frame
  pub frame_read :
      read_frame_with_mode sequenced frame
      ≡ ok (record { ttl = 255; seq = 1; payload = id ∷ p; mode = sequenced }, [])

abbrev numbered : ℕ → Bytes → Frame
numbered id p = record { ttl = 255; seq = 1; payload = id ∷ p; mode = sequenced }

-- The frame as it is written.
abbrev wire_of : Frame → Bytes
wire_of f = start_marker ++ checked_part f ++ put_u16 (crc16_modbus (checked_part f))

wire_of-IsBytes : (f : Frame) → IsFrame f → IsBytes (wire_of f)
wire_of-IsBytes f v =
    let crc = put_u16 (crc16_modbus (checked_part f)) in
    All-append _ start_marker (checked_part f ++ crc) (omega arith) (
      All-append _ (checked_part f) crc
        (All-append _ (put_u16 (length (frame_data f))) (frame_data f)
          (put_u16-IsBytes (length (frame_data f))) (frame_data-IsBytes f v))
        (put_u16-IsBytes (crc16_modbus (checked_part f))))

encode_frame-eq-ok :
    (f : Frame)
    → 0 < length f.payload
    → length (frame_data f) ≤ 0xFFFF
    → encode_frame f ≡ ok (wire_of f)
unfolding encode_frame
encode_frame-eq-ok f some_payload fits = ground arith

encode_numbered :
    (id : ℕ) (p : Bytes)
    → length p ≤ 65532
    → encode_frame (numbered id p) ≡ ok (wire_of (numbered id p))
unfolding frame_data
encode_numbered id p h = encode_frame-eq-ok (numbered id p) (omega arith) (omega arith)

-- The layout of a frame in mode "auto" is that of a numbered one.
encode_preview :
    (id : ℕ) (p : Bytes)
    → length p ≤ 65532
    → encode_frame (preview_frame id p) ≡ ok (wire_of (numbered id p))
unfolding frame_data
encode_preview id p h = encode_frame-eq-ok (preview_frame id p) (omega arith) (omega arith)

read_numbered :
    (id : ℕ) (p : Bytes)
    → IsFrame (numbered id p)
    → length p ≤ 65532
    → read_frame_with_mode sequenced (wire_of (numbered id p)) ≡ ok (numbered id p, [])
read_numbered id p v h =
    ap (read_frame_with_mode sequenced) (sym (append-nil (wire_of (numbered id p))))
    ∙ read-encode_same (numbered id p) (wire_of (numbered id p)) [] v (λ e. cc) (λ e. absurd cc)
        (encode_numbered id p h)

response-Shows :
    (id : ℕ) (p : Bytes)
    → id < 256
    → IsBytes p
    → length p ≤ 65532
    → validate_server_command_payload id p ≡ ok tt
    → Shows id p (response id p (wire_of (numbered id p)))
unfolding response
response-Shows id p small bytes h valid =
    let v : IsFrame (numbered id p) = record {
      ttl_byte = omega arith;
      seq_byte = omega arith;
      payload_bytes = (small, bytes);
    } in
    record {
      valid = valid;
      for_command = refl;
      payload_text = decode_hex_string-upper_hex p bytes;
      payload_size = refl;
      frame = wire_of (numbered id p);
      frame_text = decode_hex_string-upper_hex _ (wire_of-IsBytes (numbered id p) v);
      frame_size = refl;
      frame_read = read_numbered id p v h;
    }

-- With debug logs on, a request whose parameters can be built into a payload of bytes that fits into a frame is answered by a preview: the payload is valid for its command, both texts read back as the bytes that they show, and the frame reads back as the command and its payload.
pub debug_build_command-Shows :
    {F : Type 0} (json : Json F) (read_request : Bytes → Result F BuildRequest) (body p : Bytes)
    (req : BuildRequest)
    → read_request body ≡ ok req
    → 0 < req.command_id
    → req.command_id < 256
    → build_command_payload json req.command_id req.parameters ≡ ok p
    → IsBytes p
    → length p ≤ 65532
    → (r : CommandBuildResponse) × (debug_build_command json read_request true true body ≡ built r)
      × Shows req.command_id p r
unfolding debug_build_command
debug_build_command-Shows json read_request body p req e pos_id small e_built bytes h =
    let id = req.command_id in
    let some_id : (id == 0) ≡ false = ground arith in
    (
      response id p (wire_of (numbered id p)),
      rw (e, debug_build_command, some_id, e_built, encode_preview id p h) refl,
      response-Shows id p small bytes h
          (build_command_payload-Sound json id req.parameters p e_built),
    )
