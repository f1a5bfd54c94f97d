-- ===== src/Protocol/Frame.antt =====
-- internal/protocol/frame.go: frames on the wire.
-- A reader is the list of the bytes that it still delivers; `io.ReadFull` takes bytes off its front.
pub mod RoundTrip
pub mod Corruption
pub mod Canonical
pub mod Auto
use tcpadapter.Common.{
  ℕ, zero, suc, ◌+◌, Bool, true, false, not, ◌&&◌, ◌||◌, [], ◌∷◌, ◌++◌, Option, none, some, length,
  take, drop, Result, ok, err, ◌>>=◌, ◌>>◌, fail_if, is_ok, ltb, leb, ◌==◌, if◌then◌else◌, Bytes,
  byte_at, slice, put_u16, u16,
}
use tcpadapter.Crc.{crc16_modbus}
use tcpadapter.Protocol.Messages.Registration.{parse_registration_payload}

pub data FrameMode : Type 0 where
  auto sequenced compact : FrameMode

pub record Frame : Type 0 where
  pub ttl : ℕ
  pub seq : ℕ
  pub payload : Bytes
  pub mode : FrameMode

pub data FrameError : Type 0 where
  payload_empty eof unexpected_eof invalid_marker frame_too_short crc_mismatch : FrameError
  too_large : ℕ → FrameError

abbrev pub start_marker : Bytes
start_marker = b'S' ∷ b'L' ∷ b'D' ∷ b'N' ∷ []

-- `CommandID`: `none` where the source returns false.
unfoldable pub command_id : Bytes → Option ℕ
command_id [] = none
command_id (c ∷ _) = some c

-- The bytes between the length field and the checksum.
unfoldable pub frame_data : Frame → Bytes
frame_data f = elim f.mode [ compact ↦ f.ttl ∷ f.payload | _ ↦ f.ttl ∷ f.seq ∷ f.payload ]

abbrev pub checked_part : Frame → Bytes
checked_part f = put_u16 (length (frame_data f)) ++ frame_data f

unfoldable pub encode_frame : Frame → Result FrameError Bytes
encode_frame f = do
  fail_if (length f.payload == 0) payload_empty
  fail_if (ltb 0xFFFF (length (frame_data f))) (too_large (length (frame_data f)))
  ok (start_marker ++ checked_part f ++ put_u16 (crc16_modbus (checked_part f)))

-- The first `n` bytes and the rest, if there are `n`.
unfoldable pub split_at? : ℕ → Bytes → Option (Bytes × Bytes)
split_at? zero s = some ([], s)
split_at? (suc n) [] = none
split_at? (suc n) (b ∷ s) = elim (split_at? n s) [ none ↦ none | some (x, r) ↦ some (b ∷ x, r) ]

-- `io.ReadFull`: no byte at all is EOF, too few are an unexpected EOF.
unfoldable pub read_full : ℕ → Bytes → Result FrameError (Bytes × Bytes)
read_full n s = elim (split_at? n s) [
  | some p ↦ ok p
  | none ↦ err (if length s == 0 then eof else unexpected_eof)
]

unfoldable pub is_known_command_id : ℕ → Bool
is_known_command_id c = (leb 1 c && leb c 25) || c == 27

abbrev pub compact_frame : Bytes → Frame
compact_frame d = record { ttl = byte_at d 0; seq = 0; payload = drop 1 d; mode = compact }

abbrev pub sequenced_frame : Bytes → Frame
sequenced_frame d = record {
  ttl = byte_at d 0;
  seq = byte_at d 1;
  payload = drop 2 d;
  mode = sequenced;
}

abbrev pub is_registration : Frame → Bool
is_registration f = is_ok (parse_registration_payload f.payload)

-- The command id, 0 where there is none, and whether there is one.
abbrev id_or_zero : Option ℕ → ℕ
id_or_zero none = 0
id_or_zero (some c) = c

abbrev has_id : Option ℕ → Bool
has_id none = false
has_id (some c) = true

-- The last part of `readAutoFrame`: a choice by the command ids that the two readings have.
unfoldable pub choose_by_command : Frame → Frame → Frame
unfolding command_id is_known_command_id
choose_by_command c s =
    let c_cmd = id_or_zero (command_id c.payload) in
    let s_cmd = id_or_zero (command_id s.payload) in
    let c_ok = has_id (command_id c.payload) in
    let s_ok = has_id (command_id s.payload) in
    if c_ok && not s_ok
    then c
    else if s_ok && not c_ok
    then s
    else if c_ok && not (is_known_command_id s_cmd) && is_known_command_id c_cmd
    then c
    else if s_ok && not (is_known_command_id c_cmd) && is_known_command_id s_cmd
    then s
    else c

unfoldable pub read_auto_frame : Bytes → Result FrameError Frame
unfolding choose_by_command
read_auto_frame d =
    if ltb (length d) 2
    then err frame_too_short
    else if is_registration (compact_frame d)
    then ok (compact_frame d)
    else if ltb (length d) 3
    then ok (compact_frame d)
    else if is_registration (sequenced_frame d)
    then ok (sequenced_frame d)
    else ok (choose_by_command (compact_frame d) (sequenced_frame d))

-- The `switch mode` of `ReadFrameWithMode`.
unfoldable pub decode_data : FrameMode → Bytes → Result FrameError Frame
unfolding read_auto_frame
decode_data compact d = if ltb (length d) 2 then err frame_too_short else ok (compact_frame d)
decode_data auto d = read_auto_frame d
decode_data sequenced d = if ltb (length d) 3 then err frame_too_short else ok (sequenced_frame d)

-- The checks on the bytes that were read, and the frame in them.
unfoldable pub decode_checked : FrameMode → Bytes → Bytes → Result FrameError Frame
unfolding decode_data
decode_checked mode len_field data_and_crc = do
  let data_len = u16 len_field
  let d = take data_len data_and_crc
  let wire_crc = u16 (drop data_len data_and_crc)
  fail_if (not (wire_crc == crc16_modbus (len_field ++ d))) crc_mismatch
  decode_data mode d

-- The frame, and what is left in the reader.
unfoldable pub read_frame_with_mode : FrameMode → Bytes → Result FrameError (Frame × Bytes)
unfolding read_full split_at? decode_checked
read_frame_with_mode mode s = do
  (header, s') ← read_full 6 s
  fail_if
      (not (byte_at header 0 == b'S')
        || not (byte_at header 1 == b'L')
        || not (byte_at header 2 == b'D')
        || not (byte_at header 3 == b'N'))
      invalid_marker
  fail_if (ltb (u16 (slice 4 6 header)) 1) frame_too_short
  (data_and_crc, rest) ← read_full (u16 (slice 4 6 header) + 2) s'
  frame ← decode_checked mode (slice 4 6 header) data_and_crc
  ok (frame, rest)

unfoldable pub read_frame : Bytes → Result FrameError (Frame × Bytes)
read_frame = read_frame_with_mode sequenced
