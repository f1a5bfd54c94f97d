-- ===== src/Protocol/Frame/RoundTrip.antt =====
-- Reading back what `EncodeFrame` wrote.
use tcpadapter.Common.{
  ℕ, ◌+◌, ◌%◌, ◌/◌, ◌^◌, ◌<◌, ◌≡◌, refl, ap, ◌≢◌, ◌∙◌, [], ◌∷◌, ◌++◌, some, length, length-append,
  take-length_append, drop-length_append, Result, ok, ◌>>=◌, ◌>>◌, arith, true, false, not,
  All-append, put_u16-IsBytes, fail_if, ltb, ◌==◌, Bytes, IsBytes, put_u16, u16, u16-put_u16,
}
use tcpadapter.Crc.{crc16_modbus}
use tcpadapter.Crc.Detects.{crc16_modbus-lt}
use tcpadapter.Protocol.Frame.{
  FrameMode, start_marker, crc_mismatch, auto, sequenced, compact, Frame, FrameError,
  frame_too_short, frame_data, checked_part, encode_frame, split_at?, read_full, decode_data,
  decode_checked, read_frame_with_mode,
}

-- The fields are bytes, as their Go types say.
pub record IsFrame (f : Frame) : Type 0 where
  pub ttl_byte : f.ttl < 256
  pub seq_byte : f.seq < 256
  pub payload_bytes : IsBytes f.payload

-- What the reader returns: the frame, and the bytes behind it.
abbrev pub and_rest : Bytes → Result FrameError Frame → Result FrameError (Frame × Bytes)
and_rest rest r = r >>= λ frame. ok (frame, rest)

split_at?-append : (xs rest : Bytes) → split_at? (length xs) (xs ++ rest) ≡ some (xs, rest)
unfolding split_at?
split_at?-append [] rest = refl
split_at?-append (x ∷ xs) rest = rw (split_at?-append xs rest, split_at?)

pub read_full-append :
    (n : ℕ) (xs rest : Bytes) → n ≡ length xs → read_full n (xs ++ rest) ≡ ok (xs, rest)
unfolding read_full
read_full-append n xs rest e = rw (e, split_at?-append xs rest, read_full)

data_by_mode-IsBytes : (m : FrameMode) (f : Frame) → f.mode ≡ m → IsFrame f → IsBytes (frame_data f)
unfolding frame_data
data_by_mode-IsBytes auto f e v = rw (e, frame_data) (v.ttl_byte, (v.seq_byte, v.payload_bytes))
data_by_mode-IsBytes sequenced f e v =
    rw (e, frame_data) (v.ttl_byte, (v.seq_byte, v.payload_bytes))
data_by_mode-IsBytes compact f e v = rw (e, frame_data) (v.ttl_byte, v.payload_bytes)

pub frame_data-IsBytes : (f : Frame) → IsFrame f → IsBytes (frame_data f)
frame_data-IsBytes f = data_by_mode-IsBytes f.mode f refl

-- What the reader does once the marker and the length field are there.
pub read_header :
    (mode : FrameMode) (lo hi : ℕ) (s : Bytes)
    → read_frame_with_mode mode (b'S' ∷ b'L' ∷ b'D' ∷ b'N' ∷ lo ∷ hi ∷ s) ≡ (
        fail_if (ltb (u16 (lo ∷ hi ∷ [])) 1) frame_too_short
        >> (read_full (u16 (lo ∷ hi ∷ []) + 2) s >>= λ p.
            decode_checked mode (lo ∷ hi ∷ []) p.0 >>= λ frame. ok (frame, p.1)))
unfolding read_frame_with_mode
read_header mode lo hi s = refl

-- The bytes between length field and checksum are checked against the checksum that stands there.
pub decode_checked-append :
    (mode : FrameMode) (l d : Bytes) (c : ℕ)
    → u16 l ≡ length d
    → c < 2 ^ 16
    → decode_checked mode l (d ++ put_u16 c)
      ≡ (fail_if (not (c == crc16_modbus (l ++ d))) crc_mismatch >> decode_data mode d)
unfolding decode_checked
decode_checked-append mode l d c e h =
    rw (e, take-length_append d (put_u16 c), drop-length_append d (put_u16 c), u16-put_u16 c [] h)

-- A frame on the wire with any checksum and any bytes behind it.
pub read_wire :
    (mode : FrameMode) (d rest : Bytes) (c : ℕ)
    → 0 < length d
    → length d < 2 ^ 16
    → c < 2 ^ 16
    → read_frame_with_mode mode (start_marker ++ put_u16 (length d) ++ (d ++ put_u16 c) ++ rest) ≡ (
        (fail_if (not (c == crc16_modbus (put_u16 (length d) ++ d))) crc_mismatch
          >> decode_data mode d)
        >>= λ frame. ok (frame, rest))
read_wire mode d rest c p h k = rw (
  read_header mode (length d % 256) (length d / 256 % 256) ((d ++ put_u16 c) ++ rest),
  u16-put_u16 (length d) [] h,
  not_empty,
  read_full-append (length d + 2) (d ++ put_u16 c) rest sizes,
  decode_checked-append mode (put_u16 (length d)) d c (u16-put_u16 (length d) [] h) k,
)
  where
    not_empty : ltb (length d) 1 ≡ false
    not_empty = ground arith

    sizes : length d + 2 ≡ length (d ++ put_u16 c)
    sizes = omega (arith, length-append d (put_u16 c))

pub frame_data-ne-nil : (f : Frame) → 0 < length (frame_data f)
unfolding frame_data
frame_data-ne-nil f = by_mode f.mode refl
  where
    by_mode : (m : FrameMode) → f.mode ≡ m → 0 < length (frame_data f)
    by_mode auto e = rw (e, frame_data) (omega arith)
    by_mode sequenced e = rw (e, frame_data) (omega arith)
    by_mode compact e = rw (e, frame_data) (omega arith)

-- What a successful `EncodeFrame` says of its argument and result.
pub record Encoded (f : Frame) (bytes : Bytes) : Type 0 where
  pub has_payload : 0 < length f.payload
  pub fits : length (frame_data f) < 2 ^ 16
  pub wire : bytes ≡ start_marker ++ checked_part f ++ put_u16 (crc16_modbus (checked_part f))

pub encode_frame-Encoded : (f : Frame) (bytes : Bytes) → encode_frame f ≡ ok bytes → Encoded f bytes
unfolding encode_frame
encode_frame-Encoded f bytes e = ground arith

pub eqb_refl : (n : ℕ) → (n == n) ≡ true
eqb_refl n = ground arith

-- A frame that `EncodeFrame` accepts is read as what its data bytes say in the reader's mode, and
-- exactly its bytes are taken off the reader.
pub read-encode :
    (mode : FrameMode) (f : Frame) (bytes rest : Bytes)
    → IsFrame f
    → encode_frame f ≡ ok bytes
    → read_frame_with_mode mode (bytes ++ rest) ≡ and_rest rest (decode_data mode (frame_data f))
read-encode mode f bytes rest v e =
    let w = encode_frame-Encoded f bytes e in
    rw (
      w.wire,
      read_wire mode (frame_data f) rest (crc16_modbus (checked_part f)) (frame_data-ne-nil f)
          w.fits crc_bound,
      eqb_refl (crc16_modbus (checked_part f)),
    )
  where
    crc_bound : crc16_modbus (checked_part f) < 2 ^ 16
    crc_bound = crc16_modbus-lt (checked_part f) (
        All-append _ (put_u16 (length (frame_data f))) (frame_data f) (put_u16-IsBytes _)
          (frame_data-IsBytes f v))

decode_own :
    (f : Frame)
    → 0 < length f.payload
    → f.mode ≢ auto
    → (f.mode ≡ compact → f.seq ≡ 0)
    → decode_data f.mode (frame_data f) ≡ ok f
unfolding decode_data frame_data
decode_own f payload_size not_auto no_seq = ground arith

-- A frame of bytes that was encoded comes back for a reader in the frame's own mode, which leaves
-- what follows the frame. The mode is not "auto", and a compact frame has the number 0, since it has
-- none on the wire.
pub read-encode_same :
    (f : Frame) (bytes rest : Bytes)
    → IsFrame f
    → f.mode ≢ auto
    → (f.mode ≡ compact → f.seq ≡ 0)
    → encode_frame f ≡ ok bytes
    → read_frame_with_mode f.mode (bytes ++ rest) ≡ ok (f, rest)
read-encode_same f bytes rest v not_auto no_seq e =
    read-encode f.mode f bytes rest v e
    ∙ ap (and_rest rest) (decode_own f (encode_frame-Encoded f bytes e).has_payload not_auto no_seq)
