-- ===== src/Protocol/Frame/Corruption.antt =====
-- What the reader makes of a frame that was damaged on the way.
use mathlib.Core.List.{append_assoc}
use tcpadapter.Common.{
  ℕ, zero, suc, ◌+◌, ◌-◌, ◌*◌, ◌/◌, ◌%◌, ◌^◌, ◌<◌, ◌≤◌, ◌≡◌, ◌≢◌, refl, ap, sym, [], ◌∷◌, ◌++◌,
  length, length-set, length-append, set, take, drop, get_or, All-append, ok, err, arith, false,
  ◌==◌, Bytes, IsBytes, put_u16, put_u16-IsBytes,
}
use native.Mathlib.Decide.{dec_lt}
use tcpadapter.Common.Items.{
  split_item, split_set, take-IsBytes, drop-IsBytes, get_or-lt, set-append_left, set-append_right,
}
use tcpadapter.Crc.{crc16_modbus}
use tcpadapter.Crc.Detects.{crc16_modbus-lt, crc_detects_byte}
use tcpadapter.Protocol.Frame.{
  FrameMode, Frame, start_marker, crc_mismatch, frame_data, checked_part, encode_frame,
  read_frame_with_mode,
}
use tcpadapter.Protocol.Frame.RoundTrip.{
  IsFrame, Encoded, encode_frame-Encoded, frame_data-IsBytes, frame_data-ne-nil, read_wire,
}

-- A prefix `l` and then the damaged bytes: the checksum differs.
crc16_modbus-set :
    (l d : Bytes) (i y : ℕ)
    → IsBytes l
    → IsBytes d
    → i < length d
    → y < 256
    → y ≢ get_or d i 0
    → crc16_modbus (l ++ d) ≢ crc16_modbus (l ++ set d i y)
crc16_modbus-set l d i y al ad h hy ne e =
    crc_detects_byte (l ++ take i d) (drop (suc i) d)
      (All-append _ l (take i d) al (take-IsBytes i d ad)) (drop-IsBytes (suc i) d ad)
      (get_or-lt d i ad) hy (λ q. ne (sym q))
      (rw (append_assoc l, append_assoc l, ← split_item d i h, ← split_set d i y h) e)

eqb_ne : (a b : ℕ) → a ≢ b → (a == b) ≡ false
eqb_ne a b h = ground arith

wrong_crc :
    (mode : FrameMode) (d rest : Bytes) (c : ℕ)
    → 0 < length d
    → length d < 2 ^ 16
    → c < 2 ^ 16
    → c ≢ crc16_modbus (put_u16 (length d) ++ d)
    → read_frame_with_mode mode (start_marker ++ put_u16 (length d) ++ (d ++ put_u16 c) ++ rest)
      ≡ err crc_mismatch
wrong_crc mode d rest c p h k ne = rw (read_wire mode d rest c p h k, eqb_ne c _ ne)

-- A checksum field with one byte replaced is another checksum's field.
damaged_field :
    (c k y : ℕ)
    → c < 2 ^ 16
    → k < 2
    → y < 256
    → y ≢ get_or (put_u16 c) k 0
    → (c' : ℕ) × (set (put_u16 c) k y ≡ put_u16 c') × (c' < 2 ^ 16) × (c' ≢ c)
damaged_field c zero y h hk hy ne = (c / 256 * 256 + y, ground arith, omega arith, omega arith)
damaged_field c (suc zero) y h hk hy ne =
    (c % 256 + y * 256, ground arith, omega arith, omega arith)
damaged_field c (suc (suc k)) y h hk hy ne = absurd (omega arith)

get_or-append_right : (d e : Bytes) (i : ℕ) → get_or (d ++ e) (length d + i) 0 ≡ get_or e i 0
get_or-append_right [] e i = let z : 0 + i ≡ i = omega arith in rw z
get_or-append_right (x ∷ d) e i =
    let z : suc (length d) + i ≡ suc (length d + i) = omega arith in
    rw z (get_or-append_right d e i)

get_or-append_left : (d e : Bytes) (i : ℕ) → i < length d → get_or (d ++ e) i 0 ≡ get_or d i 0
get_or-append_left [] e i h = elim h [ ]
get_or-append_left (x ∷ d) e zero h = refl
get_or-append_left (x ∷ d) e (suc i) h = get_or-append_left d e i (omega arith)

module _ (mode : FrameMode) (d rest : Bytes) (y : ℕ) (ad : IsBytes d) (p : 0 < length d)
    (h : length d < 2 ^ 16) (hy : y < 256) where
  abbrev checksum : ℕ
  checksum = crc16_modbus (put_u16 (length d) ++ d)

  checksum-lt : checksum < 2 ^ 16
  checksum-lt =
      crc16_modbus-lt _ (All-append _ (put_u16 (length d)) d (put_u16-IsBytes (length d)) ad)

  damaged_data :
      (i : ℕ)
      → i < length d
      → y ≢ get_or d i 0
      → read_frame_with_mode mode
          (start_marker ++ put_u16 (length d) ++ (set d i y ++ put_u16 checksum) ++ rest)
        ≡ err crc_mismatch
  damaged_data i hi ne = rw (length-set d i y) at (
      wrong_crc mode (set d i y) rest checksum (rw (length-set d i y) p) (rw (length-set d i y) h)
        checksum-lt
        (rw (length-set d i y)
          (crc16_modbus-set (put_u16 (length d)) d i y (put_u16-IsBytes _) ad hi hy ne)))

  damaged_crc :
      (k : ℕ)
      → k < 2
      → y ≢ get_or (put_u16 checksum) k 0
      → read_frame_with_mode mode
          (start_marker ++ put_u16 (length d) ++ (d ++ set (put_u16 checksum) k y) ++ rest)
        ≡ err crc_mismatch
  damaged_crc k hk ne =
      let (c', e, lt, other) = damaged_field checksum k y checksum-lt hk hy ne in
      rw e (wrong_crc mode d rest c' p h lt other)

  -- A byte of the data or of the checksum is replaced: the tail of the wire, after the length.
  damaged_tail :
      (i : ℕ)
      → i < length d + 2
      → y ≢ get_or (d ++ put_u16 checksum) i 0
      → read_frame_with_mode mode
          (start_marker ++ put_u16 (length d) ++ set (d ++ put_u16 checksum) i y ++ rest)
        ≡ err crc_mismatch
  damaged_tail i hi ne = elim (dec_lt i (length d)) [
    | yes q ↦
        rw (set-append_left d (put_u16 checksum) i y q)
          (damaged_data i q (rw (get_or-append_left d (put_u16 checksum) i q) at ne))
    | no q ↦
        let k = i - length d in
        let e : i ≡ length d + k = omega arith in
        rw (e, set-append_right d (put_u16 checksum) k y)
          (damaged_crc k (omega arith) (rw (e, get_or-append_right d (put_u16 checksum) k) at ne))
  ]

-- Whatever byte of the data or checksum of an encoded frame of bytes is replaced by another byte, every reader
-- refuses the frame with a checksum error.
pub read_damaged :
    (mode : FrameMode) (f : Frame) (bytes rest : Bytes) (j y : ℕ)
    → IsFrame f
    → encode_frame f ≡ ok bytes
    → 6 ≤ j
    → j < length bytes
    → y < 256
    → y ≢ get_or bytes j 0
    → read_frame_with_mode mode (set bytes j y ++ rest) ≡ err crc_mismatch
read_damaged mode f bytes rest j y v e lo hi hy ne = at_index (j - 6) (omega arith)
  where
    w : Encoded f bytes
    w = encode_frame-Encoded f bytes e

    d : Bytes
    d = frame_data f

    size :
        length bytes
        ≡ length (start_marker ++ checked_part f ++ put_u16 (crc16_modbus (checked_part f)))
    size = ap length w.wire

    at_index :
        (i : ℕ)
        → j ≡ suc (suc (suc (suc (suc (suc i)))))
        → read_frame_with_mode mode (set bytes j y ++ rest) ≡ err crc_mismatch
    at_index i q =
        rw (w.wire, q)
          (damaged_tail mode d rest y (frame_data-IsBytes f v) (frame_data-ne-nil f) w.fits hy i
            (omega (arith, size, length-append d (put_u16 (crc16_modbus (checked_part f)))))
            (rw (w.wire, q) at ne))
