-- ===== src/Protocol/Frame/Canonical.antt =====
-- The reader accepts only what the encoder writes.
use mathlib.Core.Path.{ap₂}
use tcpadapter.Common.Items.{put_u16-u16, drop-IsBytes, append-IsBytes_left}
use tcpadapter.Common.{
  ℕ, zero, suc, ◌+◌, ◌^◌, ◌<◌, ◌≡◌, ◌≢◌, refl, ap, sym, ◌∙◌, ◌⊎◌, inl, inr, [], ◌∷◌, ◌++◌, some,
  length, length-take, length-drop, take-append-drop, take, drop, Option-cases, Bool-cases, ok,
  arith, not, ◌||◌, ltb, fail_if, ◌>>=◌, ◌>>◌, ◌==◌, Bytes, IsBytes, u16, put_u16,
}
use tcpadapter.Crc.{crc16_modbus}
use tcpadapter.Protocol.Frame.{
  FrameMode, auto, sequenced, compact, Frame, start_marker, invalid_marker, frame_too_short,
  frame_data, checked_part, encode_frame, compact_frame, sequenced_frame, split_at?, read_full,
  choose_by_command, read_auto_frame, decode_data, decode_checked, read_frame_with_mode,
}

-- What was split off, and that the two parts make up the list.
record Split (n : ℕ) (s x r : Bytes) : Type 0 where
  whole : s ≡ x ++ r
  size : length x ≡ n

split_at?-Split : (n : ℕ) (s x r : Bytes) → split_at? n s ≡ some (x, r) → Split n s x r
unfolding split_at?
split_at?-Split zero s x r e = ground arith
split_at?-Split (suc n) [] x r e = cc
split_at?-Split (suc n) (b ∷ s) x r e = elim (Option-cases (split_at? n s)) [
  | inl q ↦ absurd (cc (rw (q, split_at?) at e))
  | inr ((x', r'), q) ↦ let h = split_at?-Split n s x' r' q in ground (arith, h.whole, h.size)
]

-- A frame that `decode_data` returns has these data bytes, a mode, and a payload.
pub record Decoded (d : Bytes) (f : Frame) : Type 0 where
  pub same_data : frame_data f ≡ d
  pub not_auto : f.mode ≢ auto
  pub has_payload : 0 < length f.payload

choice : (c s : Frame) → (choose_by_command c s ≡ c) ⊎ (choose_by_command c s ≡ s)
unfolding choose_by_command
choice c s = ground arith

decode_auto-Decoded : (d : Bytes) (f : Frame) → read_auto_frame d ≡ ok f → Decoded d f
unfolding read_auto_frame frame_data
decode_auto-Decoded [] f e = ground arith
decode_auto-Decoded (a ∷ []) f e = ground arith
decode_auto-Decoded (a ∷ b ∷ []) f e = ground arith
decode_auto-Decoded (a ∷ b ∷ c ∷ d) f e =
    ground (arith, choice (compact_frame (a ∷ b ∷ c ∷ d)) (sequenced_frame (a ∷ b ∷ c ∷ d)))

pub decode_data-Decoded :
    (m : FrameMode) (d : Bytes) (f : Frame) → decode_data m d ≡ ok f → Decoded d f
unfolding decode_data frame_data
decode_data-Decoded auto d f e = decode_auto-Decoded d f e
decode_data-Decoded sequenced [] f e = cc
decode_data-Decoded sequenced (a ∷ []) f e = cc
decode_data-Decoded sequenced (a ∷ b ∷ []) f e = cc
decode_data-Decoded sequenced (a ∷ b ∷ c ∷ d) f e = ground arith
decode_data-Decoded compact [] f e = cc
decode_data-Decoded compact (a ∷ []) f e = cc
decode_data-Decoded compact (a ∷ b ∷ d) f e = ground arith

-- What the checks on the bytes behind the length field established.
record Checked (l dc : Bytes) (f : Frame) : Type 0 where
  sum : u16 (drop (u16 l) dc) ≡ crc16_modbus (l ++ take (u16 l) dc)
  decoded : Decoded (take (u16 l) dc) f

decode_checked-Checked :
    (m : FrameMode) (l dc : Bytes) (f : Frame) → decode_checked m l dc ≡ ok f → Checked l dc f
unfolding decode_checked
decode_checked-Checked m l dc f e =
    elim (Bool-cases (u16 (drop (u16 l) dc) == crc16_modbus (l ++ take (u16 l) dc))) [
      | inl q ↦ record {
        sum = ground arith;
        decoded = decode_data-Decoded m (take (u16 l) dc) f (rw q at e);
      }
      | inr q ↦ cc (rw q at e)
    ]

-- What the reader took off its input.
record Parts (lo hi : ℕ) (s' : Bytes) (f : Frame) (rest : Bytes) : Type 0 where
  dc : Bytes
  nonempty : 0 < u16 (lo ∷ hi ∷ [])
  taken : Split (u16 (lo ∷ hi ∷ []) + 2) s' dc rest
  checked : Checked (lo ∷ hi ∷ []) dc f

module _ (m : FrameMode) (h0 h1 h2 h3 lo hi : ℕ) (s' : Bytes) where
  abbrev len_field : Bytes
  len_field = lo ∷ hi ∷ []

  read_any_header : read_frame_with_mode m (h0 ∷ h1 ∷ h2 ∷ h3 ∷ lo ∷ hi ∷ s') ≡ (
      fail_if
        (not (h0 == b'S') || not (h1 == b'L') || not (h2 == b'D') || not (h3 == b'N'))
        invalid_marker
      >> (fail_if (ltb (u16 len_field) 1) frame_too_short
          >> (read_full (u16 len_field + 2) s' >>= λ p.
              decode_checked m len_field p.0 >>= λ frame. ok (frame, p.1))))
  unfolding read_frame_with_mode
  read_any_header = refl

  module _ (f : Frame) (rest : Bytes)
      (e : read_frame_with_mode m (h0 ∷ h1 ∷ h2 ∷ h3 ∷ lo ∷ hi ∷ s') ≡ ok (f, rest)) where
    read_marker : h0 ∷ h1 ∷ h2 ∷ h3 ∷ [] ≡ start_marker
    read_marker = ground (arith, read_any_header)

    read_nonempty : 0 < u16 len_field
    read_nonempty = ground (arith, read_any_header)

    read_taken :
        (p : Bytes × Bytes) × (split_at? (u16 len_field + 2) s' ≡ some p)
        × (decode_checked m len_field p.0 ≡ ok f)
        × (p.1 ≡ rest)
    unfolding read_full
    read_taken = ground (arith, read_any_header)

    read-Parts : Parts lo hi s' f rest
    read-Parts =
        let ((dc, r), taken, checked, same) = read_taken in
        record {
          dc = dc;
          nonempty = read_nonempty;
          taken = split_at?-Split (u16 len_field + 2) s' dc rest (rw (← same) taken);
          checked = decode_checked-Checked m len_field dc f checked;
        }

encode_frame_fits :
    (f : Frame)
    → 0 < length f.payload
    → length (frame_data f) < 2 ^ 16
    → encode_frame f
      ≡ ok (start_marker ++ checked_part f ++ put_u16 (crc16_modbus (checked_part f)))
unfolding encode_frame
encode_frame_fits f p h = ground arith

module _ (lo hi : ℕ) (s' rest : Bytes) (f : Frame) (hlo : lo < 256) (hhi : hi < 256)
    (a : IsBytes s') (p : Parts lo hi s' f rest) where
  abbrev field : Bytes
  field = lo ∷ hi ∷ []

  abbrev data_part : Bytes
  data_part = take (u16 field) p.dc

  size : length (frame_data f) ≡ u16 field
  size =
      omega
        (arith, ap length p.checked.decoded.same_data, length-take (u16 field) p.dc, p.taken.size)

  checked_part-eq : checked_part f ≡ field ++ data_part
  checked_part-eq =
      let same_field : put_u16 (length (frame_data f)) ≡ field =
        rw size (put_u16-u16 field refl (hlo, (hhi, tt))) in
      ap₂ (λ (x y : Bytes). x ++ y) same_field p.checked.decoded.same_data

  sum_bytes : put_u16 (crc16_modbus (field ++ data_part)) ≡ drop (u16 field) p.dc
  sum_bytes = rw (← p.checked.sum) (
      put_u16-u16 (drop (u16 field) p.dc)
        (omega (arith, length-drop (u16 field) p.dc, p.taken.size))
        (drop-IsBytes (u16 field) p.dc (append-IsBytes_left p.dc rest (rw p.taken.whole at a))))

  -- The pieces of the input, put together again, are what the encoder writes.
  encode-parts :
      (bytes : Bytes) × (encode_frame f ≡ ok bytes)
      × (start_marker ++ (field ++ s') ≡ bytes ++ rest)
  encode-parts = (
    start_marker ++ checked_part f ++ put_u16 (crc16_modbus (checked_part f)),
    encode_frame_fits f p.checked.decoded.has_payload (omega (arith, size)),
    rw (sum_bytes, p.taken.whole, take-append-drop (u16 field) p.dc) refl
        ∙ ap (λ c. start_marker ++ c ++ put_u16 (crc16_modbus c) ++ rest) (sym checked_part-eq),
  )

-- Whatever a reader accepts, in any mode, is a frame that `EncodeFrame` writes with the very bytes
-- that were taken off the reader.
pub encode-read :
    (m : FrameMode) (s rest : Bytes) (f : Frame)
    → IsBytes s
    → read_frame_with_mode m s ≡ ok (f, rest)
    → (bytes : Bytes) × (encode_frame f ≡ ok bytes) × (s ≡ bytes ++ rest)
unfolding read_frame_with_mode
encode-read m [] rest f a e = cc
encode-read m (h0 ∷ []) rest f a e = cc
encode-read m (h0 ∷ h1 ∷ []) rest f a e = cc
encode-read m (h0 ∷ h1 ∷ h2 ∷ []) rest f a e = cc
encode-read m (h0 ∷ h1 ∷ h2 ∷ h3 ∷ []) rest f a e = cc
encode-read m (h0 ∷ h1 ∷ h2 ∷ h3 ∷ lo ∷ []) rest f a e = cc
encode-read m (h0 ∷ h1 ∷ h2 ∷ h3 ∷ lo ∷ hi ∷ s) rest f a e =
    let marker = read_marker m h0 h1 h2 h3 lo hi s f rest e in
    let (bytes, enc, whole) =
      encode-parts lo hi s rest f a.1.1.1.1.0 a.1.1.1.1.1.0 a.1.1.1.1.1.1
        (read-Parts m h0 h1 h2 h3 lo hi s f rest e) in
    (bytes, enc, ap (λ t. t ++ (lo ∷ hi ∷ s)) marker ∙ whole)
