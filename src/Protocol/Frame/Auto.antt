-- ===== src/Protocol/Frame/Auto.antt =====
-- How the first frame of a connection is told apart: the reader does not know yet whether the
-- controller sends sequence numbers.
use tcpadapter.Common.{
  ℕ, zero, suc, ◌≤◌, ◌≡◌, ◌≢◌, refl, ap, ◌∙◌, [], ◌∷◌, ◌++◌, length, take, ok, is_ok, arith, false,
  ◌==◌, if◌then◌else◌, Bytes, byte_at,
}
use tcpadapter.Protocol.Messages.Registration.{
  Registration, trimmed_end, is_digits_only, parse_registration_payload,
}
use tcpadapter.Protocol.Frame.{
  auto, compact, Frame, frame_data, encode_frame, read_auto_frame, decode_data,
  read_frame_with_mode,
}
use tcpadapter.Protocol.Frame.RoundTrip.{IsFrame, read-encode, and_rest}

-- A first byte other than 0 is never trimmed away.
trim_keeps : (t : Bytes) (n : ℕ) → (k : ℕ) × (trimmed_end (1 ∷ t) (suc n) ≡ suc k)
unfolding trimmed_end
trim_keeps t zero = (0, refl)
trim_keeps t (suc n) =
    let (k, e) = trim_keeps t n in ((if byte_at t n == 0 then k else suc n), ground (arith, e))

-- Behind a byte more, a registration is none: its command id would stand where the IMEI begins.
not_shifted : (q : ℕ) (t : Bytes) → is_ok (parse_registration_payload (q ∷ 1 ∷ t)) ≡ false
unfolding parse_registration_payload is_digits_only
not_shifted q t = let (k, e) = trim_keeps (take 14 t) (length (take 14 t)) in rw e (ground arith)

starts_with_one :
    (p : Bytes) (reg : Registration)
    → parse_registration_payload p ≡ ok reg
    → (18 ≤ length p) × (byte_at p 0 ≡ 1)
unfolding parse_registration_payload
starts_with_one p reg e = ground arith

not_registration :
    (q : ℕ) (p : Bytes) (reg : Registration)
    → parse_registration_payload p ≡ ok reg
    → is_ok (parse_registration_payload (q ∷ p)) ≡ false
not_registration q [] reg e = let h = starts_with_one [] reg e in absurd (omega (arith, h.0))
not_registration q (b ∷ t) reg e = rw ((starts_with_one (b ∷ t) reg e).1) (not_shifted q t)

decode_registration :
    (f : Frame) (reg : Registration)
    → f.mode ≢ auto
    → (f.mode ≡ compact → f.seq ≡ 0)
    → parse_registration_payload f.payload ≡ ok reg
    → decode_data auto (frame_data f) ≡ ok f
unfolding decode_data read_auto_frame frame_data
decode_registration f reg not_auto no_seq e =
    ground (arith, starts_with_one f.payload reg e, not_registration f.seq f.payload reg e)

-- A registration is recognised whichever way its frame is laid out: the reader that tells the two
-- layouts apart returns the very frame that was encoded, in its mode, and takes its bytes.
pub read_registration :
    (f : Frame) (reg : Registration) (bytes rest : Bytes)
    → IsFrame f
    → f.mode ≢ auto
    → (f.mode ≡ compact → f.seq ≡ 0)
    → parse_registration_payload f.payload ≡ ok reg
    → encode_frame f ≡ ok bytes
    → read_frame_with_mode auto (bytes ++ rest) ≡ ok (f, rest)
read_registration f reg bytes rest v not_auto no_seq e enc =
    read-encode auto f bytes rest v enc
    ∙ ap (and_rest rest) (decode_registration f reg not_auto no_seq e)
