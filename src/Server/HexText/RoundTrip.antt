-- ===== src/Server/HexText/RoundTrip.antt =====
-- Bytes that are shown as hex text are read back.
use mathlib.Core.List.{reverse, reverse_aux, reverse-reverse}
use tcpadapter.Common.{
  ℕ, ◌+◌, ◌*◌, ◌/◌, ◌%◌, ◌≤◌, ◌<◌, ◌≡◌, refl, ap, ◌∙◌, [], ◌∷◌, ok, false, not, arith, Bytes, All,
  List, byte_at, keep_if,
}
use tcpadapter.Server.HexText.{
  space_at_start, space_at_end, skip_spaces, trim_space, hex_value, decode_hex, decode_hex_string,
  upper_digit, upper_hex, is_gap, is_space1, is_space2, is_space3,
}

-- The characters of the digits and the letters A to F lie in this range, and no space does.
abbrev IsText : ℕ → Type 0
IsText c = (48 ≤ c) × (c ≤ 70)

upper_digit-IsText : (n : ℕ) → n < 16 → IsText (upper_digit n)
upper_digit-IsText n h = ground arith

hex_value-upper_digit : (n : ℕ) → n < 16 → hex_value (upper_digit n) ≡ ok n
hex_value-upper_digit n h = ground arith

upper_hex-IsText : (bs : Bytes) → All (λ b. b < 256) bs → All IsText (upper_hex bs)
unfolding upper_hex
upper_hex-IsText [] h = tt
upper_hex-IsText (b ∷ bs) h = (
  upper_digit-IsText (b / 16) (omega (arith, h.0)),
  (upper_digit-IsText (b % 16) (omega arith), upper_hex-IsText bs h.1),
)

decode_hex-pair :
    (p q a b : ℕ) (s rest : Bytes)
    → hex_value p ≡ ok a
    → hex_value q ≡ ok b
    → decode_hex s ≡ ok rest
    → decode_hex (p ∷ q ∷ s) ≡ ok ((a * 16 + b) ∷ rest)
unfolding decode_hex
decode_hex-pair p q a b s rest hp hq hs = rw (hp, hq, hs) refl

decode_hex-upper_hex : (bs : Bytes) → All (λ b. b < 256) bs → decode_hex (upper_hex bs) ≡ ok bs
unfolding decode_hex upper_hex
decode_hex-upper_hex [] h = refl
decode_hex-upper_hex (b ∷ bs) h =
    decode_hex-pair (upper_digit (b / 16)) (upper_digit (b % 16)) (b / 16) (b % 16) (upper_hex bs)
      bs (hex_value-upper_digit (b / 16) (omega (arith, h.0)))
      (hex_value-upper_digit (b % 16) (omega arith)) (decode_hex-upper_hex bs h.1)
    ∙ ap (λ x. ok (x ∷ bs)) (omega arith)

no_space_at_start : (c : ℕ) (s : Bytes) → IsText c → space_at_start (c ∷ s) ≡ 0
no_space_at_start c s h =
    let first : is_space1 c ≡ false = ground arith in
    let second : is_space2 c (byte_at s 0) ≡ false = ground arith in
    let third : is_space3 c (byte_at s 0) (byte_at s 1) ≡ false = ground arith in
    rw (space_at_start, first, second, third) refl

no_space_at_end : (c : ℕ) (s : Bytes) → IsText c → space_at_end (c ∷ s) ≡ 0
no_space_at_end c s h =
    let first : is_space1 c ≡ false = ground arith in
    let second : is_space2 (byte_at s 0) c ≡ false = ground arith in
    let third : is_space3 (byte_at s 1) (byte_at s 0) c ≡ false = ground arith in
    rw (space_at_end, first, second, third) refl

skip_spaces-none :
    (width : Bytes → ℕ) (s : Bytes)
    → ((c : ℕ) (rest : Bytes) → IsText c → width (c ∷ rest) ≡ 0)
    → All IsText s
    → skip_spaces width 0 s ≡ s
unfolding skip_spaces
skip_spaces-none width [] no_space h = refl
skip_spaces-none width (c ∷ s) no_space h = rw (skip_spaces, no_space c s h.0) refl

All-reverse_aux {ℓ κ} :
    {A : Type ℓ} (P : A → Type κ) (s t : List A) → All P s → All P t → All P (reverse_aux s t)
All-reverse_aux P [] t hs ht = ht
All-reverse_aux P (c ∷ s) t hs ht = All-reverse_aux P s (c ∷ t) hs.1 (hs.0, ht)

trim_space-none : (s : Bytes) → All IsText s → trim_space s ≡ s
unfolding trim_space
trim_space-none s h =
    rw
      (
        skip_spaces-none space_at_start s no_space_at_start h,
        skip_spaces-none space_at_end (reverse s) no_space_at_end
            (All-reverse_aux IsText s [] h tt),
      )
      (reverse-reverse s)

keep_if-all : (s : Bytes) → All IsText s → keep_if (λ c. not (is_gap c)) s ≡ s
keep_if-all [] h = refl
keep_if-all (c ∷ s) h =
    let kept : is_gap c ≡ false = ground (arith, h.0) in
    rw kept (ap (λ s. c ∷ s) (keep_if-all s h.1))

-- A payload of bytes that is shown as hex text is the payload that the text is read as.
pub decode_hex_string-upper_hex :
    (bs : Bytes) → All (λ b. b < 256) bs → decode_hex_string (upper_hex bs) ≡ ok bs
unfolding decode_hex_string
decode_hex_string-upper_hex bs h =
    rw
      (
        trim_space-none (upper_hex bs) (upper_hex-IsText bs h),
        keep_if-all (upper_hex bs) (upper_hex-IsText bs h),
      )
      (decode_hex-upper_hex bs h)
