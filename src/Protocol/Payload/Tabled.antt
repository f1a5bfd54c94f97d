-- ===== src/Protocol/Payload/Tabled.antt =====
-- What the accepted payloads of the commands 13 to 16 hold: the validation of the server's commands, for the tables.
use tcpadapter.Common.{ℕ, ◌+◌, ◌*◌, ◌≤◌, ◌≡◌, ◌∷◌, All, length, drop, Bytes, byte_at, slice, u16}
use tcpadapter.Protocol.Payload.Records.{records}

-- A table of at most `most` records of `size` bytes that all have the property.
pub record Tabled {ℓ} (most size : ℕ) (P : Bytes → Type ℓ) (payload : Bytes) : Type ℓ where
  pub headed : 5 ≤ length payload
  pub some_records : 1 ≤ byte_at payload 4
  pub not_too_many : byte_at payload 4 ≤ most
  pub exact : length payload ≡ 5 + byte_at payload 4 * size
  pub all : All P (records (byte_at payload 4) size (drop 5 payload))

-- The ranges of the fields of a group.
pub record IsGroup (rec : Bytes) : Type 0 where
  pub slot_from : 1 ≤ byte_at rec 0
  pub slot_to : byte_at rec 0 ≤ 64
  pub schedule : byte_at rec 1 ≤ 64
  pub permissions : All (λ b. b ≤ 1) (slice 2 10 rec)

-- Text of ASCII characters and then zeros only.
pub data IsPadded : Bytes → Type 0 where
  padding : {field : Bytes} → All (λ b. b ≡ 0) field → IsPadded field
  character : {b : ℕ} {field : Bytes} → 1 ≤ b → b ≤ 127 → IsPadded field → IsPadded (b ∷ field)

-- The ranges of the fields of an identifier.
pub record IsId (rec : Bytes) : Type 0 where
  pub slot_from : 1 ≤ u16 (slice 0 2 rec)
  pub slot_to : u16 (slice 0 2 rec) ≤ 50000
  pub id : IsPadded (slice 2 12 rec)
  pub group : byte_at rec 12 ≤ 64
  pub id_type : byte_at rec 19 ≤ 7
