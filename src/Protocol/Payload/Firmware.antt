-- ===== src/Protocol/Payload/Firmware.antt =====
-- The block count of a firmware file, and what an accepted `fw_start` says.
use tcpadapter.Common.{
  ℕ, ◌+◌, ◌-◌, ◌*◌, ◌^◌, ◌≤◌, ◌<◌, ◌≡◌, ◌≢◌, ◌⊎◌, not, ok, arith, length, ◌==◌, Bytes, slice, u16,
  u32,
}
use tcpadapter.Protocol.Payload.Fixed.{
  fw_block_count_for_size, fw_file_size, fw_blocks, validate_cmd19,
}
use tcpadapter.Protocol.Payload.Faults.{guarded, guarded_last}

-- Up to 65535 blocks of 1024 bytes, the count is the least number of blocks that hold the file.
fw_block_count_for_size-least :
    (size : ℕ)
    → 0 < size
    → size ≤ 65535 * 1024
    → (size ≤ fw_block_count_for_size size * 1024)
      × (fw_block_count_for_size size * 1024 < size + 1024)
unfolding fw_block_count_for_size
fw_block_count_for_size-least size h k = ground arith

-- The sum in uint32 wraps for the last 1023 sizes: their count is 0, and no longer 65535.
pub fw_block_count_for_size-wraps :
    (size : ℕ) → 2 ^ 32 - 1023 ≤ size → size < 2 ^ 32 → fw_block_count_for_size size ≡ 0
unfolding fw_block_count_for_size
fw_block_count_for_size-wraps size h k = ground arith

-- The start of a firmware update, with a block count that fits the file.
pub record StartsFirmware (payload : Bytes) : Type 0 where
  pub size16 : length payload ≡ 16
  pub numbered : u16 (slice 0 2 payload) ≢ 0
  pub summed : u32 (slice 10 14 payload) ≢ 0
  pub not_empty : fw_file_size payload ≢ 0
  pub least : fw_blocks payload * 1024 < fw_file_size payload + 1024
  pub enough : (fw_file_size payload ≤ fw_blocks payload * 1024) ⊎ (fw_blocks payload ≡ 65535)

count_of :
    (size : ℕ)
    → fw_block_count_for_size size ≢ 0
    → size < 2 ^ 32
    → (fw_block_count_for_size size * 1024 < size + 1024)
      × ((size ≤ fw_block_count_for_size size * 1024) ⊎ (fw_block_count_for_size size ≡ 65535))
unfolding fw_block_count_for_size
count_of size h k = ground arith

-- A payload that is accepted for `fw_start` names a firmware, a checksum and a file that is not
-- empty; its block count is not more than the file needs, and it holds the file or is 65535.
pub validate_cmd19-StartsFirmware :
    (payload : Bytes)
    → fw_file_size payload < 2 ^ 32
    → validate_cmd19 payload ≡ ok tt
    → StartsFirmware payload
unfolding validate_cmd19
validate_cmd19-StartsFirmware payload b h =
    let (a, h1) = (guarded (not (length payload == 16)) _ _).0 h in
    let (n, h2) = (guarded (u16 (slice 0 2 payload) == 0) _ _).0 h1 in
    let (z, h3) = (guarded (fw_file_size payload == 0) _ _).0 h2 in
    let (c, h4) = (guarded (u32 (slice 10 14 payload) == 0) _ _).0 h3 in
    let (k, h5) = (guarded (fw_blocks payload == 0) _ _).0 h4 in
    let m =
      (guarded_last (not (fw_blocks payload == fw_block_count_for_size (fw_file_size payload))) _).0
        h5 in
    let e : fw_blocks payload ≡ fw_block_count_for_size (fw_file_size payload) = ground arith in
    let p = count_of (fw_file_size payload) (ground arith) b in
    record {
      size16 = ground arith;
      numbered = ground arith;
      summed = ground arith;
      not_empty = ground arith;
      least = rw e p.0;
      enough = rw e p.1;
    }
