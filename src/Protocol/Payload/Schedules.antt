-- ===== src/Protocol/Payload/Schedules.antt =====
-- What an accepted schedule record of command 14 holds.
use tcpadapter.Common.{
  ◌≤◌, ◌≡◌, ◌↔◌, refl, ◌||◌, All, All-imp, ok, err, ◌>>◌, arith, ltb, leb, Bytes, byte_at, slice,
}
use tcpadapter.Protocol.Payload.Faults.{
  Checked, is_bool_byte, flag_not_bool, scene_out_of_range, guarded, guarded_last,
}
use tcpadapter.Protocol.Payload.Records.{check_each-All}
use tcpadapter.Protocol.Payload.Tables.{check_cmd14_record}

-- The ranges of the fields.
pub record IsSchedule (rec : Bytes) : Type 0 where
  pub slot_from : 1 ≤ byte_at rec 0
  pub slot_to : byte_at rec 0 ≤ 64
  pub start_hour : byte_at rec 1 ≤ 23
  pub start_minute : byte_at rec 2 ≤ 59
  pub end_hour : byte_at rec 3 ≤ 23
  pub end_minute : byte_at rec 4 ≤ 59
  pub flags : All (λ b. b ≤ 1) (slice 5 13 rec)
  pub scenes : All (λ b. b ≤ 64) (slice 13 21 rec)
  pub holiday_logic : byte_at rec 21 ≤ 3

pub chained : (r s : Checked) → (r >> s ≡ ok tt) ↔ ((r ≡ ok tt) × (s ≡ ok tt))
chained (ok tt) s = (λ h. (refl, h), λ h. h.1)
chained (err x) s = (λ h. cc, λ h. cc)

-- A record of command 14 is accepted exactly if all its fields are in their ranges.
pub check_cmd14_record-IsSchedule :
    (rec : Bytes) → (check_cmd14_record rec ≡ ok tt) ↔ IsSchedule rec
unfolding check_cmd14_record
check_cmd14_record-IsSchedule rec =
    let (flags, unflags) =
      check_each-All (λ i b. flag_not_bool i) is_bool_byte 0 (slice 5 13 rec) in
    let (scenes, unscenes) =
      check_each-All scene_out_of_range (λ b. leb b 64) 0 (slice 13 21 rec) in
    (
      λ h.
          let (a, h1) = (guarded (ltb (byte_at rec 0) 1 || ltb 64 (byte_at rec 0)) _ _).0 h in
          let (b, h2) = (guarded (ltb 23 (byte_at rec 1) || ltb 23 (byte_at rec 3)) _ _).0 h1 in
          let (c, h3) = (guarded (ltb 59 (byte_at rec 2) || ltb 59 (byte_at rec 4)) _ _).0 h2 in
          let (f, h4) = (chained _ _).0 h3 in
          let (s, h5) = (chained _ _).0 h4 in
          let e = (guarded_last (ltb 3 (byte_at rec 21)) _).0 h5 in
          record {
            slot_from = ground arith;
            slot_to = ground arith;
            start_hour = ground arith;
            start_minute = ground arith;
            end_hour = ground arith;
            end_minute = ground arith;
            flags = All-imp (λ x k. ground arith) (slice 5 13 rec) (flags f);
            scenes = All-imp (λ x k. ground arith) (slice 13 21 rec) (scenes s);
            holiday_logic = ground arith;
          },
      λ v. (guarded (ltb (byte_at rec 0) 1 || ltb 64 (byte_at rec 0)) _ _).1 (
        ground (arith, v.slot_from, v.slot_to),
        (guarded (ltb 23 (byte_at rec 1) || ltb 23 (byte_at rec 3)) _ _).1 (
          ground (arith, v.start_hour, v.end_hour),
          (guarded (ltb 59 (byte_at rec 2) || ltb 59 (byte_at rec 4)) _ _).1 (
            ground (arith, v.start_minute, v.end_minute),
            (chained _ _).1 (
              unflags (All-imp (λ x k. ground arith) (slice 5 13 rec) v.flags),
              (chained _ _).1 (
                unscenes (All-imp (λ x k. ground arith) (slice 13 21 rec) v.scenes),
                (guarded_last (ltb 3 (byte_at rec 21)) _).1 (ground (arith, v.holiday_logic)),
              ),
            ),
          ),
        ),
      ),
    )
