-- ===== src/Protocol/Builders/Schedules.antt =====
-- The tables of schedules and of groups that are built.
use tcpadapter.Common.{
  ℕ, ◌≤◌, ◌≡◌, refl, ◌∙◌, wrap_err, ◌↔◌, List, ◌∷◌, ◌++◌, map, All, ok, arith, length, Bytes,
  put_u32, wrap_err-eq-ok, >>=-eq-ok, length-append,
}
use tcpadapter.Common.Dict.{lookup}
use tcpadapter.Protocol.Payload.Validate.{validate_server_command_payload}
use tcpadapter.Protocol.Payload.Tables.{check_cmd14_record, validate_cmd14, validate_table}
use tcpadapter.Protocol.Payload.Schedules.{IsSchedule, check_cmd14_record-IsSchedule}
use tcpadapter.Protocol.Builders.Fields.{records_out_of_range, invalid}
use tcpadapter.Protocol.Builders.Records.{
  Cmd14ScheduleRecord, cmd14_record_bytes, build_cmd14_record, one_record,
}
use tcpadapter.Protocol.Builders.Sync.{build_cmd14_structured}
use tcpadapter.Protocol.Builders.Tables.{
  joined, byte_after, build_table-Builds, validate-one_record, take-all, drop-all,
}

-- The arrays have the lengths that Go gives them.
pub record Cmd14HasArrays (r : Cmd14ScheduleRecord) : Type 0 where
  pub flags : length r.flags ≡ 8
  pub scenes : length r.scenes ≡ 8
  pub reserve : length r.reserve ≡ 10

-- The ranges of the fields.
pub record InRange (r : Cmd14ScheduleRecord) : Type 0 where
  pub slot_from : 1 ≤ r.slot
  pub slot_to : r.slot ≤ 64
  pub start_hour : r.start_hour ≤ 23
  pub start_minute : r.start_minute ≤ 59
  pub end_hour : r.end_hour ≤ 23
  pub end_minute : r.end_minute ≤ 59
  pub flags : All (λ b. b ≤ 1) r.flags
  pub scenes : All (λ b. b ≤ 64) r.scenes
  pub holiday_logic : r.holiday_logic ≤ 3

InRange-IsSchedule :
    (r : Cmd14ScheduleRecord) → Cmd14HasArrays r → IsSchedule (cmd14_record_bytes r) ↔ InRange r
InRange-IsSchedule r a =
    let flags = take-all 8 r.flags (r.scenes ++ r.holiday_logic ∷ r.reserve) a.flags in
    let scenes_on = drop-all 8 r.flags (r.scenes ++ r.holiday_logic ∷ r.reserve) a.flags in
    let scenes = take-all 8 r.scenes (r.holiday_logic ∷ r.reserve) a.scenes in
    let holiday =
      byte_after 8 8 r.flags (r.scenes ++ r.holiday_logic ∷ r.reserve) a.flags
      ∙ byte_after 8 0 r.scenes (r.holiday_logic ∷ r.reserve) a.scenes in
    (
      λ v. record {
        slot_from = v.slot_from;
        slot_to = v.slot_to;
        start_hour = v.start_hour;
        start_minute = v.start_minute;
        end_hour = v.end_hour;
        end_minute = v.end_minute;
        flags = rw flags at v.flags;
        scenes = rw (scenes_on, scenes) at v.scenes;
        holiday_logic = rw holiday at v.holiday_logic;
      },
      λ v. record {
        slot_from = v.slot_from;
        slot_to = v.slot_to;
        start_hour = v.start_hour;
        start_minute = v.start_minute;
        end_hour = v.end_hour;
        end_minute = v.end_minute;
        flags = rw flags v.flags;
        scenes = rw (scenes_on, scenes) v.scenes;
        holiday_logic = rw holiday v.holiday_logic;
      },
    )

length-cmd14_record :
    (r : Cmd14ScheduleRecord) → Cmd14HasArrays r → length (cmd14_record_bytes r) ≡ 32
length-cmd14_record r a = omega (
  arith,
  length-append r.flags (r.scenes ++ r.holiday_logic ∷ r.reserve),
  length-append r.scenes (r.holiday_logic ∷ r.reserve),
  a.flags,
  a.scenes,
  a.reserve,
)

-- A record builder that wraps the record into a table of its own and validates that.
wrapped_record :
    (r : Cmd14ScheduleRecord) (b : Bytes)
    → Cmd14HasArrays r
    → (build_cmd14_record r ≡ ok b) ↔ (InRange r × (b ≡ cmd14_record_bytes r))
unfolding build_cmd14_record validate_server_command_payload lookup validate_cmd14
wrapped_record r b a =
    let rec = cmd14_record_bytes r in
    let (to, from) =
      validate-one_record 64 32 check_cmd14_record rec (omega arith) (length-cmd14_record r a) in
    let (is, si) = check_cmd14_record-IsSchedule rec in
    let (in_range, out_range) = InRange-IsSchedule r a in
    (
      λ e.
          let (done, ev, e1) =
            >>=-eq-ok (wrap_err invalid (validate_table 64 32 check_cmd14_record (one_record rec)))
              _ e in
          (in_range (is (to ((wrap_err-eq-ok invalid _).0 ev))), cc),
      λ (g, eq). let passes = from (si (out_range g)) in rw (passes, eq) refl,
    )

-- Command 14 is built from records, whose arrays have their Go lengths, exactly if there are from one to 64 of them with all
-- fields in their ranges, and then the payload is the time, the count, and the bytes of each record
-- in order: the validation of the whole never refuses what the records' own checks passed.
pub build_cmd14-Builds :
    (timestamp : ℕ) (rs : List Cmd14ScheduleRecord) (payload : Bytes)
    → All Cmd14HasArrays rs
    → (build_cmd14_structured timestamp rs ≡ ok payload) ↔ (
        (1 ≤ length rs)
        × (length rs ≤ 64)
        × All InRange rs
        × (payload ≡ put_u32 timestamp ++ length rs ∷ joined (map cmd14_record_bytes rs)))
unfolding build_cmd14_structured validate_server_command_payload lookup validate_cmd14
build_cmd14-Builds timestamp rs payload h =
    build_table-Builds 32 64 build_cmd14_record cmd14_record_bytes InRange Cmd14HasArrays
      wrapped_record records_out_of_range check_cmd14_record (omega arith)
      (λ r a g. (
        length-cmd14_record r a,
        (check_cmd14_record-IsSchedule (cmd14_record_bytes r)).1 ((InRange-IsSchedule r a).1 g),
      ))
      timestamp rs payload h
