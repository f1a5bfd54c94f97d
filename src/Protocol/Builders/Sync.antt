-- ===== src/Protocol/Builders/Sync.antt =====
-- The builders of the commands that carry a table.
use tcpadapter.Common.{
  ℕ, suc, ◌%◌, not, ◌||◌, List, [], ◌∷◌, ◌++◌, length, ok, ◌>>=◌, ◌>>◌, fail_if, wrap_err, ltb,
  ◌==◌, Bytes, put_u32,
}
use tcpadapter.Protocol.Payload.Faults.{Checked}
use tcpadapter.Protocol.Payload.Validate.{validate_server_command_payload}
use tcpadapter.Protocol.Builders.Fields.{
  BuildError, Built, validated, records_out_of_range, days_out_of_range, record_size, at_record,
}
use tcpadapter.Protocol.Builders.Records.{
  Cmd13IdRecord, Cmd14ScheduleRecord, Cmd15GroupRecord, build_cmd13_record, build_cmd14_record,
  build_cmd15_record,
}

-- `for i, rec := range p.Records`, with an early return at the first record that cannot be built; `i`
-- is the number of the first record.
unfoldable pub build_each {ℓ} : {A : Type ℓ} → (A → Built) → ℕ → List A → Built
build_each build i [] = ok []
build_each build i (r ∷ rs) = do
  b ← wrap_err (at_record i) (build r)
  rest ← build_each build (suc i) rs
  ok (b ++ rest)

-- The payload: the time, the count as one byte, and the records.
abbrev pub table_bytes : ℕ → ℕ → Bytes → Bytes
table_bytes timestamp count body = put_u32 timestamp ++ count % 256 ∷ body

-- What the table builders share.
unfoldable pub build_table {ℓ} :
    {A : Type ℓ} → (ℕ → BuildError) → ℕ → (A → Built) → (Bytes → Checked) → ℕ → List A → Built
unfolding build_each
build_table out_of_range most build check timestamp rs = do
  fail_if (ltb (length rs) 1 || ltb most (length rs)) (out_of_range (length rs))
  body ← build_each build 0 rs
  validated check (table_bytes timestamp (length rs) body)

-- A raw record, which has to have its size.
abbrev pub raw_record : ℕ → Bytes → Built
raw_record size rec = fail_if (not (length rec == size)) (record_size size) >> ok rec

-- `Cmd13SyncIDPayload`
unfoldable pub build_cmd13 : ℕ → List Bytes → Built
unfolding build_table validate_server_command_payload
build_cmd13 =
    build_table records_out_of_range 250 (raw_record 32) (validate_server_command_payload 13)

-- `Cmd13SyncIDStructuredPayload`
unfoldable pub build_cmd13_structured : ℕ → List Cmd13IdRecord → Built
unfolding build_table build_cmd13_record validate_server_command_payload
build_cmd13_structured =
    build_table records_out_of_range 250 build_cmd13_record (validate_server_command_payload 13)

-- `Cmd14SyncSchedulePayload`
unfoldable pub build_cmd14 : ℕ → List Bytes → Built
unfolding build_table validate_server_command_payload
build_cmd14 =
    build_table records_out_of_range 64 (raw_record 32) (validate_server_command_payload 14)

-- `Cmd14SyncScheduleStructuredPayload`
unfoldable pub build_cmd14_structured : ℕ → List Cmd14ScheduleRecord → Built
unfolding build_table build_cmd14_record validate_server_command_payload
build_cmd14_structured =
    build_table records_out_of_range 64 build_cmd14_record (validate_server_command_payload 14)

-- `Cmd15SyncGroupPayload`
unfoldable pub build_cmd15 : ℕ → List Bytes → Built
unfolding build_table validate_server_command_payload
build_cmd15 =
    build_table records_out_of_range 64 (raw_record 16) (validate_server_command_payload 15)

-- `Cmd15SyncGroupStructuredPayload`
unfoldable pub build_cmd15_structured : ℕ → List Cmd15GroupRecord → Built
unfolding build_table build_cmd15_record validate_server_command_payload
build_cmd15_structured =
    build_table records_out_of_range 64 build_cmd15_record (validate_server_command_payload 15)

-- `Cmd16SyncHolidayPayload`
unfoldable pub build_cmd16 : ℕ → List ℕ → Built
unfolding build_table validate_server_command_payload
build_cmd16 =
    build_table days_out_of_range 255 (λ day. ok (put_u32 day)) (validate_server_command_payload 16)
