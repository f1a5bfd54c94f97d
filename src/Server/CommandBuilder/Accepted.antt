-- ===== src/Server/CommandBuilder/Accepted.antt =====
-- What is built passes the validation of its command.
use tcpadapter.Common.{
  ℕ, ◌≡◌, refl, Bool, true, false, if◌then◌else◌, List, Result, ok, err, ◌>>=◌, >>=-eq-ok, wrap_err,
  wrap_err-eq-ok, Bytes, ==_iff, All, Option, some, none,
}
use tcpadapter.Common.Dict.{lookup, nat_eq}
use tcpadapter.Common.Dict.Keys.{lookup-All}
use tcpadapter.Protocol.Payload.Validate.{validate_server_command_payload}
use tcpadapter.Protocol.Builders.Fields.{BuildError, Built, validated, invalid}
use tcpadapter.Protocol.Builders.Short.{
  Cmd19StartFwPayload, build_cmd2, build_cmd3, build_cmd5_structured, build_cmd6, build_cmd7,
  build_cmd8, build_cmd18, build_cmd19, build_cmd20, build_cmd23, build_empty_payload,
}
use tcpadapter.Protocol.Builders.Long.{
  Cmd11SendSmsPayload, Cmd25BindingResponsePayload, Cmd27CustomPayload, build_cmd11, build_cmd25,
  build_cmd27,
}
use tcpadapter.Protocol.Builders.Settings.{Cmd12SettingsRecord, build_cmd12}
use tcpadapter.Protocol.Builders.Sync.{
  build_table, build_cmd13_structured, build_cmd14_structured, build_cmd15_structured, build_cmd16,
}
use tcpadapter.Server.CommandBuilder.{
  not_supported, Json, Payload, ParameterError, Timestamped, plain_case, json_case, build_sms,
  holidays_case, fw_block_case, binding_case, custom_case, builders, build_command_payload,
}

-- Whatever comes out passes the validation of this command.
abbrev pub Sound : {E : Type 0} → ℕ → Result E Bytes → Type 0
Sound id r = (out : Bytes) → r ≡ ok out → validate_server_command_payload id out ≡ ok tt

validated-Sound :
    (id : ℕ) (out : Bytes) → Sound id (validated (validate_server_command_payload id) out)
validated-Sound id out last e =
    let check = validate_server_command_payload id out in
    let (done, passed, same) = >>=-eq-ok (wrap_err invalid check) (λ done. ok out) e in
    let eq : out ≡ last = cc in rw (← eq) ((wrap_err-eq-ok invalid check).0 passed)

bind-Sound :
    {E A : Type 0} (id : ℕ) (r : Result E A) (k : A → Result E Bytes)
    → ((a : A) → Sound id (k a))
    → Sound id (r >>= k)
bind-Sound id r k h out e = let (a, ea, ek) = >>=-eq-ok r k e in h a out ek

wrapped-Sound :
    {E F : Type 0} (id : ℕ) (f : E → F) (r : Result E Bytes) → Sound id r → Sound id (wrap_err f r)
wrapped-Sound id f r h out e = h out ((wrap_err-eq-ok f r).0 e)

else_err-Sound :
    {E : Type 0} (id : ℕ) (b : Bool) (r : Result E Bytes) (x : E)
    → Sound id r
    → Sound id (if b then r else err x)
else_err-Sound id true r x h out e = h out e
else_err-Sound id false r x h out e = cc

ruleset sound = (bind-Sound, wrapped-Sound, else_err-Sound, validated-Sound)

build_empty_payload-Sound : (id : ℕ) → Sound id (build_empty_payload id)
unfolding build_empty_payload
build_empty_payload-Sound id = search sound

build_table-Sound :
    {A : Type 0} (id : ℕ) (out_of_range : ℕ → BuildError) (most : ℕ) (build : A → Built)
    (timestamp : ℕ) (rs : List A)
    → Sound id
        (build_table out_of_range most build (validate_server_command_payload id) timestamp rs)
unfolding build_table
build_table-Sound id out_of_range most build timestamp rs = search sound

build_cmd19-Sound : (p : Cmd19StartFwPayload) → Sound 19 (build_cmd19 p)
unfolding build_cmd19
build_cmd19-Sound p = search sound

build_cmd20-Sound : (n : ℕ) (block : Bytes) → Sound 20 (build_cmd20 n block)
unfolding build_cmd20
build_cmd20-Sound n block = search sound

build_sms-Sound : (p : Cmd11SendSmsPayload) → Sound 11 (build_sms p)
unfolding build_sms build_cmd11
build_sms-Sound p = search sound

build_cmd12-Sound : (timestamp : ℕ) (r : Cmd12SettingsRecord) → Sound 12 (build_cmd12 timestamp r)
unfolding build_cmd12
build_cmd12-Sound timestamp r = search sound

build_cmd25-Sound : (p : Cmd25BindingResponsePayload) → Sound 25 (build_cmd25 p)
unfolding build_cmd25
build_cmd25-Sound p = search sound depth 12 fits 20000

build_cmd27-Sound : (p : Cmd27CustomPayload) → Sound 27 (build_cmd27 p)
unfolding build_cmd27
build_cmd27-Sound p = search sound

module _ {F : Type 0} (json : Json F) where
  plain_case-Sound :
      {A : Type 0} (id : ℕ) (unmarshal : Bytes → Result F A) (build : A → Built) (raw : Bytes)
      → ((a : A) → Sound id (build a))
      → Sound id (plain_case json unmarshal build raw)
  unfolding plain_case
  plain_case-Sound id unmarshal build raw h = search (bind-Sound, wrapped-Sound, h)

  json_case-Sound :
      {A : Type 0} (id : ℕ) (required : ParameterError F) (wrong : F → ParameterError F)
      (unmarshal : Bytes → Result F Timestamped) (unmarshal_json : Bytes → Result F A)
      (build : ℕ → A → Built) (raw : Bytes)
      → ((timestamp : ℕ) (a : A) → Sound id (build timestamp a))
      → Sound id (json_case json required wrong unmarshal unmarshal_json build raw)
  unfolding json_case
  json_case-Sound id required wrong unmarshal unmarshal_json build raw h =
      search (bind-Sound, wrapped-Sound, h)

  holidays_case-Sound : (raw : Bytes) → Sound 16 (holidays_case json raw)
  unfolding holidays_case build_cmd16
  holidays_case-Sound raw = search (bind-Sound, wrapped-Sound, build_table-Sound)

  fw_block_case-Sound : (raw : Bytes) → Sound 20 (fw_block_case json raw)
  unfolding fw_block_case
  fw_block_case-Sound raw = search (bind-Sound, wrapped-Sound, build_cmd20-Sound)

  binding_case-Sound : (raw : Bytes) → Sound 25 (binding_case json raw)
  unfolding binding_case
  binding_case-Sound raw = search (bind-Sound, wrapped-Sound, build_cmd25-Sound)

  custom_case-Sound : (raw : Bytes) → Sound 27 (custom_case json raw)
  unfolding custom_case
  custom_case-Sound raw = search (bind-Sound, wrapped-Sound, build_cmd27-Sound)

  abbrev IsSound : ℕ × (Bytes → Payload F) → Type 0
  IsSound (id, build) = (raw : Bytes) → Sound id (build raw)

  builders-Sound : All IsSound (builders json)
  unfolding build_cmd2 build_cmd3 build_cmd5_structured build_cmd6 build_cmd7 build_cmd8
      build_cmd13_structured build_cmd14_structured build_cmd15_structured build_cmd18 build_cmd23
  builders-Sound = search (
    plain_case-Sound, json_case-Sound, holidays_case-Sound, fw_block_case-Sound, binding_case-Sound,
    custom_case-Sound, wrapped-Sound, build_table-Sound, build_empty_payload-Sound, build_sms-Sound,
    build_cmd12-Sound, build_cmd19-Sound, validated-Sound,
  )

  found-Sound :
      (id : ℕ) (raw : Bytes) (found : Option (Bytes → Payload F))
      → lookup id (builders json) ≡ found
      → Sound id (elim found as (λ _. Payload F) [
        | none ↦ err (not_supported id)
        | some build ↦ build raw
      ])
  found-Sound id raw none known out e = cc
  found-Sound id raw (some build) known out e =
      let (j, same, h) = lookup-All IsSound id (builders json) builders-Sound known in
      let eq : j ≡ id = (==_iff j id).0 same in rw (← eq) (h raw out e)

  -- Whatever the decoders return, a payload that is built for a command passes the validation of that command.
  pub build_command_payload-Sound :
      (id : ℕ) (raw : Bytes) → Sound id (build_command_payload json id raw)
  unfolding build_command_payload
  build_command_payload-Sound id raw = found-Sound id raw (lookup id (builders json)) refl
