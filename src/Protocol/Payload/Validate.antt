-- ===== src/Protocol/Payload/Validate.antt =====
-- `ValidateServerCommandPayload`: the switch over the command id.
use tcpadapter.Common.{ℕ, ok, [], ◌∷◌, none, some, Bytes}
use tcpadapter.Common.Dict.{Dict, lookup, nat_eq}
use tcpadapter.Protocol.Payload.Faults.{Checked}
use tcpadapter.Protocol.Payload.Fixed.{
  needs_length, validate_cmd1, validate_cmd5, validate_cmd6, validate_cmd7, validate_cmd8,
  validate_cmd11, validate_cmd18, validate_cmd19, validate_cmd24, validate_cmd25, validate_cmd27,
}
use tcpadapter.Protocol.Payload.Tables.{
  validate_cmd12, validate_cmd13, validate_cmd14, validate_cmd15, validate_cmd16,
}

-- The cases of the switch.
abbrev cases : Dict ℕ (Bytes → Checked)
cases =
    (1, validate_cmd1)
    ∷ (2, needs_length 1)
    ∷ (3, needs_length 1)
    ∷ (5, validate_cmd5)
    ∷ (6, validate_cmd6)
    ∷ (7, validate_cmd7)
    ∷ (8, validate_cmd8)
    ∷ (9, needs_length 0)
    ∷ (10, needs_length 0)
    ∷ (11, validate_cmd11)
    ∷ (12, validate_cmd12)
    ∷ (13, validate_cmd13)
    ∷ (14, validate_cmd14)
    ∷ (15, validate_cmd15)
    ∷ (16, validate_cmd16)
    ∷ (17, needs_length 0)
    ∷ (18, validate_cmd18)
    ∷ (19, validate_cmd19)
    ∷ (20, needs_length 1026)
    ∷ (21, needs_length 0)
    ∷ (22, needs_length 0)
    ∷ (23, needs_length 4)
    ∷ (24, validate_cmd24)
    ∷ (25, validate_cmd25)
    ∷ (27, validate_cmd27)
    ∷ []

-- An id that the switch does not name passes.
unfoldable pub validate_server_command_payload : ℕ → Bytes → Checked
unfolding lookup
validate_server_command_payload id payload = elim (lookup id cases) [
  | none ↦ ok tt
  | some check ↦ check payload
]
