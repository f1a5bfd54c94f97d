-- ===== src/Protocol/Cmd.antt =====
-- internal/protocol/constants.go: the command ids that the code refers to by name.
use Prim.Native.Nat.{ℕ}

abbrev pub registration_ack : ℕ
registration_ack = 1

abbrev pub fw_start : ℕ
fw_start = 19

abbrev pub fw_block : ℕ
fw_block = 20

abbrev pub controller_ack : ℕ
controller_ack = 24
