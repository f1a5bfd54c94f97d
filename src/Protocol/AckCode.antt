-- ===== src/Protocol/AckCode.antt =====
-- internal/protocol/constants.go: acknowledgement codes.
use tcpadapter.Common.{ℕ, Bool, ◌||◌, ◌==◌}

abbrev pub accepted : ℕ
accepted = 0

abbrev pub param_error : ℕ
param_error = 1

abbrev pub exec_error : ℕ
exec_error = 2

abbrev pub invalid_result : ℕ
invalid_result = 3

abbrev pub password_needed : ℕ
password_needed = 4

abbrev pub started : ℕ
started = 5

abbrev pub cancel : ℕ
cancel = 6

abbrev pub next_set : ℕ
next_set = 7

abbrev pub crc_error : ℕ
crc_error = 254

abbrev pub unsupported : ℕ
unsupported = 255

unfoldable pub is_execution_code_allowed : ℕ → Bool
is_execution_code_allowed code =
    code == accepted
    || code == param_error
    || code == exec_error
    || code == invalid_result
    || code == password_needed
    || code == started
    || code == cancel
    || code == next_set
    || code == crc_error
    || code == unsupported
