-- ===== src/Comm/Examples.antt =====
-- internal/hardware/comm/base.go: an operation that fails twice, and the theorems at it.
use go_control.Prelude.{ℕ, zero, suc, String, Bool, false, Option, none, some, [], ◌∷◌}
use go_control.Comm.{BaseCommunication, new_base_communication, default_error_handler}

abbrev flaky : ℕ → Option String
flaky zero = some "no answer"
flaky (suc zero) = some "bad checksum"
flaky _ = none

abbrev never : ℕ → Bool
never i = false

abbrev base : BaseCommunication
base =
    new_base_communication
      (record { timeout = 100; retry_count = 3; retry_interval = 10; keep_alive = false })

abbrev with_default : BaseCommunication
with_default = record base { error_handler = some default_error_handler }

abbrev watched : BaseCommunication
watched = record base { event_handlers = 4 ∷ 7 ∷ [] }
