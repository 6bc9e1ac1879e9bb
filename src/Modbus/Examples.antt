-- ===== src/Modbus/Examples.antt =====
-- internal/hardware/protocols/modbus/modbus.go: a client whose library answers at the third call, and
-- three bytes to write, with the theorems at them.
use go_control.Prelude.{
  Bool, false, leb, ℕ, zero, suc, ◌≤◌, String, ◌↔◌, refl, true, false, List, [], ◌∷◌, ◌⊎◌, inl, inr,
}
use go_control.Outcome.{Returns}
use go_control.Comm.{RetryResult, new_base_communication, connected, is_connected}
use go_control.Comm.Retrying.{SucceedsAt}
use go_control.Modbus.{ModbusClient, read, error_of, parse_address, atoi, digits_from}
use go_control.Modbus.Reading.{IsOk, read-IsOk}

abbrev retry_error : RetryResult → String
retry_error r = "failed"

abbrev third_time : ℕ → ℕ → ℕ → String ⊎ List ℕ
third_time addr quantity zero = inl "no answer"
third_time addr quantity (suc zero) = inl "no answer"
third_time addr quantity _ = inr (0 ∷ 7 ∷ [])

abbrev client : ModbusClient
client = record {
  base =
      record (new_base_communication
        (record { timeout = 100; retry_count = 3; retry_interval = 10; keep_alive = false })) {
          status = connected;
        };
  config = record {
    connection = record { timeout = 100; retry_count = 3; retry_interval = 10; keep_alive = false };
    kind = "tcp";
  };
  has_client = true;
}

-- The context is done after the third wait.
abbrev late : ℕ → Bool
late i = leb 3 i

abbrev never : ℕ → Bool
never i = false

read-IsOk_example :
    Returns IsOk (read retry_error late never third_time "12" 1 client)
    ↔ ((k : ℕ) × (k ≤ 3) × SucceedsAt (λ i. error_of (third_time 11 1 i)) late never k)
unfolding new_base_communication is_connected parse_address atoi digits_from
read-IsOk_example =
    read-IsOk retry_error late never third_time "12" 1 11 1 client refl refl refl refl
