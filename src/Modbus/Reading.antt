-- ===== src/Modbus/Reading.antt =====
-- internal/hardware/protocols/modbus/modbus.go with internal/hardware/comm/base.go: when Read succeeds.
use go_control.Prelude.{
  ◌&&◌, ◌==◌, ℕ, ◌-◌, ◌≤◌, String, ◌≡◌, ◌↔◌, refl, ap, sym, subst, not, if◌then◌else◌, Bool, true,
  false, Option, none, List, ◌⊎◌, inl, inr, arith,
}
use go_control.Outcome.{Outcome, returns, panics, Returns}
use go_control.Comm.{
  BaseCommunication, retry_with_timeout, RetryResult, RetryRun, succeeded, cancelled, refused,
  exhausted, is_connected, emit_event, on_data_received,
}
use go_control.Comm.Retrying.{retry_succeeds, SucceedsAt}
use go_control.Modbus.{ModbusClient, ModbusError, parse_address, read, settled, error_of, bytes_of}

abbrev pub IsOk : {A : Type 0} → ModbusClient × (ModbusError ⊎ A) → Type 0
IsOk (mc, inl e) = ⊥
IsOk (mc, inr a) = Unit

abbrev is_succeeded : RetryResult → Bool
is_succeeded succeeded = true
is_succeeded _ = false

settled-IsOk :
    (retry_error : RetryResult → String) (done done_waiting : ℕ → Bool) (mc : ModbusClient)
    (event : BaseCommunication → BaseCommunication)
    → (value : List ℕ) (r : RetryResult)
    → IsOk (settled retry_error done done_waiting mc event value r) ↔ (r ≡ succeeded)
settled-IsOk retry_error done done_waiting mc event value succeeded = (λ h. refl, λ e. tt)
settled-IsOk retry_error done done_waiting mc event value cancelled =
    (λ h. absurd h, λ e. absurd (ground (arith, ap is_succeeded e)))
settled-IsOk retry_error done done_waiting mc event value (refused x) =
    (λ h. absurd h, λ e. absurd (ground (arith, ap is_succeeded e)))
settled-IsOk retry_error done done_waiting mc event value (exhausted x) =
    (λ h. absurd h, λ e. absurd (ground (arith, ap is_succeeded e)))

-- Read of a connected client that has a client of the library and no error handler, at an address that is a number, returns bytes
-- exactly if one of the first `RetryCount + 1` reads of the library succeeds and the context is not done
-- before that read, nor in a wait between the reads before it.
pub read-IsOk :
    (retry_error : RetryResult → String) (done done_waiting : ℕ → Bool)
    → (answer : ℕ → ℕ → ℕ → String ⊎ List ℕ) (address : String) (n addr quantity : ℕ)
    → (mc : ModbusClient) → is_connected mc.base ≡ true
    → mc.has_client ≡ true
    → mc.base.error_handler ≡ none
    → parse_address address n ≡ inr (addr, quantity)
    → Returns IsOk (read retry_error done done_waiting answer address n mc) ↔ (
        (k : ℕ) × (k ≤ mc.base.config.retry_count)
        × SucceedsAt (λ i. error_of (answer addr quantity i)) done done_waiting k)
unfolding read
read-IsOk retry_error done done_waiting answer address n addr quantity mc on client handler e =
    subst
      (λ (o : Outcome (ModbusClient × (ModbusError ⊎ List ℕ))).
        Returns IsOk o
        ↔ ((k : ℕ) × (k ≤ mc.base.config.retry_count) × SucceedsAt operation done done_waiting k))
      (sym reads)
      (
        λ h.
            (retry_succeeds operation done done_waiting mc.base handler).0
              ((settled-IsOk retry_error done done_waiting mc event value run.result).0 h),
        λ x.
            (settled-IsOk retry_error done done_waiting mc event value run.result).1
              ((retry_succeeds operation done done_waiting mc.base handler).1 x),
      )
  where
    operation : ℕ → Option String
    operation i = error_of (answer addr quantity i)

    run : RetryRun
    run = retry_with_timeout operation done done_waiting mc.base

    value : List ℕ
    value = bytes_of (answer addr quantity (run.calls - 1))

    event : BaseCommunication → BaseCommunication
    event = emit_event (on_data_received address value)

    result : Outcome (ModbusClient × (ModbusError ⊎ List ℕ))
    result = returns (settled retry_error done done_waiting mc event value run.result)

    reads : read retry_error done done_waiting answer address n mc ≡ result
    reads = rw (on, e) (ap (λ b. if not b && not (run.calls == 0) then panics else result) client)
