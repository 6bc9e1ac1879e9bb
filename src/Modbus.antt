-- ===== src/Modbus.antt =====
-- internal/hardware/protocols/modbus/modbus.go: the Modbus client. The library goburrow/modbus is not
-- part of the repository: what its handler answers to Connect, and its client to call `i` of a read or
-- a write, are arguments of the operations. `retry_error` is the text of the error that
-- RetryWithTimeout returns. Discovery is left out.
pub mod Registers
pub mod Reading
mod Examples
use Prim.Native.Char.{code}
use Prim.Native.String
use go_control.Prelude.{
  ℕ, zero, suc, ◌+◌, ◌-◌, ◌*◌, ◌/◌, ◌%◌, ◌^◌, String, Bool, true, false, not, ◌&&◌, Option, none,
  some, List, [], ◌∷◌, ◌⊎◌, inl, inr, str_eq, if◌then◌else◌, leb, ltb, ◌==◌, length,
}
use go_control.Outcome.{Outcome, returns, panics}
use go_control.Nodes.{ℤ, pos, negsuc}
use go_control.Comm.{
  BaseCommunication, ConnectionConfig, new_base_communication, connecting, connected, disconnected,
  error, set_status, is_connected, handle_with_error, emit_event, on_connected, on_disconnected,
  on_data_received, on_data_written, retry_with_timeout, RetryResult, succeeded,
}

-- The settings of the line, which are only handed to the library, are left out.
pub record ModbusConfig : Type 0 where
  pub connection : ConnectionConfig
  pub kind : String

-- `has_client` is whether `client` and `handler` are set.
pub record ModbusClient : Type 0 where
  pub base : BaseCommunication
  pub config : ModbusConfig
  pub has_client : Bool

pub data ModbusError : Type 0 where
  unsupported_type invalid_address failed : String → ModbusError
  not_connected : ModbusError

-- modbusBytesToUint16: an odd list is padded with a zero.
unfoldable pub modbus_bytes_to_uint16 : List ℕ → List ℕ
modbus_bytes_to_uint16 [] = []
modbus_bytes_to_uint16 (a ∷ []) = a * 256 ∷ []
modbus_bytes_to_uint16 (a ∷ (b ∷ more)) = (a * 256 + b) ∷ modbus_bytes_to_uint16 more

unfoldable pub new_modbus_client : ModbusConfig → ModbusClient
new_modbus_client config = record {
  base = new_base_communication config.connection;
  config = config;
  has_client = false;
}

-- connectTCP, connectRTU and connectASCII set the client if the handler connects.
abbrev pub opened : ModbusClient → Option String → ModbusClient × Option ModbusError
opened mc none = (
  record mc { has_client = true; base = emit_event on_connected (set_status connected mc.base) },
  none,
)
opened mc (some e) =
    let (base, after) = handle_with_error e (set_status error mc.base) in
    (record mc { base = base }, some (failed after))

-- Connect; a type that is none of the three leaves the client connecting.
unfoldable pub connect : Option String → ModbusClient → ModbusClient × Option ModbusError
connect answer mc =
    let begun = record mc { base = set_status connecting mc.base } in
    if str_eq mc.config.kind "tcp"
    then opened begun answer
    else if str_eq mc.config.kind "rtu"
    then opened begun answer
    else if str_eq mc.config.kind "ascii"
    then opened begun answer
    else (begun, some (unsupported_type mc.config.kind))

unfoldable pub disconnect : ModbusClient → ModbusClient
disconnect mc = record mc {
  has_client = false;
  base = emit_event on_disconnected (set_status disconnected mc.base);
}

unfoldable pub reconnect : Option String → ModbusClient → ModbusClient × Option ModbusError
reconnect answer mc = connect answer (disconnect mc)

abbrev pub digit : ℕ → Option ℕ
digit c = if leb 48 c && leb c 57 then some (c - 48) else none

abbrev pub next_digit : Option ℕ → (ℕ → Option ℕ) → Option ℕ
next_digit none f = none
next_digit (some d) f = f d

-- The digits of a decimal number, behind those that make `n`.
unfoldable pub digits_from : ℕ → String → Option ℕ
digits_from n String.[] = some n
digits_from n (String.◌∷◌ c rest) = next_digit (digit (code c)) λ d. digits_from (n * 10 + d) rest

abbrev pub digits : String → Option ℕ
digits String.[] = none
digits (String.◌∷◌ c rest) = digits_from 0 (String.◌∷◌ c rest)

abbrev pub negated : Option ℕ → Option ℤ
negated none = none
negated (some zero) = some (pos 0)
negated (some (suc n)) = if ltb n (2 ^ 63) then some (negsuc n) else none

abbrev pub positive : Option ℕ → Option ℤ
positive none = none
positive (some n) = if ltb n (2 ^ 63) then some (pos n) else none

-- strconv.Atoi: digits behind a sign or none, within the range of an int.
unfoldable pub atoi : String → Option ℤ
atoi String.[] = none
atoi (String.◌∷◌ c rest) =
    if code c == b'-'
    then negated (digits rest)
    else if code c == b'+'
    then positive (digits rest)
    else positive (digits (String.◌∷◌ c rest))

-- `uint16(addrInt)` behind the step back of an address above zero.
abbrev pub register : ℤ → ℕ
register (pos zero) = 0
register (pos (suc n)) = n % 2 ^ 16
register (negsuc n) = (2 ^ 16 - 1) - n % 2 ^ 16

unfoldable pub parse_address : String → ℕ → ModbusError ⊎ (ℕ × ℕ)
parse_address address n = elim (atoi address) [
  | none ↦ inl (invalid_address address)
  | some a ↦ inr (register a, n % 2 ^ 16)
]

-- The values of Write, one for two bytes, and their bytes.
unfoldable pub values_of : List ℕ → List ℕ
values_of [] = []
values_of (a ∷ []) = []
values_of (a ∷ (b ∷ more)) = (a * 256 + b) ∷ values_of more

unfoldable pub byte_values : List ℕ → List ℕ
byte_values [] = []
byte_values (v ∷ vs) = v / 256 % 256 ∷ v % 256 ∷ byte_values vs

abbrev pub error_of : {A : Type 0} → String ⊎ A → Option String
error_of (inl e) = some e
error_of (inr a) = none

abbrev pub bytes_of : String ⊎ List ℕ → List ℕ
bytes_of (inl e) = []
bytes_of (inr bs) = bs

-- `done i` says whether the context of the call is done before attempt `i`, and `done_waiting i` whether
-- it is done before the delay that follows it is over.
module _ (retry_error : RetryResult → String) (done done_waiting : ℕ → Bool) where
  -- What a call returns behind its retries: `value` is that of the last call of the library.
  abbrev pub settled :
      {A : Type 0}
      → ModbusClient
      → (BaseCommunication → BaseCommunication)
      → A
      → RetryResult
      → ModbusClient × (ModbusError ⊎ A)
  settled mc event value succeeded = (record mc { base = event mc.base }, inr value)
  settled mc event value r =
      let (base, after) = handle_with_error (retry_error r) mc.base in
      (record mc { base = base }, inl (failed after))

  -- `answer addr quantity i` is what ReadHoldingRegisters returns at call `i`.
  abbrev pub read_at :
      (ℕ → ℕ → ℕ → String ⊎ List ℕ)
      → String
      → ModbusClient
      → ModbusError ⊎ (ℕ × ℕ)
      → Outcome (ModbusClient × (ModbusError ⊎ List ℕ))
  read_at answer address mc (inl e) = returns (mc, inl e)
  read_at answer address mc (inr (addr, quantity)) =
      let run =
        retry_with_timeout (λ i. error_of (answer addr quantity i)) done done_waiting mc.base in
      let value = bytes_of (answer addr quantity (run.calls - 1)) in
      if not mc.has_client && not (run.calls == 0)
      then panics
      else returns (settled mc (emit_event (on_data_received address value)) value run.result)

  unfoldable pub read :
      (ℕ → ℕ → ℕ → String ⊎ List ℕ)
      → String
      → ℕ
      → ModbusClient
      → Outcome (ModbusClient × (ModbusError ⊎ List ℕ))
  read answer address n mc =
      if not (is_connected mc.base)
      then returns (mc, inl not_connected)
      else read_at answer address mc (parse_address address n)

  -- `answer addr quantity bytes i` is the error of WriteMultipleRegisters at call `i`.
  abbrev pub write_at :
      (ℕ → ℕ → List ℕ → ℕ → Option String)
      → String
      → List ℕ
      → ModbusClient
      → ModbusError ⊎ (ℕ × ℕ)
      → Outcome (ModbusClient × (ModbusError ⊎ Unit {0}))
  write_at answer address bytes mc (inl e) = returns (mc, inl e)
  write_at answer address bytes mc (inr (addr, quantity)) =
      let values = values_of bytes in
      let run =
        retry_with_timeout (answer addr (length values % 2 ^ 16) (byte_values values)) done
          done_waiting mc.base in
      if not mc.has_client && not (run.calls == 0)
      then panics
      else returns (settled mc (emit_event (on_data_written address bytes)) tt run.result)

  unfoldable pub write :
      (ℕ → ℕ → List ℕ → ℕ → Option String)
      → String
      → List ℕ
      → ModbusClient
      → Outcome (ModbusClient × (ModbusError ⊎ Unit {0}))
  write answer address bytes mc =
      if not (is_connected mc.base)
      then returns (mc, inl not_connected)
      else write_at answer address bytes mc (parse_address address (length bytes / 2))
