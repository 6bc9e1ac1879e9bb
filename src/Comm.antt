-- ===== src/Comm.antt =====
-- internal/hardware/comm/base.go: the state that the protocol clients share, and the loop that
-- retries an operation. An error is its text, an event handler a number; `emitted` holds the calls
-- of event handlers, in their order. A handler that panics is recovered from, so each call of a
-- handler is one entry whatever the handler does. A retry count is not negative here.
pub mod Retrying
mod Examples
use go_control.Prelude.{
  ℕ, zero, suc, String, Bool, true, false, not, ◌||◌, ◌==◌, Option, none, some, List, [], ◌∷◌, ◌++◌,
  if◌then◌else◌,
}

pub data ConnectionStatus : Type 0 where
  disconnected connecting connected error : ConnectionStatus

pub record ConnectionConfig : Type 0 where
  pub timeout : ℕ
  pub retry_count : ℕ
  pub retry_interval : ℕ
  pub keep_alive : Bool

-- A delay is a duration; `none` is one that is not above zero.
pub record ErrorHandler : Type 0 where
  pub handle_error : String → String
  pub should_retry : String → Bool
  pub get_retry_delay : String → Option ℕ

pub data CommEvent : Type 0 where
  on_connected on_disconnected : CommEvent
  on_error : String → CommEvent
  on_data_received on_data_written : String → List ℕ → CommEvent

pub record BaseCommunication : Type 0 where
  pub config : ConnectionConfig
  pub status : ConnectionStatus
  pub last_error : Option String
  pub event_handlers : List ℕ
  pub error_handler : Option ErrorHandler
  pub emitted : List (ℕ × CommEvent)

unfoldable pub new_base_communication : ConnectionConfig → BaseCommunication
new_base_communication config = record {
  config = config;
  status = disconnected;
  last_error = none;
  event_handlers = [];
  error_handler = none;
  emitted = [];
}

unfoldable pub set_status : ConnectionStatus → BaseCommunication → BaseCommunication
set_status status bc = record bc { status = status }

abbrev pub is_connected_status : ConnectionStatus → Bool
is_connected_status connected = true
is_connected_status _ = false

unfoldable pub is_connected : BaseCommunication → Bool
is_connected bc = is_connected_status bc.status

unfoldable pub add_event_handler : ℕ → BaseCommunication → BaseCommunication
add_event_handler h bc = record bc { event_handlers = bc.event_handlers ++ h ∷ [] }

-- The first occurrence goes.
unfoldable pub without : ℕ → List ℕ → List ℕ
without h [] = []
without h (k ∷ ks) = let rest = without h ks in if k == h then ks else k ∷ rest

unfoldable pub remove_event_handler : ℕ → BaseCommunication → BaseCommunication
remove_event_handler h bc = record bc { event_handlers = without h bc.event_handlers }

-- emitEvent: one call of each handler, in the order in which they were added.
unfoldable pub call_all : List ℕ → CommEvent → List (ℕ × CommEvent) → List (ℕ × CommEvent)
call_all [] e log = log
call_all (h ∷ hs) e log = call_all hs e (log ++ (h, e) ∷ [])

unfoldable pub emit_event : CommEvent → BaseCommunication → BaseCommunication
emit_event e bc = record bc { emitted = call_all bc.event_handlers e bc.emitted }

abbrev pub handled : Option ErrorHandler → String → String
handled none err = err
handled (some h) err = h.handle_error err

-- HandleWithError: the state, and the error that it returns.
unfoldable pub handle_with_error : String → BaseCommunication → BaseCommunication × String
handle_with_error err bc =
    let after = handled bc.error_handler err in
    (emit_event (on_error after) (record bc { last_error = some err }), after)

-- How a call of RetryWithTimeout ends: with nil, with the context's error, with the error of an
-- operation that is not to be retried, or after the last attempt.
pub data RetryResult : Type 0 where
  succeeded cancelled : RetryResult
  refused exhausted : String → RetryResult

-- The result, the number of calls of the operation, and the delays between them.
pub record RetryRun : Type 0 where
  pub result : RetryResult
  pub calls : ℕ
  pub delays : List ℕ

abbrev pub refuses : Option ErrorHandler → String → Bool
refuses none e = false
refuses (some h) e = not (h.should_retry e)

abbrev pub or_interval : ℕ → Option ℕ → ℕ
or_interval interval none = interval
or_interval interval (some d) = d

abbrev pub delay_after : ℕ → Option ErrorHandler → String → ℕ
delay_after interval none e = interval
delay_after interval (some h) e = or_interval interval (h.get_retry_delay e)

abbrev pub ended : RetryResult → ℕ → RetryRun
ended result calls = record { result = result; calls = calls; delays = [] }

-- `operation i` is what call `i` returns, `none` for nil; `done i` says whether the context is done
-- before call `i`, and `done_waiting i` whether it is done before the delay that follows it is over.
module _ (operation : ℕ → Option String) (done done_waiting : ℕ → Bool) where
  -- One attempt; `next e` is the rest of the loop after an error that may be retried.
  abbrev pub attempt : Option ErrorHandler → ℕ → (String → RetryRun) → RetryRun
  attempt handler i next = if done i then ended cancelled 0 else elim (operation i) [
    | none ↦ ended succeeded 1
    | some e ↦ if refuses handler e then ended (refused e) 1 else next e
  ]

  abbrev pub again : ℕ → RetryRun → RetryRun
  again delay rest = record {
    result = rest.result;
    calls = suc rest.calls;
    delays = delay ∷ rest.delays;
  }

  -- The loop from attempt `i` on, with `left` more attempts after it.
  unfoldable pub retry_from : ℕ → Option ErrorHandler → ℕ → ℕ → RetryRun
  retry_from interval handler i zero = attempt handler i (λ e. ended (exhausted e) 1)
  retry_from interval handler i (suc left) =
      let rest = retry_from interval handler (suc i) left in
      attempt handler i (λ e.
        if done_waiting i then ended cancelled 1 else again (delay_after interval handler e) rest)

  unfoldable pub retry_with_timeout : BaseCommunication → RetryRun
  retry_with_timeout bc =
      retry_from bc.config.retry_interval bc.error_handler 0 bc.config.retry_count

-- isNetworkError and isTimeoutError
abbrev pub is_network_error : String → Bool
is_network_error err = false

abbrev pub is_timeout_error : String → Bool
is_timeout_error err = false

abbrev pub default_error_handler : ErrorHandler
default_error_handler = record {
  handle_error = λ err. err;
  should_retry = λ err. is_network_error err || is_timeout_error err;
  get_retry_delay = λ err. none;
}
