-- ===== src/NodeDecomposer.antt =====
-- internal/core/tasknode_decomposer.go: the decomposition of a tree of nodes into motion commands.
-- `show v` is what `%.2f` prints of a value, `show_duration` what `%v` prints of a duration, `utf8`
-- the bytes of a string, `half` is `x * 0.5` and `whole` the conversion of a float64 to a number of
-- seconds. The clock is read as `now`. Seconds of a duration are taken to be fewer than 2^33.
mod Parameters
mod Motion
pub mod Plans
pub mod Creation
pub mod Built
pub mod Legacy
mod Examples
unfoldable pub use Parameters.*
unfoldable pub use Motion.*
use Prim.Native.String.{◌++◌ as append}
use go_control.Prelude.{
  ℕ, ◌*◌, String, Bool, ◌||◌, Option, none, some, List, [], ◌∷◌, ◌++◌, ◌⊎◌, inl, inr, str_eq,
  if◌then◌else◌,
}
use go_control.GoMap
use go_control.GoMap.{GoMap}
use go_control.Outcome.{Outcome, returns, panics, and_then}
use go_control.Types.{
  Task, SystemConfig, Float64, Point, Velocity, MotionCommand, command_move_to,
  command_move_relative, command_home, command_stop, command_jog, pending, other,
}
use go_control.Decomposer.{numbered, zero_float, zero_point, straight}
use go_control.Nodes.{
  Value, Table, nil, number, int64, duration, table, value, field, TaskNode, node, TaskNodes,
  no_nodes, next_node, base_of, validate, NodeError, command_io, command_motor_control,
  command_motor_status, command_delay, command_sequence, command_parallel, command_condition,
}

pub data Error : Type 0 where
  unsupported_legacy unsupported_node device_not_found : String → Error
  child_failed : String → Error → Error

abbrev pub Commands : Type 0
Commands = Error ⊎ List MotionCommand

-- SetDevice; a device is a number.
unfoldable pub set_device : String → ℕ → GoMap ℕ → GoMap ℕ
set_device id d devices = GoMap.put devices id d

-- The task that decomposeMotionNode makes, with the fields that it sets.
abbrev pub motion_task : String → String → Point → Velocity → List String → Task
motion_task id kind target velocity axes = record {
  id = id;
  kind = kind;
  priority = other 0;
  status = pending;
  target = target;
  velocity = velocity;
  axes = axes;
  created_at = 0;
  started_at = none;
  completed_at = none;
  error = "";
  timeout = 30 * one_second;
  cancel_func = none;
}

module _ (show : Value → String) (show_duration : ℕ → String) (utf8 : String → List ℕ)
    (half : Float64 → Float64) (whole : Float64 → ℕ) (config : SystemConfig) (devices : GoMap ℕ)
    (now : ℕ) where
  abbrev pub supported : String → Option (List MotionCommand) → Commands
  supported kind none = inl (unsupported_node kind)
  supported kind (some cs) = inr cs

  unfoldable pub decompose_motion_node : String → String → Table → Outcome Commands
  decompose_motion_node id kind params = and_then (target_of (field params "target")) λ target.
      and_then (velocity_of (field params "velocity")) λ velocity.
        and_then (axes_of (field params "axes")) λ axes.
          returns (
            supported kind (commands_of half config now (motion_task id kind target velocity axes)))

  -- A command literal of a node: without motion, with its bytes.
  abbrev pub plain : String → String → String → List ℕ → ℕ → MotionCommand
  plain id d kind bytes timeout = record {
    id = id;
    device_id = d;
    command_type = kind;
    position = zero_point;
    velocity = straight zero_float;
    acceleration = straight zero_float;
    bytes = bytes;
    timestamp = now;
    timeout = timeout;
  }

  abbrev pub if_device : String → MotionCommand → Commands
  if_device d c = elim (GoMap.get devices d) [
    | none ↦ inl (device_not_found d)
    | some _ ↦ inr (c ∷ [])
  ]

  abbrev pub or_nil : Option Value → Value
  or_nil none = nil
  or_nil (some v) = v

  unfoldable pub io_bytes : String → String → Value → List ℕ
  io_bytes action channel v =
      if str_eq action "set"
      then utf8 (append "IO_SET:" (append channel (append ":" (show v))))
      else if str_eq action "read"
      then utf8 (append "IO_READ:" channel)
      else if str_eq action "toggle"
      then utf8 (append "IO_TOGGLE:" channel)
      else []

  unfoldable pub decompose_io_node : String → Table → Outcome Commands
  decompose_io_node id params =
      let d = device_of (field params "device_id") in
      and_then (as_text (field params "channel")) λ channel.
        and_then (as_text (field params "action")) λ action. returns (
          if_device d (
            plain (append id "-io") d command_io
              (io_bytes action channel (or_nil (field params "value"))) (5 * one_second)))

  abbrev pub at : Point → MotionCommand → MotionCommand
  at p c = record c { position = p }

  abbrev pub position_bytes : String → Point → List ℕ
  position_bytes motor p = utf8 (
      append "MOTOR_POS:" (
        append motor (
          append ":" (
            append (show (number p.x))
              (append "," (append (show (number p.y)) (append "," (show (number p.z)))))))))

  -- The case of "set_position": a position that is no map leaves the command without bytes.
  abbrev pub positioned : String → (List ℕ → MotionCommand) → Option Value → Outcome MotionCommand
  positioned motor c (some (table t)) =
      and_then (read_point t) λ p. returns (at p (c (position_bytes motor p)))
  positioned motor c _ = returns (c [])

  -- The case of "set_speed".
  abbrev pub spun : String → (List ℕ → MotionCommand) → Outcome Float64 → Outcome MotionCommand
  spun motor c speed =
      and_then speed λ v.
        returns (c (utf8 (append "MOTOR_SPEED:" (append motor (append ":" (show (number v)))))))

  unfoldable pub motor_command :
      String → String → (List ℕ → MotionCommand) → Table → Outcome MotionCommand
  motor_command action motor c params =
      if str_eq action "start"
      then returns (c (utf8 (append "MOTOR_START:" motor)))
      else if str_eq action "stop"
      then returns (c (utf8 (append "MOTOR_STOP:" motor)))
      else if str_eq action "set_speed"
      then spun motor c (as_number (field params "speed"))
      else if str_eq action "set_position"
      then positioned motor c (field params "position")
      else returns (c [])

  unfoldable pub decompose_motor_node : String → Table → Outcome Commands
  decompose_motor_node id params =
      let d = device_of (field params "device_id") in
      and_then (as_text (field params "motor_id")) λ motor.
        and_then (as_text (field params "action")) λ action. elim (GoMap.get devices d) [
          | none ↦ returns (inl (device_not_found d))
          | some _ ↦
              and_then
                (motor_command action motor
                  (λ bytes.
                    plain (append id "-motor") d command_motor_control bytes (10 * one_second))
                  params)
                λ c. returns (inr (c ∷ []))
        ]

  unfoldable pub decompose_motor_status_node : String → Table → Outcome Commands
  decompose_motor_status_node id params =
      let d = device_of (field params "device_id") in
      and_then (as_text (field params "motor_id")) λ motor. returns (
        if_device d (
          plain (append id "-status") d command_motor_status (utf8 (append "MOTOR_STATUS:" motor))
            (3 * one_second)))

  abbrev pub as_duration : Option Value → Outcome ℕ
  as_duration (some (duration d)) = returns d
  as_duration _ = panics

  unfoldable pub decompose_delay_node : String → Table → Outcome Commands
  decompose_delay_node id params = and_then (as_duration (field params "duration")) λ d. returns (
      inr (
        plain (append id "-delay") "system" command_delay (utf8 (append "DELAY:" (show_duration d)))
          d
        ∷ []))

  abbrev pub timeout_of : Option Value → ℕ
  timeout_of (some (duration d)) = d
  timeout_of (some (number x)) = whole x * one_second
  timeout_of (some (int64 n)) = n * one_second
  timeout_of _ = 5 * one_second

  unfoldable pub decompose_condition_node : String → Table → Outcome Commands
  decompose_condition_node id params = and_then (as_text (field params "condition")) λ condition.
      returns (
        inr (
          plain (append id "-condition") (device_of (field params "device_id")) command_condition
            (utf8 (append "CONDITION:" condition)) (timeout_of (field params "timeout"))
          ∷ []))

  -- The part of the loop over the children behind the decomposition of one: `rest` is that of the others.
  abbrev pub joined : String → Outcome Commands → Commands → Outcome Commands
  joined id rest (inl e) = returns (inl (child_failed id e))
  joined id (returns (inr later)) (inr cs) = returns (inr (cs ++ later))
  joined id rest (inr cs) = rest

  abbrev pub is_motion : String → Bool
  is_motion kind =
      str_eq kind command_move_to
      || str_eq kind command_move_relative
      || str_eq kind command_home
      || str_eq kind command_stop
      || str_eq kind command_jog

  -- decomposeTaskNode for a node of this id, type and parameters; `children` is what decomposing its
  -- children gives.
  unfoldable pub by_type : String → String → Table → Outcome Commands → Outcome Commands
  by_type id kind params children =
      if is_motion kind
      then decompose_motion_node id kind params
      else if str_eq kind command_io
      then decompose_io_node id params
      else if str_eq kind command_motor_control
      then decompose_motor_node id params
      else if str_eq kind command_motor_status
      then decompose_motor_status_node id params
      else if str_eq kind command_delay
      then decompose_delay_node id params
      else if str_eq kind command_sequence || str_eq kind command_parallel
      then children
      else if str_eq kind command_condition
      then decompose_condition_node id params
      else returns (inl (unsupported_node kind))

  unfoldable mutual
    pub decompose_task_node : TaskNode → Outcome Commands
    decompose_task_node (node b c children) =
        let inner = decompose_children children in by_type b.id b.kind b.parameters inner

    -- The loop of decomposeSequenceNode.
    pub decompose_children : TaskNodes → Outcome Commands
    decompose_children no_nodes = returns (inr [])
    decompose_children (next_node n rest) =
        let later = decompose_children rest in
        and_then (decompose_task_node n) (joined (base_of n).id later)

  abbrev pub finish_legacy : (ℕ → String) → (ℕ → ℕ) → Task → Option (List MotionCommand) → Commands
  finish_legacy itoa clock t none = inl (unsupported_legacy t.kind)
  finish_legacy itoa clock t (some cs) = inr (numbered itoa clock t 0 cs)

  -- DecomposeTask of a task whose RootNode is `root`; unlike TaskDecomposer it validates nothing.
  unfoldable pub decompose_task : (ℕ → String) → (ℕ → ℕ) → Option TaskNode → Task → Outcome Commands
  decompose_task itoa clock none t =
      returns (finish_legacy itoa clock t (commands_of half config now t))
  decompose_task itoa clock (some root) t = decompose_task_node root

pub data InvalidNode : Type 0 where
  invalid : NodeError → InvalidNode
  child_invalid : String → InvalidNode → InvalidNode

-- ValidateTaskNode. No node is nil here.
unfoldable mutual
  pub validate_task_node : TaskNode → Option InvalidNode
  validate_task_node (node b c children) =
      let inner = validate_children children in
      elim (validate (node b c children)) [ none ↦ inner | some e ↦ some (invalid e) ]

  pub validate_children : TaskNodes → Option InvalidNode
  validate_children no_nodes = none
  validate_children (next_node n rest) =
      let later = validate_children rest in
      elim (validate_task_node n) [ none ↦ later | some e ↦ some (child_invalid (base_of n).id e) ]
