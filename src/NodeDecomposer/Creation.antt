-- ===== src/NodeDecomposer/Creation.antt =====
-- internal/core/tasknode_decomposer.go, CreateTaskNodeFromConfig. `clock n` is what reading number `n`
-- of the clock gives, `itoa` prints a number, `parse_duration` is time.ParseDuration.
use Prim.Native.String.{◌++◌ as append}
use go_control.Prelude.{
  ℕ, suc, ◌*◌, String, true, false, Option, none, some, ◌⊎◌, inl, inr, str_eq, if◌then◌else◌,
}
use go_control.Outcome.{Outcome, returns, panics, and_then}
use go_control.Types.{Float64}
use go_control.Decomposer.{zero_float, zero_point}
use go_control.Nodes.{
  pos, Value, Values, Table, nil, text, number, int64, duration, table, items, no_values, value,
  no_entries, entry, field, TaskNode, TaskNodes, no_nodes, next_node, IoCommand, MotorCommand,
  DelayCommand, command_io, command_motor_control, command_delay, command_sequence,
  new_io_task_node, new_motor_task_node, new_delay_task_node, new_sequence_task_node,
}
use go_control.NodeDecomposer.{as_text, as_number, device_of, one_second}

pub data CreateError : Type 0 where
  unsupported : String → CreateError

-- An error, or what was made and the number of clock readings so far.
abbrev pub Made : Type 0 → Type 0
Made A = Outcome (CreateError ⊎ (A × ℕ))

abbrev pub continued : {A B : Type 0} → (A → ℕ → Made B) → CreateError ⊎ (A × ℕ) → Made B
continued f (inl e) = returns (inl e)
continued f (inr (a, n)) = f a n

abbrev pub try : {A B : Type 0} → Made A → (A → ℕ → Made B) → Made B
try o f = and_then o (continued f)

abbrev pub kept : Option TaskNode → TaskNodes → TaskNodes
kept none nodes = nodes
kept (some n) nodes = next_node n nodes

module _ (itoa : ℕ → String) (clock : ℕ → ℕ) (parse_duration : String → Option ℕ)
    (whole : Float64 → ℕ) where
  abbrev pub fresh_id : String → ℕ → String
  fresh_id prefix n = append prefix (itoa (clock n))

  -- A new node, for which the clock is read twice: for its id and for its start.
  abbrev pub timed : (String → ℕ → TaskNode) → String → ℕ → Made TaskNode
  timed make prefix n = returns (inr (make (fresh_id prefix n) (clock (suc n)), suc (suc n)))

  unfoldable pub create_io : Table → ℕ → Made TaskNode
  create_io t n = and_then (as_number (field t "value")) λ v.
      and_then (as_text (field t "channel")) λ channel.
        and_then (as_text (field t "action")) λ action.
          let c : IoCommand = record {
            device_id = device_of (field t "device_id");
            channel = channel;
            action = action;
            value = v;
            threshold = zero_float;
            timeout = 5 * one_second;
          } in
          timed (λ id now. new_io_task_node id c now) "io-" n

  unfoldable pub create_motor : Table → ℕ → Made TaskNode
  create_motor t n = and_then (as_number (field t "speed")) λ speed.
      and_then (as_text (field t "motor_id")) λ motor.
        and_then (as_text (field t "action")) λ action.
          let c : MotorCommand = record {
            device_id = device_of (field t "device_id");
            motor_id = motor;
            action = action;
            speed = speed;
            position = zero_point;
            acceleration = zero_float;
            torque = zero_float;
            direction = pos 0;
            enable = false;
          } in
          timed (λ id now. new_motor_task_node id c now) "motor-" n

  abbrev pub parsed : Option ℕ → ℕ
  parsed none = one_second
  parsed (some d) = d

  abbrev pub duration_of : Option Value → ℕ
  duration_of (some (duration d)) = d
  duration_of (some (text s)) = parsed (parse_duration s)
  duration_of (some (number x)) = whole x * one_second
  duration_of (some (int64 k)) = k * one_second
  duration_of _ = one_second

  abbrev pub unit_of : Option Value → Outcome String
  unit_of none = returns "s"
  unit_of (some nil) = returns "s"
  unit_of (some (text u)) = returns u
  unit_of (some _) = panics

  unfoldable pub create_delay : Table → ℕ → Made TaskNode
  create_delay t n = and_then (unit_of (field t "unit")) λ u.
      let c : DelayCommand = record { duration = duration_of (field t "duration"); unit = u } in
      timed (λ id now. new_delay_task_node id c now) "delay-" n

  -- CreateTaskNodeFromConfig; `children` makes the nodes of the configured children.
  unfoldable pub create_with : String → Table → (ℕ → Made TaskNodes) → ℕ → Made TaskNode
  create_with kind t children n =
      if str_eq kind command_io
      then create_io t n
      else if str_eq kind command_motor_control
      then create_motor t n
      else if str_eq kind command_delay
      then create_delay t n
      else if str_eq kind command_sequence
      then try (children n) (λ nodes m.
        timed (λ id now. new_sequence_task_node id nodes "sequential" true now) "seq-" m)
      else returns (inl (unsupported kind))

  -- The loop over the children. A child that is no map, or has no type, is passed over.
  unfoldable mutual
    -- the first entry for "children" is the value of that key
    pub configured_children : Table → ℕ → Made TaskNodes
    configured_children no_entries n = returns (inr (no_nodes, n))
    configured_children (entry k v rest) n =
        let here = of_value v n in
        let later = configured_children rest n in if str_eq k "children" then here else later

    pub of_value : Value → ℕ → Made TaskNodes
    of_value (items vs) n = each vs n
    of_value _ n = returns (inr (no_nodes, n))

    pub each : Values → ℕ → Made TaskNodes
    each no_values n = returns (inr (no_nodes, n))
    each (value v more) n =
        try (of_child v n) λ c m. try (each more m) λ cs k. returns (inr (kept c cs, k))

    pub of_child : Value → ℕ → Made (Option TaskNode)
    of_child (table t) n =
        let inner = configured_children t in
        and_then (as_text (field t "type")) λ kind.
          if str_eq kind ""
          then returns (inr (none, n))
          else try (create_with kind t inner n) (λ c m. returns (inr (some c, m)))
    of_child _ n = returns (inr (none, n))

  unfoldable pub create_task_node_from_config : String → Table → ℕ → Made TaskNode
  create_task_node_from_config kind t n = create_with kind t (configured_children t) n
