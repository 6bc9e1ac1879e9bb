-- ===== src/NodeDecomposer/Plans.antt =====
-- pkg/types/tasknode.go and internal/core/tasknode_decomposer.go together: the trees that the
-- constructors of nodes make, and their decomposition.
use Prim.Native.String.{◌++◌ as append}
use go_control.Prelude.{
  ℕ, String, ◌≡◌, refl, sym, ap, ◌∙◌, Bool, true, false, ◌&&◌, Option, none, some, List, [], ◌∷◌,
  ◌++◌, inl, inr, map, is_some, arith, ◌*◌, str_eq, if_holds,
}
use go_control.GoMap
use go_control.GoMap.{GoMap}
use go_control.Outcome.{Outcome, returns, panics, deadlocks, Returns, and_then, and_then-Returns}
use go_control.Types.{SystemConfig, Float64, MotionCommand}
use go_control.Nodes.{
  Value, IoCommand, MotorCommand, DelayCommand, ConditionCommand, BaseTaskNode, TaskNode, node,
  TaskNodes, no_nodes, next_node, Concrete, sequence_node, motor_table, base_of, appended, adopted,
  add_child, add_children, new_base_task_node, new_io_task_node, new_motor_task_node,
  new_delay_task_node, new_sequence_task_node, new_condition_task_node, sequence_table, command_io,
  command_motor_control, command_delay, command_condition, command_sequence, field,
}
use go_control.NodeDecomposer.{
  device_not_found, if_device, plain, one_second, Commands, joined, decompose_task_node,
  decompose_children, by_type, decompose_io_node, decompose_motor_node, motor_command,
  decompose_delay_node, decompose_condition_node,
}

-- Calls of the constructors: a tree of commands, each with the id and the time of its node.
mutual
  pub data Plan : Type 0 where
    io : String → IoCommand → ℕ → Plan
    motor : String → MotorCommand → ℕ → Plan
    delay : String → DelayCommand → ℕ → Plan
    condition : String → ConditionCommand → ℕ → Plan
    sequence : String → Plans → String → Bool → ℕ → Plan

  pub data Plans : Type 0 where
    no_plans : Plans
    plan : Plan → Plans → Plans

unfoldable mutual
  pub build : Plan → TaskNode
  build (io id c now) = new_io_task_node id c now
  build (motor id c now) = new_motor_task_node id c now
  build (delay id c now) = new_delay_task_node id c now
  build (condition id c now) = new_condition_task_node id c now
  build (sequence id ps mode stop now) = new_sequence_task_node id (build_all ps) mode stop now

  pub build_all : Plans → TaskNodes
  build_all no_plans = no_nodes
  build_all (plan p ps) = next_node (build p) (build_all ps)

abbrev adopt_all : String → TaskNodes → TaskNodes
adopt_all id no_nodes = no_nodes
adopt_all id (next_node n rest) = next_node (adopted id n) (adopt_all id rest)

abbrev followed_by : TaskNodes → TaskNodes → TaskNodes
followed_by no_nodes ys = ys
followed_by (next_node n rest) ys = next_node n (followed_by rest ys)

followed_by-appended :
    (xs ys : TaskNodes) (n : TaskNode)
    → followed_by (appended xs n) ys ≡ followed_by xs (next_node n ys)
unfolding appended
followed_by-appended no_nodes ys n = refl
followed_by-appended (next_node m xs) ys n = ap (next_node m) (followed_by-appended xs ys n)

followed_by-none : (xs : TaskNodes) → followed_by xs no_nodes ≡ xs
followed_by-none no_nodes = refl
followed_by-none (next_node m xs) = ap (next_node m) (followed_by-none xs)

add_children_lem :
    (b : BaseTaskNode) (c : Concrete) (xs ns : TaskNodes)
    → add_children (node b c xs) ns ≡ node b c (followed_by xs (adopt_all b.id ns))
unfolding add_children add_child
add_children_lem b c xs no_nodes = ap (node b c) (sym (followed_by-none xs))
add_children_lem b c xs (next_node n ns) =
    add_children_lem b c (appended xs (adopted b.id n)) ns
    ∙ ap (node b c) (followed_by-appended xs (adopt_all b.id ns) (adopted b.id n))

adopted-build : (id : String) (p : Plan) → adopted id (build p) ≡ build p
unfolding build new_io_task_node new_motor_task_node new_delay_task_node new_condition_task_node
    new_sequence_task_node
adopted-build id (io _ c now) = refl
adopted-build id (motor _ c now) = refl
adopted-build id (delay _ c now) = refl
adopted-build id (condition _ c now) = refl
adopted-build id (sequence _ ps mode stop now) =
    rw (add_children_lem _ _ no_nodes (build_all ps)) refl

adopt_all-build_all : (id : String) (ps : Plans) → adopt_all id (build_all ps) ≡ build_all ps
unfolding build
adopt_all-build_all id no_plans = refl
adopt_all-build_all id (plan p ps) = rw (adopted-build id p, adopt_all-build_all id ps) refl

build-sequence :
    (id : String) (ps : Plans) (mode : String) (stop : Bool) (now : ℕ)
    → build (sequence id ps mode stop now)
      ≡ node
          (new_base_task_node id command_sequence (sequence_table (build_all ps) mode stop) now)
          (sequence_node (build_all ps) mode stop)
          (build_all ps)
unfolding build new_sequence_task_node
build-sequence id ps mode stop now =
    add_children_lem b c no_nodes (build_all ps) ∙ ap (node b c) (adopt_all-build_all b.id ps)
  where
    b : BaseTaskNode
    b = new_base_task_node id command_sequence (sequence_table (build_all ps) mode stop) now

    c : Concrete
    c = sequence_node (build_all ps) mode stop

-- Id, device and type of a command.
abbrev pub Heading : Type 0
Heading = String × String × String

abbrev pub heading : MotionCommand → Heading
heading c = (c.id, c.device_id, c.command_type)

-- What the leaves of the tree ask for, from left to right.
abbrev mutual
  pub leaves : Plan → List Heading
  leaves (io id c now) = (append id "-io", c.device_id, command_io) ∷ []
  leaves (motor id c now) = (append id "-motor", c.device_id, command_motor_control) ∷ []
  leaves (delay id c now) = (append id "-delay", "system", command_delay) ∷ []
  leaves (condition id c now) = (append id "-condition", c.device_id, command_condition) ∷ []
  leaves (sequence id ps mode stop now) = all_leaves ps

  pub all_leaves : Plans → List Heading
  all_leaves no_plans = []
  all_leaves (plan p ps) = leaves p ++ all_leaves ps

abbrev pub IsPlanned : List Heading → Bool → Commands → Type 0
IsPlanned hs known (inl e) = known ≡ false
IsPlanned hs known (inr cs) = (known ≡ true) × (map heading cs ≡ hs)

map-heading-append :
    (cs ds : List MotionCommand) → map heading (cs ++ ds) ≡ map heading cs ++ map heading ds
map-heading-append [] ds = refl
map-heading-append (c ∷ cs) ds = ap (λ hs. heading c ∷ hs) (map-heading-append cs ds)

module _ (show : Value → String) (show_duration : ℕ → String) (utf8 : String → List ℕ)
    (half : Float64 → Float64) (whole : Float64 → ℕ) (config : SystemConfig) (devices : GoMap ℕ)
    (now : ℕ) where
  -- The devices of all leaves for input and output or a motor are known.
  abbrev mutual
    pub is_known : Plan → Bool
    is_known (io id c at) = is_some (GoMap.get devices c.device_id)
    is_known (motor id c at) = is_some (GoMap.get devices c.device_id)
    is_known (delay id c at) = true
    is_known (condition id c at) = true
    is_known (sequence id ps mode stop at) = are_known ps

    pub are_known : Plans → Bool
    are_known no_plans = true
    are_known (plan p ps) = is_known p && are_known ps

  abbrev decomposed : Plan → Outcome Commands
  decomposed p = decompose_task_node show show_duration utf8 half whole config devices now (build p)

  abbrev decomposed_all : Plans → Outcome Commands
  decomposed_all ps =
      decompose_children show show_duration utf8 half whole config devices now (build_all ps)

  if_device_lem :
      (d : String) (c : MotionCommand)
      → IsPlanned
          (heading c ∷ [])
          (is_some (GoMap.get devices d))
          (if_device show show_duration utf8 half whole config devices now d c)
  if_device_lem d c = go (GoMap.get devices d)
    where
      go :
          (o : Option ℕ)
          → IsPlanned
              (heading c ∷ [])
              (is_some o)
              (elim o [ none ↦ inl (device_not_found d) | some _ ↦ inr (c ∷ []) ])
      go none = refl
      go (some x) = (refl, refl)

  io_lem :
      (id : String) (c : IoCommand) (at : ℕ)
      → Returns (IsPlanned (leaves (io id c at)) (is_known (io id c at))) (decomposed (io id c at))
  unfolding build new_io_task_node new_base_task_node decompose_task_node by_type decompose_io_node
      field
  io_lem id c at = if_device_lem c.device_id _

  abbrev IsHeaded : Heading → Outcome MotionCommand → Type 0
  IsHeaded h = Returns (λ m. heading m ≡ h)

  -- The command of a motor node has the heading that it is given, whatever the action is.
  motor_command_lem :
      (h : Heading) (make : List ℕ → MotionCommand) (c : MotorCommand)
      → ((bytes : List ℕ) → heading (make bytes) ≡ h)
      → IsHeaded h (
          motor_command show show_duration utf8 half whole config devices now c.action c.motor_id
            make
            (motor_table c))
  unfolding motor_command field
  motor_command_lem h make c e = if_holds (IsHeaded h) (str_eq c.action "start") (e _) (
      if_holds (IsHeaded h) (str_eq c.action "stop") (e _) (
        if_holds (IsHeaded h) (str_eq c.action "set_speed") (e _)
          (if_holds (IsHeaded h) (str_eq c.action "set_position") (e _) (e _))))

  motor_lem :
      (id : String) (c : MotorCommand) (at : ℕ)
      → Returns
          (IsPlanned (leaves (motor id c at)) (is_known (motor id c at)))
          (decomposed (motor id c at))
  unfolding build new_motor_task_node new_base_task_node decompose_task_node by_type
      decompose_motor_node field
  motor_lem id c at = go (GoMap.get devices c.device_id)
    where
      h : Heading
      h = (append id "-motor", c.device_id, command_motor_control)

      made : Outcome MotionCommand
      made =
          motor_command show show_duration utf8 half whole config devices now c.action c.motor_id
            (λ bytes.
              plain show show_duration utf8 half whole config devices now (append id "-motor")
                c.device_id command_motor_control bytes (10 * one_second))
            (motor_table c)

      go :
          (o : Option ℕ)
          → Returns (IsPlanned (h ∷ []) (is_some o)) (elim o [
            | none ↦ returns (inl (device_not_found c.device_id))
            | some _ ↦ and_then made λ m. returns (inr (m ∷ []))
          ])
      go none = refl
      go (some x) =
          and_then-Returns (λ m. heading m ≡ h) (IsPlanned (h ∷ []) true) made
            (λ m. returns (inr (m ∷ []))) (motor_command_lem h _ c (λ bytes. refl))
            (λ m k. (refl, ap (λ y. y ∷ []) k))

  joined_lem :
      (id : String) (hs is : List Heading) (k l : Bool) (later : Outcome Commands) (one : Commands)
      → Returns (IsPlanned is l) later
      → IsPlanned hs k one
      → Returns
          (IsPlanned (hs ++ is) (k && l))
          (joined show show_duration utf8 half whole config devices now id later one)
  joined_lem id hs is k l later (inl e) r h = rw h refl
  joined_lem id hs is k l (returns (inl e)) (inr cs) r h = ground (arith, r, h.0)
  joined_lem id hs is k l (returns (inr ds)) (inr cs) r h =
      (ground (arith, r.0, h.0), map-heading-append cs ds ∙ rw (h.1, r.1) refl)
  joined_lem id hs is k l panics (inr cs) r h = absurd r
  joined_lem id hs is k l deadlocks (inr cs) r h = absurd r

  mutual
    unfolding build decompose_task_node by_type decompose_delay_node decompose_condition_node
        new_base_task_node new_delay_task_node new_condition_task_node field

    each-IsPlanned : (p : Plan) → Returns (IsPlanned (leaves p) (is_known p)) (decomposed p)
    each-IsPlanned (io id c at) = io_lem id c at
    each-IsPlanned (motor id c at) = motor_lem id c at
    each-IsPlanned (delay id c at) = (refl, refl)
    each-IsPlanned (condition id c at) = (refl, refl)
    each-IsPlanned (sequence id ps mode stop at) =
        rw (build-sequence id ps mode stop at) (all-IsPlanned ps)

    all-IsPlanned :
        (ps : Plans) → Returns (IsPlanned (all_leaves ps) (are_known ps)) (decomposed_all ps)
    all-IsPlanned no_plans = (refl, refl)
    all-IsPlanned (plan p ps) =
        and_then-Returns (IsPlanned (leaves p) (is_known p))
          (IsPlanned (leaves p ++ all_leaves ps) (is_known p && are_known ps)) (decomposed p) _
          (each-IsPlanned p)
          λ one h.
            joined_lem (base_of (build p)).id (leaves p) (all_leaves ps) (is_known p) (are_known ps)
              (decomposed_all ps) one (all-IsPlanned ps) h

  -- Decomposing a tree that the constructors of nodes have made never panics. It succeeds exactly if
  -- the devices of all leaves for input and output and for motors are known, with one command for each
  -- leaf, from left to right, that has the leaf's id, device and type.
  pub decompose_task_node-IsPlanned :
      (p : Plan)
      → Returns
          (IsPlanned (leaves p) (is_known p))
          (decompose_task_node show show_duration utf8 half whole config devices now (build p))
  decompose_task_node-IsPlanned = each-IsPlanned
