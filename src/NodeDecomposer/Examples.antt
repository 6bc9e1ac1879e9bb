-- ===== src/NodeDecomposer/Examples.antt =====
-- internal/core/tasknode_decomposer.go: a plan of three leaves, a configuration and a task to stop, and
-- the theorems at them.
use go_control.Prelude.{
  ℕ, String, ◌≡◌, refl, Bool, true, false, Option, none, List, [], ◌∷◌, inl, inr,
}
use go_control.GoMap
use go_control.GoMap.{GoMap}
use go_control.Outcome.{returns, Returns, Holds}
use go_control.Types.{Task, MotionCommand, Float64, command_stop, high}
use go_control.Samples.{zero_float, a_task, one_axis}
use go_control.Decomposer
use go_control.Decomposer.{TrajectoryPlanner, decompose}
use go_control.Nodes.{
  IoCommand, Value, Table, text, items, value, no_values, table, entry, no_entries,
}
use go_control.NodeDecomposer.{decompose_task_node, decompose_task, set_device}
use go_control.NodeDecomposer.Creation.{create_task_node_from_config}
use go_control.NodeDecomposer.Built.{IsDecomposable, create_task_node_from_config-IsDecomposable}
use go_control.NodeDecomposer.Plans.{
  Plan, io, delay, sequence, plan, no_plans, build, leaves, is_known, IsPlanned,
  decompose_task_node-IsPlanned,
}
use go_control.NodeDecomposer.Legacy.{decompose_task-decompose}

abbrev show : Value → String
show v = "1.00"

abbrev show_duration : ℕ → String
show_duration n = "1s"

abbrev utf8 : String → List ℕ
utf8 s = []

abbrev half : Float64 → Float64
half x = x

abbrev whole : Float64 → ℕ
whole x = 1

abbrev itoa : ℕ → String
itoa n = "0"

abbrev clock : ℕ → ℕ
clock i = i

abbrev parse_duration : String → Option ℕ
parse_duration s = none

abbrev above : Float64 → Float64 → Bool
above x y = false

abbrev planner : TrajectoryPlanner
planner = record { plan_linear = λ p q v a. none; plan_point_to_point = λ p q v a. none }

abbrev lamp : IoCommand
lamp = record {
  device_id = "plc";
  channel = "DO1";
  action = "set";
  value = zero_float;
  threshold = zero_float;
  timeout = 1000;
}

abbrev devices : GoMap ℕ
devices = set_device "plc" 7 GoMap.empty

abbrev blink : Plan
blink =
    sequence "blink"
      (plan (io "on" lamp 1) (
        plan (delay "wait" (record { duration = 500; unit = "ms" }) 2)
          (plan (io "off" lamp 3) no_plans)))
      "sequential" true 4

decompose_task_node-IsPlanned_example :
    Returns
      (IsPlanned
        (leaves blink)
        (is_known show show_duration utf8 half whole one_axis devices 9 blink))
      (decompose_task_node show show_duration utf8 half whole one_axis devices 9 (build blink))
decompose_task_node-IsPlanned_example =
    decompose_task_node-IsPlanned show show_duration utf8 half whole one_axis devices 9 blink

abbrev configured : Table
configured =
    entry "children"
      (items (
        value (table (entry "type" (text "io") (entry "channel" (text "DO1") no_entries)))
          (value (table (entry "type" (text "delay") no_entries)) no_values)))
      no_entries

create_task_node_from_config-IsDecomposable_example :
    Holds
      (IsDecomposable (decompose_task_node show show_duration utf8 half whole one_axis devices 9))
      (create_task_node_from_config itoa clock parse_duration whole "sequence" configured 0)
create_task_node_from_config-IsDecomposable_example =
    create_task_node_from_config-IsDecomposable itoa clock parse_duration show show_duration utf8
      half whole one_axis devices 9 "sequence" configured 0

abbrev stop_task : Task
stop_task = record (a_task "halt" high) { kind = command_stop }

abbrev halt : MotionCommand
halt =
    record (Decomposer.command "x" command_stop Decomposer.zero_point
      (Decomposer.straight zero_float) (Decomposer.straight zero_float) 0) {
        id = "halt-cmd-0";
        timestamp = 0;
        timeout = 1000;
      }

halt_expected : decompose itoa clock planner half above one_axis stop_task ≡ inr (halt ∷ [])
unfolding decompose Decomposer.validate_task Decomposer.check_axes Decomposer.check_axis
    Decomposer.commands_of Decomposer.decompose_stop Decomposer.per_axis Decomposer.numbered
    GoMap.get GoMap.put GoMap.empty
halt_expected = refl

decompose_task-decompose_example :
    decompose_task show show_duration utf8 half whole one_axis devices 9 itoa clock none stop_task
    ≡ returns (inr (halt ∷ []))
decompose_task-decompose_example =
    decompose_task-decompose show show_duration utf8 half whole one_axis devices 9 itoa clock
      planner above stop_task (halt ∷ []) (inr (inl refl)) halt_expected
