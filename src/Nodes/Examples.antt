-- ===== src/Nodes/Examples.antt =====
-- pkg/types/tasknode.go: a sequence of a delay and a digital output, and the theorems at it.
use go_control.Prelude.{◌≡◌, true, false, some, is_some, [], ◌∷◌}
use go_control.Types.{failed}
use go_control.Samples.{zero_float}
use go_control.Nodes.{
  ConditionCommand, IoCommand, TaskNode, node, no_nodes, next_node, no_entries, base_node,
  new_base_task_node, new_delay_task_node, base_of, children_of, execute_node,
}
use go_control.Nodes.Lifecycle.{
  created, stepped, executed, IsTimed, execute_node_fails, Reachable-IsTimed,
}
use go_control.Nodes.Specific.{poll, Polled, poll_ends, ticked, timed_out}

abbrev pause : TaskNode
pause = new_delay_task_node "pause" (record { duration = 500; unit = "ms" }) 3

abbrev lamp : IoCommand
lamp = record {
  device_id = "plc";
  channel = "DO1";
  action = "set";
  value = zero_float;
  threshold = zero_float;
  timeout = 1000;
}

abbrev root : TaskNode
root = node (new_base_task_node "root" "sequence" no_entries 0) base_node (next_node pause no_nodes)

execute_node_fails_example :
    (is_some (execute_node false 5 6 pause).1 ≡ true)
    × ((base_of (execute_node false 5 6 pause).0).status ≡ failed)
    × ((base_of (execute_node false 5 6 pause).0).end_time ≡ some 6)
    × (children_of (execute_node false 5 6 pause).0 ≡ children_of pause)
execute_node_fails_example = execute_node_fails false 5 6 pause

Reachable-IsTimed_example : IsTimed (execute_node false 5 6 root).0
Reachable-IsTimed_example = Reachable-IsTimed (execute_node false 5 6 root).0 (
    stepped root (execute_node false 5 6 root).0
      (created "root" "sequence" no_entries 0 base_node (next_node pause no_nodes))
      (executed false 5 6 root))

abbrev reached : ConditionCommand
reached = record {
  condition = "speed_achieved";
  device_id = "x";
  channel = "";
  target_value = zero_float;
  tolerance = zero_float;
  timeout = 50;
  poll_interval = 10;
}

poll_ends_example :
    Polled reached
      (ticked 10 ∷ ticked 20 ∷ timed_out ∷ [])
      (poll reached (ticked 10 ∷ ticked 20 ∷ timed_out ∷ []) (base_of pause)).1
poll_ends_example = poll_ends reached (ticked 10 ∷ ticked 20 ∷ timed_out ∷ []) (base_of pause)
