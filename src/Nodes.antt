-- ===== src/Nodes.antt =====
-- pkg/types/tasknode.go: the nodes of a task. A node is a tree here, which owns its children; one that
-- two parents share is not modelled. A concrete node embeds a `*BaseTaskNode`, whose methods it takes
-- over as they are. `parent` names the parent by its id. Times are read off the clock by the caller.
mod Tables
mod Kinds
pub mod Lifecycle
pub mod Specific
mod Examples
unfoldable pub use Tables.*
unfoldable pub use Kinds.*
use go_control.Prelude.{
  ℕ, String, Bool, true, false, Option, none, some, str_eq, if◌then◌else◌, ◌+◌,
}
use go_control.Types.{TaskStatus, running, completed, failed, cancelled, pending}

abbrev pub base_of : TaskNode → BaseTaskNode
base_of (node b c children) = b

abbrev pub children_of : TaskNode → TaskNodes
children_of (node b c children) = children

abbrev pub with_base : BaseTaskNode → TaskNode → TaskNode
with_base b (node _ c children) = node b c children

unfoldable pub new_base_task_node : String → String → Table → ℕ → BaseTaskNode
new_base_task_node id kind params now = record {
  id = id;
  kind = kind;
  status = pending;
  parameters = params;
  parent = none;
  metadata = no_entries;
  start_time = now;
  end_time = none;
  cancel_func = none;
}

unfoldable pub appended : TaskNodes → TaskNode → TaskNodes
appended no_nodes n = next_node n no_nodes
appended (next_node m rest) n = next_node m (appended rest n)

-- The assertion `node.(*BaseTaskNode)` holds of no concrete node.
abbrev pub adopted : String → TaskNode → TaskNode
adopted id (node b base_node children) = node (record b { parent = some id }) base_node children
adopted id (node b c children) = node b c children

unfoldable pub add_child : TaskNode → TaskNode → TaskNode
add_child (node b c children) n = node b c (appended children (adopted b.id n))

-- The children without the first of this id, if there is one.
unfoldable pub removed : String → TaskNodes → Option TaskNodes
removed id no_nodes = none
removed id (next_node n rest) =
    let later = removed id rest in
    if str_eq (base_of n).id id
    then some rest
    else elim later [ none ↦ none | some kept ↦ some (next_node n kept) ]

unfoldable pub remove_child : String → TaskNode → TaskNode × Option NodeError
remove_child id (node b c children) = elim (removed id children) [
  | none ↦ (node b c children, some (child_not_found id))
  | some kept ↦ (node b c kept, none)
]

unfoldable pub validate : TaskNode → Option NodeError
validate n =
    if str_eq (base_of n).id ""
    then some empty_id
    else if str_eq (base_of n).kind ""
    then some empty_type
    else none

abbrev pub is_ended : TaskStatus → Bool
is_ended completed = true
is_ended failed = true
is_ended cancelled = true
is_ended _ = false

unfoldable pub set_status : TaskStatus → ℕ → BaseTaskNode → BaseTaskNode
set_status s now b =
    if is_ended s then record b { status = s; end_time = some now } else record b { status = s }

unfoldable pub set_metadata : String → Value → BaseTaskNode → BaseTaskNode
set_metadata key v b = record b { metadata = written b.metadata key v }

-- BaseTaskNode.executeSpecific.
unfoldable pub execute_specific : BaseTaskNode → Option NodeError
execute_specific b = some not_implemented

abbrev pub finish : ℕ → BaseTaskNode → Option NodeError → BaseTaskNode × Option NodeError
finish later b (some e) = (set_status failed later b, some e)
finish later b none = (record b { status = completed; end_time = some later }, none)

-- Execute; `done` is whether the context is done. The call of executeSpecific is one of the method of
-- BaseTaskNode, whatever the concrete node is.
unfoldable pub execute : Bool → ℕ → ℕ → BaseTaskNode → BaseTaskNode × Option NodeError
execute done now later b =
    let begun : BaseTaskNode = record b { start_time = now; status = running } in
    if done
    then (set_status cancelled later begun, some context_done)
    else finish later begun (execute_specific begun)

unfoldable pub execute_node : Bool → ℕ → ℕ → TaskNode → TaskNode × Option NodeError
execute_node done now later (node b c children) =
    let (after, e) = execute done now later b in (node after c children, e)

abbrev pub is_running : TaskStatus → Bool
is_running running = true
is_running _ = false

-- Cancel, and the context that it cancels.
unfoldable pub cancel : ℕ → BaseTaskNode → BaseTaskNode × Option ℕ
cancel now b =
    if is_running b.status
    then (record b { status = cancelled; end_time = some now }, b.cancel_func)
    else (b, b.cancel_func)

unfoldable pub set_cancel_func : ℕ → BaseTaskNode → BaseTaskNode
set_cancel_func c b = record b { cancel_func = some c }

abbrev pub io_table : IoCommand → Table
io_table c = entry "device_id" (device c.device_id) (
    entry "channel" (text c.channel) (
      entry "action" (text c.action) (
        entry "value" (number c.value) (
          entry "threshold" (number c.threshold)
            (entry "timeout" (duration c.timeout) no_entries)))))

unfoldable pub new_io_task_node : String → IoCommand → ℕ → TaskNode
new_io_task_node id c now =
    node (new_base_task_node id command_io (io_table c) now) (io_node c) no_nodes

abbrev pub motor_table : MotorCommand → Table
motor_table c = entry "device_id" (device c.device_id) (
    entry "motor_id" (text c.motor_id) (
      entry "action" (text c.action) (
        entry "speed" (number c.speed) (
          entry "position" (place c.position) (
            entry "acceleration" (number c.acceleration) (
              entry "torque" (number c.torque) (
                entry "direction" (int c.direction)
                  (entry "enable" (boolean c.enable) no_entries))))))))

unfoldable pub new_motor_task_node : String → MotorCommand → ℕ → TaskNode
new_motor_task_node id c now =
    node (new_base_task_node id command_motor_control (motor_table c) now) (motor_node c) no_nodes

abbrev pub delay_table : DelayCommand → Table
delay_table c = entry "duration" (duration c.duration) (entry "unit" (text c.unit) no_entries)

unfoldable pub new_delay_task_node : String → DelayCommand → ℕ → TaskNode
new_delay_task_node id c now =
    node (new_base_task_node id command_delay (delay_table c) now) (delay_node c) no_nodes

abbrev pub count : TaskNodes → ℕ
count no_nodes = 0
count (next_node n rest) = 1 + count rest

abbrev pub sequence_table : TaskNodes → String → Bool → Table
sequence_table nodes mode stop_on_error = entry "mode" (text mode) (
    entry "stop_on_error" (boolean stop_on_error)
      (entry "node_count" (int (pos (count nodes))) no_entries))

-- The loop of AddChild.
unfoldable pub add_children : TaskNode → TaskNodes → TaskNode
add_children n no_nodes = n
add_children n (next_node m rest) = add_children (add_child n m) rest

unfoldable pub new_sequence_task_node : String → TaskNodes → String → Bool → ℕ → TaskNode
new_sequence_task_node id nodes mode stop_on_error now =
    add_children
      (node (new_base_task_node id command_sequence (sequence_table nodes mode stop_on_error) now)
        (sequence_node nodes mode stop_on_error) no_nodes)
      nodes

abbrev pub condition_table : ConditionCommand → Table
condition_table c = entry "condition" (text c.condition) (
    entry "device_id" (device c.device_id) (
      entry "channel" (text c.channel) (
        entry "target_value" (number c.target_value) (
          entry "tolerance" (number c.tolerance) (
            entry "timeout" (duration c.timeout)
              (entry "poll_interval" (duration c.poll_interval) no_entries))))))

unfoldable pub new_condition_task_node : String → ConditionCommand → ℕ → TaskNode
new_condition_task_node id c now =
    node (new_base_task_node id command_condition (condition_table c) now) (condition_node c)
      no_nodes
