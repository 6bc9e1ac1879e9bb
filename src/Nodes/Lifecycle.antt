-- ===== src/Nodes/Lifecycle.antt =====
-- pkg/types/tasknode.go: what becomes of a node.
use go_control.Prelude.{
  ℕ, String, ◌≡◌, refl, inl, inr, Bool, true, false, none, some, str_eq, is_some, arith, eq_iff,
  Bool-cases, Option-cases,
}
use go_control.Types.{TaskStatus, failed, cancelled}
use go_control.Nodes.{
  io_node, motor_node, delay_node, sequence_node, condition_node, Value, Table, TaskNode, node,
  base_node, TaskNodes, no_nodes, next_node, Concrete, base_of, children_of, with_base,
  new_base_task_node, appended, adopted, add_child, removed, remove_child, is_ended, set_status,
  set_metadata, execute_specific, execute, execute_node, cancel, set_cancel_func,
}

abbrev ended_as : Bool → TaskStatus
ended_as true = cancelled
ended_as false = failed

-- Execute of any node, whatever its type is, returns an error and leaves the node failed, or cancelled
-- if the context is done; it never completes one.
pub execute_node_fails :
    (done : Bool) (now later : ℕ) (n : TaskNode)
    → let result = execute_node done now later n in
      (is_some result.1 ≡ true)
      × ((base_of result.0).status ≡ ended_as done)
      × ((base_of result.0).end_time ≡ some later)
      × (children_of result.0 ≡ children_of n)
unfolding execute_node execute execute_specific set_status
execute_node_fails true now later (node b c children) = (refl, refl, refl, refl)
execute_node_fails false now later (node b c children) = (refl, refl, refl, refl)

-- One call of an operation of a node.
pub data Step : TaskNode → TaskNode → Type 0 where
  executed :
      (done : Bool) → (now later : ℕ) → (n : TaskNode) → Step n (execute_node done now later n).0
  cancelled_at : (now : ℕ) → (n : TaskNode) → Step n (with_base (cancel now (base_of n)).0 n)
  status_set :
      (s : TaskStatus)
      → (now : ℕ) → (n : TaskNode) → Step n (with_base (set_status s now (base_of n)) n)
  metadata_set :
      (key : String)
      → (v : Value) → (n : TaskNode) → Step n (with_base (set_metadata key v (base_of n)) n)
  cancel_func_set : (c : ℕ) → (n : TaskNode) → Step n (with_base (set_cancel_func c (base_of n)) n)
  child_added : (child n : TaskNode) → Step n (add_child n child)
  child_removed : (id : String) → (n : TaskNode) → Step n (remove_child id n).0

pub data Reachable : TaskNode → Type 0 where
  created :
      (id kind : String)
      → (params : Table) → (now : ℕ) → (c : Concrete) → (children : TaskNodes)
      → Reachable (node (new_base_task_node id kind params now) c children)
  stepped : (n m : TaskNode) → Reachable n → Step n m → Reachable m

abbrev pub IsTimed : TaskNode → Type 0
IsTimed n = is_ended (base_of n).status ≡ true → is_some (base_of n).end_time ≡ true

Step-IsTimed : (n m : TaskNode) → IsTimed n → Step n m → IsTimed m
unfolding execute_node execute execute_specific set_status set_metadata set_cancel_func add_child
    remove_child cancel
Step-IsTimed n m h (executed done now later (node b c children)) =
    λ e. elim (Bool-cases done) [ inl d ↦ rw d refl | inr d ↦ rw d refl ]
Step-IsTimed n m h (cancelled_at now (node b c children)) = ground (arith, h)
Step-IsTimed n m h (status_set t now (node b c children)) = ground (arith, h)
Step-IsTimed n m h (metadata_set key v (node b c children)) = h
Step-IsTimed n m h (cancel_func_set a (node b c children)) = h
Step-IsTimed n m h (child_added child (node b c children)) = h
Step-IsTimed n m h (child_removed id (node b c children)) =
    elim (Option-cases (removed id children)) [
      | inl e ↦ rw (e, remove_child) h
      | inr (kept, e) ↦ rw (e, remove_child) h
    ]

-- However its operations are called, a node that is completed, failed or cancelled has an end time.
pub Reachable-IsTimed : (n : TaskNode) → Reachable n → IsTimed n
unfolding new_base_task_node
Reachable-IsTimed n (created id kind params now c children) = ground arith
Reachable-IsTimed n (stepped before _ r s) = Step-IsTimed before n (Reachable-IsTimed before r) s

id-adopted : (id : String) (n : TaskNode) → (base_of (adopted id n)).id ≡ (base_of n).id
id-adopted id (node b base_node children) = refl
id-adopted id (node b (io_node c) children) = refl
id-adopted id (node b (motor_node c) children) = refl
id-adopted id (node b (delay_node c) children) = refl
id-adopted id (node b (sequence_node nodes mode stop) children) = refl
id-adopted id (node b (condition_node c) children) = refl

removed-appended :
    (id : String) (nodes : TaskNodes) (n : TaskNode)
    → str_eq (base_of n).id id ≡ true
    → removed id nodes ≡ none
    → removed id (appended nodes n) ≡ some nodes
unfolding removed appended
removed-appended id no_nodes n e h = ground (arith, e)
removed-appended id (next_node m rest) n e h = ground (arith, h, removed-appended id rest n e)

-- RemoveChild of a child that was just added restores the node, if no other child has its id.
pub remove_child-add_child :
    (n child : TaskNode)
    → removed (base_of child).id (children_of n) ≡ none
    → remove_child (base_of child).id (add_child n child) ≡ (n, none)
unfolding remove_child add_child
remove_child-add_child (node b c children) child h =
    rw (removed-appended (base_of child).id children (adopted b.id child) same_id h, remove_child)
      refl
  where
    same_id : str_eq (base_of (adopted b.id child)).id (base_of child).id ≡ true
    same_id =
        rw (id-adopted b.id child) (ground (arith, eq_iff (base_of child).id (base_of child).id))
