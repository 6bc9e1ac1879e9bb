-- ===== src/Nodes/Specific.antt =====
-- pkg/types/tasknode.go: executeSpecific of the concrete nodes. `done` is whether the context is done
-- when a `select` looks at it; `clock` and `dones` give the time and the state of the context at the
-- execution of each child.
use go_control.Prelude.{
  ◌⊎◌, inl, inr, ◌↔◌, eq_iff, ap, All, Bool-cases, ℕ, zero, suc, String, ◌≡◌, refl, Bool, true,
  false, ◌||◌, Option, none, some, List, [], ◌∷◌, ◌++◌, str_eq, if◌then◌else◌, is_some, arith,
}
use go_control.Outcome.{Outcome, returns, panics}
use go_control.Nodes.Lifecycle.{execute_node_fails}
use go_control.Nodes.{
  text, boolean, int64, IoCommand, MotorCommand, ConditionCommand, BaseTaskNode, TaskNode, node,
  base_node, TaskNodes, no_nodes, next_node, NodeError, context_done, unsupported_io,
  unsupported_motor, unsupported_mode, condition_timeout, failed_at, parallel_failed, base_of,
  set_metadata, execute_node, set_cancel_func,
}

unfoldable pub io_specific : IoCommand → BaseTaskNode → BaseTaskNode × Option NodeError
io_specific c b =
    if str_eq c.action "set"
    then (set_metadata "action_type" (text "io_set") b, none)
    else if str_eq c.action "read"
    then (set_metadata "action_type" (text "io_read") b, none)
    else if str_eq c.action "toggle"
    then (set_metadata "action_type" (text "io_toggle") b, none)
    else (b, some (unsupported_io c.action))

unfoldable pub motor_specific : MotorCommand → BaseTaskNode → BaseTaskNode × Option NodeError
motor_specific c b =
    if str_eq c.action "start"
      || str_eq c.action "stop"
      || str_eq c.action "set_speed"
      || str_eq c.action "set_position"
    then (set_metadata "action_type" (text "motor_control") b, none)
    else if str_eq c.action "get_status"
    then (set_metadata "action_type" (text "motor_status_query") b, none)
    else (b, some (unsupported_motor c.action))

-- `done` is whether the context ends before the delay does.
unfoldable pub delay_specific : Bool → BaseTaskNode → BaseTaskNode × Option NodeError
delay_specific done b =
    (set_metadata "action_type" (text "delay") b, if done then some context_done else none)

unfoldable pub check_condition : ConditionCommand → ℕ → BaseTaskNode → BaseTaskNode × Bool
check_condition c now b =
    let checked = set_metadata "last_check" (int64 now) b in
    if str_eq c.condition "position_reached"
    then (set_metadata "condition_result" (text "simulated_position_check") checked, true)
    else if str_eq c.condition "io_state"
    then (set_metadata "condition_result" (text "simulated_io_check") checked, true)
    else (checked, false)

-- What wakes the `select` of the polling loop.
pub data Wake : Type 0 where
  timed_out context_over : Wake
  ticked : ℕ → Wake

-- The loop, as far as the list of its wakes goes: `none` is a loop that goes on.
unfoldable pub poll :
    ConditionCommand → List Wake → BaseTaskNode → BaseTaskNode × Option (Option NodeError)
poll c [] b = (b, none)
poll c (timed_out ∷ more) b = (b, some (some (condition_timeout c.condition)))
poll c (context_over ∷ more) b = (b, some (some context_done))
poll c (ticked now ∷ more) b =
    let (checked, met) = check_condition c now b in
    let rest = poll c more checked in
    if met then (set_metadata "condition_met" (boolean true) checked, some none) else rest

-- The conditions that a check finds to hold.
abbrev pub IsMet : ConditionCommand → Type 0
IsMet c = (c.condition ≡ "position_reached") ⊎ (c.condition ≡ "io_state")

-- A wake at which the loop ends: the timeout, the end of the context, and a tick if the condition holds.
abbrev pub Decides : ConditionCommand → Wake → Type 0
Decides c timed_out = Unit
Decides c context_over = Unit
Decides c (ticked now) = IsMet c

-- What executeSpecific returns then.
abbrev pub answer : ConditionCommand → Wake → Option NodeError
answer c timed_out = some (condition_timeout c.condition)
answer c context_over = some context_done
answer c (ticked now) = none

-- The loop ends at the first deciding wake with its answer, or there is none and it goes on.
abbrev pub Polled : ConditionCommand → List Wake → Option (Option NodeError) → Type 0
Polled c wakes result =
    ((xs : List Wake) × (w : Wake) × (ys : List Wake) × (wakes ≡ xs ++ w ∷ ys)
      × All (λ x. ¬ Decides c x) xs
      × Decides c w
      × (result ≡ some (answer c w)))
    ⊎ (All (λ x. ¬ Decides c x) wakes × (result ≡ none))

abbrev is_met : ConditionCommand → Bool
is_met c = str_eq c.condition "position_reached" || str_eq c.condition "io_state"

is_met_iff : (c : ConditionCommand) → (is_met c ≡ true) ↔ IsMet c
is_met_iff c = ground (arith, eq_iff c.condition "position_reached", eq_iff c.condition "io_state")

check_condition-is_met :
    (c : ConditionCommand) (now : ℕ) (b : BaseTaskNode) → (check_condition c now b).1 ≡ is_met c
unfolding check_condition
check_condition-is_met c now b = ground arith

Polled-behind :
    (c : ConditionCommand) (x : Wake) (wakes : List Wake) (result : Option (Option NodeError))
    → ¬ Decides c x
    → Polled c wakes result
    → Polled c (x ∷ wakes) result
Polled-behind c x wakes result goes_on (inl (xs, w, ys, split, a, d, e)) =
    inl (x ∷ xs, w, ys, ap (◌∷◌ x) split, (goes_on, a), d, e)
Polled-behind c x wakes result goes_on (inr (a, e)) = inr ((goes_on, a), e)

-- The polling loop of a condition node ends at the first wake that is the timeout, the end of the
-- context, or, for the two conditions that a check finds to hold, a tick, with the answer of that wake:
-- the timeout error, the context's error, or success. As long as there is no such wake it goes on.
pub poll_ends :
    (c : ConditionCommand) (wakes : List Wake) (b : BaseTaskNode)
    → Polled c wakes (poll c wakes b).1
unfolding poll
poll_ends c [] b = inr (tt, refl)
poll_ends c (timed_out ∷ more) b = inl ([], timed_out, more, refl, tt, tt, refl)
poll_ends c (context_over ∷ more) b = inl ([], context_over, more, refl, tt, tt, refl)
poll_ends c (ticked now ∷ more) b = elim (Bool-cases (is_met c)) [
  | inl met ↦
      rw (check_condition-is_met c now b)
        (rw met (inl ([], ticked now, more, refl, tt, (is_met_iff c).0 met, refl)))
  | inr unmet ↦ rw (check_condition-is_met c now b) (
      rw unmet (
        Polled-behind c (ticked now) more _ (λ met. cc ((is_met_iff c).1 met, unmet))
          (poll_ends c more (check_condition c now b).0)))
]

-- A ticker with no positive interval panics.
unfoldable pub condition_specific :
    ConditionCommand → List Wake → BaseTaskNode → Outcome (BaseTaskNode × Option (Option NodeError))
condition_specific c wakes b = elim c.poll_interval [
  | zero ↦ panics
  | suc n ↦ returns (poll c wakes (set_metadata "action_type" (text "condition_check") b))
]

-- SetCancelFunc on a child that is a `*BaseTaskNode`.
abbrev pub cancellable : ℕ → TaskNode → TaskNode
cancellable c (node b base_node children) = node (set_cancel_func c b) base_node children
cancellable c (node b k children) = node b k children

module _ (dones : ℕ → Bool) (clock : ℕ → ℕ) where
  -- The execution of the child at place `i`, in a context of its own.
  unfoldable pub execute_child : ℕ → TaskNode → TaskNode × Option NodeError
  execute_child i n = execute_node (dones i) (clock i) (clock (suc i)) (cancellable i n)

  -- executeSequential from place `i` on.
  unfoldable pub execute_sequential : Bool → ℕ → TaskNodes → TaskNodes × Option NodeError
  execute_sequential stop i no_nodes = (no_nodes, none)
  execute_sequential stop i (next_node n rest) =
      let (done, e) = execute_child i n in
      let (later, last) = execute_sequential stop (suc i) rest in
      elim e [
        | none ↦ (next_node done later, last)
        | some x ↦
            if stop
            then (next_node done rest, some (failed_at (base_of n).id x))
            else (next_node done later, last)
      ]

  -- The children of executeParallel after wg.Wait, and the errors sent by them.
  unfoldable pub execute_all : ℕ → TaskNodes → TaskNodes × List NodeError
  execute_all i no_nodes = (no_nodes, [])
  execute_all i (next_node n rest) =
      let (done, e) = execute_child i n in
      let (later, errors) = execute_all (suc i) rest in
      (next_node done later, elim e [ none ↦ errors | some x ↦ x ∷ errors ])

  abbrev pub first_error : Bool → List NodeError → Option NodeError
  first_error stop [] = none
  first_error stop (e ∷ more) = if stop then some (parallel_failed e) else none

  -- `arrival` puts the errors into the order in which they reach the channel.
  unfoldable pub execute_parallel :
      (List NodeError → List NodeError) → Bool → TaskNodes → TaskNodes × Option NodeError
  execute_parallel arrival stop nodes =
      let (done, errors) = execute_all 0 nodes in (done, first_error stop (arrival errors))

  -- executeSpecific of a sequence node.
  unfoldable pub sequence_specific :
      (List NodeError → List NodeError) → TaskNodes → String → Bool → TaskNodes × Option NodeError
  sequence_specific arrival nodes mode stop =
      if str_eq mode "sequential"
      then execute_sequential stop 0 nodes
      else if str_eq mode "parallel"
      then execute_parallel arrival stop nodes
      else (nodes, some (unsupported_mode mode))

  execute_child_fails : (i : ℕ) (n : TaskNode) → is_some (execute_child i n).1 ≡ true
  unfolding execute_child
  execute_child_fails i n =
      (execute_node_fails (dones i) (clock i) (clock (suc i)) (cancellable i n)).0

  goes_on : (i : ℕ) (nodes : TaskNodes) → is_some (execute_sequential false i nodes).1 ≡ false
  unfolding execute_sequential
  goes_on i no_nodes = refl
  goes_on i (next_node n rest) = ground (arith, goes_on (suc i) rest)

  -- executeSequential of one node or more returns an error if it stops on errors, and none otherwise.
  pub execute_sequential_error :
      (stop : Bool) (i : ℕ) (n : TaskNode) (rest : TaskNodes)
      → is_some (execute_sequential stop i (next_node n rest)).1 ≡ stop
  unfolding execute_sequential
  execute_sequential_error true i n rest = ground (arith, execute_child_fails i n)
  execute_sequential_error false i n rest = goes_on i (next_node n rest)
