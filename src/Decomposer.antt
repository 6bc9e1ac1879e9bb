-- ===== src/Decomposer.antt =====
-- internal/core/decomposer.go: the decomposition of a task into motion commands. The planner is an
-- interface of the source and a parameter here: a plan is a list of points, or an error (`none`),
-- which the decomposer passes over. `above` is the test `>` on float64, `half` is `x * 0.5`,
-- `itoa` prints a number, `clock i` is what the clock says when command `i` is numbered.
pub mod Loops
pub mod Commands
mod Examples
use Prim.Native.String.{◌++◌ as append}
use go_control.Prelude.{
  ℕ, suc, String, Bool, ◌||◌, ◌&&◌, Option, none, some, List, [], ◌∷◌, ◌++◌, ◌⊎◌, inl, inr, str_eq,
  if◌then◌else◌, map,
}
use go_control.GoMap
use go_control.GoMap.{GoMap}
use go_control.Types.{
  Task, SystemConfig, AxisConfig, Float64, Point, Velocity, MotionCommand, command_move_to,
  command_move_relative, command_home, command_stop, command_jog,
}

pub record TrajectoryPoint : Type 0 where
  pub position : Point
  pub velocity : Velocity
  pub timestamp : ℕ

pub record TrajectoryPlanner : Type 0 where
  pub plan_linear : Point → Point → Velocity → Velocity → Option (List TrajectoryPoint)
  pub plan_point_to_point : Point → Point → Velocity → Velocity → Option (List TrajectoryPoint)

pub data DecomposeError : Type 0 where
  no_task no_type no_axes : DecomposeError
  axis_not_found velocity_exceeds x_out_of_bounds unsupported : String → DecomposeError

-- The float64 zero has no bit set.
abbrev pub zero_float : Float64
zero_float = record { bits = 0 }

abbrev pub zero_point : Point
zero_point = record { x = zero_float; y = zero_float; z = zero_float }

abbrev pub straight : Float64 → Velocity
straight v = record { linear = v; angular = zero_float }

-- A command literal with no id, timestamp or timeout yet.
abbrev pub command : String → String → Point → Velocity → Velocity → ℕ → MotionCommand
command device kind position velocity acceleration timestamp = record {
  id = "";
  device_id = device;
  command_type = kind;
  position = position;
  velocity = velocity;
  acceleration = acceleration;
  bytes = [];
  timestamp = timestamp;
  timeout = 0;
}

-- The loop over the axes that the five decompositions share: an axis that is not configured is
-- passed over.
unfoldable pub per_axis :
    SystemConfig → (AxisConfig → List MotionCommand) → List String → List MotionCommand
per_axis config f [] = []
per_axis config f (axis ∷ rest) =
    let later = per_axis config f rest in
    elim (GoMap.get config.axes axis) [ none ↦ later | some a ↦ f a ++ later ]

-- The commands for the points of a plan.
unfoldable pub along : Task → AxisConfig → Option (List TrajectoryPoint) → List MotionCommand
along t a none = []
along t a (some points) =
    map
      (λ p.
        command a.device_id t.kind p.position p.velocity (straight a.max_acceleration) p.timestamp)
      points

module _ (planner : TrajectoryPlanner) (half : Float64 → Float64) (config : SystemConfig) where
  unfoldable pub decompose_move_to : Task → List MotionCommand
  decompose_move_to t =
      per_axis config
        (λ a. along t a (
          planner.plan_point_to_point zero_point t.target t.velocity (straight a.max_acceleration)))
        t.axes

  unfoldable pub decompose_move_relative : Task → List MotionCommand
  decompose_move_relative t =
      per_axis config
        (λ a.
          along t a
            (planner.plan_linear zero_point t.target t.velocity (straight a.max_acceleration)))
        t.axes

  unfoldable pub decompose_home : Task → List MotionCommand
  decompose_home t =
      per_axis config
        (λ a.
          command a.device_id command_home
            (record { x = a.home_position; y = zero_float; z = zero_float })
            (straight (half a.max_velocity)) (straight (half a.max_acceleration)) 0
          ∷ [])
        t.axes

  unfoldable pub decompose_stop : Task → List MotionCommand
  decompose_stop t =
      per_axis config
        (λ a.
          command a.device_id command_stop zero_point (straight zero_float) (straight zero_float) 0
          ∷ [])
        t.axes

  unfoldable pub decompose_jog : Task → List MotionCommand
  decompose_jog t =
      per_axis config
        (λ a.
          command a.device_id command_jog t.target t.velocity (straight a.max_acceleration) 0 ∷ [])
        t.axes

  -- The `switch` on the type of the task.
  unfoldable pub commands_of : Task → Option (List MotionCommand)
  commands_of t =
      if str_eq t.kind command_move_to
      then some (decompose_move_to t)
      else if str_eq t.kind command_move_relative
      then some (decompose_move_relative t)
      else if str_eq t.kind command_home
      then some (decompose_home t)
      else if str_eq t.kind command_stop
      then some (decompose_stop t)
      else if str_eq t.kind command_jog
      then some (decompose_jog t)
      else none

module _ (above : Float64 → Float64 → Bool) (config : SystemConfig) where
  unfoldable pub check_axis : Task → String → Option DecomposeError
  check_axis t axis = elim (GoMap.get config.axes axis) [
    | none ↦ some (axis_not_found axis)
    | some a ↦
        if above t.velocity.linear a.max_velocity
        then some (velocity_exceeds axis)
        else if str_eq t.kind command_move_to
            && (above a.min_position t.target.x || above t.target.x a.max_position)
        then some (x_out_of_bounds axis)
        else none
  ]

  unfoldable pub check_axes : Task → List String → Option DecomposeError
  check_axes t [] = none
  check_axes t (axis ∷ rest) =
      let later = check_axes t rest in elim (check_axis t axis) [ some e ↦ some e | none ↦ later ]

  -- The part of ValidateTask behind the test of the type.
  abbrev pub check_task : Task → List String → Option DecomposeError
  check_task t [] = some no_axes
  check_task t (axis ∷ rest) = check_axes t (axis ∷ rest)

  unfoldable pub validate_task : Option Task → Option DecomposeError
  validate_task none = some no_task
  validate_task (some t) = if str_eq t.kind "" then some no_type else check_task t t.axes

module _ (itoa : ℕ → String) (clock : ℕ → ℕ) where
  abbrev pub command_id : String → ℕ → String
  command_id task_id i = append task_id (append "-cmd-" (itoa i))

  -- The loop that gives the commands from place `i` on their id, timestamp and timeout.
  unfoldable pub numbered : Task → ℕ → List MotionCommand → List MotionCommand
  numbered t i [] = []
  numbered t i (c ∷ cs) =
      record c { id = command_id t.id i; timestamp = clock i; timeout = t.timeout }
      ∷ numbered t (suc i) cs

  abbrev pub finish : Task → Option (List MotionCommand) → DecomposeError ⊎ List MotionCommand
  finish t none = inl (unsupported t.kind)
  finish t (some cs) = inr (numbered t 0 cs)

  module _ (planner : TrajectoryPlanner) (half : Float64 → Float64)
      (above : Float64 → Float64 → Bool) (config : SystemConfig) where
    -- Decompose past the call of ValidateTask.
    abbrev pub after_validation : Task → Option DecomposeError → DecomposeError ⊎ List MotionCommand
    after_validation t (some e) = inl e
    after_validation t none = finish t (commands_of planner half config t)

    unfoldable pub decompose : Task → DecomposeError ⊎ List MotionCommand
    decompose t = after_validation t (validate_task above config (some t))
