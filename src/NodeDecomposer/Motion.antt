-- ===== src/NodeDecomposer/Motion.antt =====
-- internal/core/tasknode_decomposer.go: the motions of a task.
use go_control.Prelude.{ℕ, Option, none, some, List, [], ◌∷◌, str_eq, if◌then◌else◌}
use go_control.Types.{
  Task, SystemConfig, Float64, MotionCommand, command_move_to, command_move_relative, command_home,
  command_stop, command_jog,
}
use go_control.Decomposer.{per_axis, command, zero_float, zero_point, straight}

-- The four motions that are one command per axis; the planner is not asked.
module _ (half : Float64 → Float64) (config : SystemConfig) (now : ℕ) where
  -- decomposeMoveTo and decomposeMoveRelative, which are the same.
  unfoldable pub decompose_move : Task → List MotionCommand
  decompose_move t =
      per_axis config
        (λ a. command a.device_id t.kind t.target t.velocity (straight a.max_acceleration) now ∷ [])
        t.axes

  unfoldable pub decompose_home : Task → List MotionCommand
  decompose_home t =
      per_axis config
        (λ a.
          command a.device_id command_home
            (record { x = a.home_position; y = zero_float; z = zero_float })
            (straight (half a.max_velocity)) (straight (half a.max_acceleration)) 0
          ∷ [])
        t.axes

  unfoldable pub decompose_stop : Task → List MotionCommand
  decompose_stop t =
      per_axis config
        (λ a.
          command a.device_id command_stop zero_point (straight zero_float) (straight zero_float) 0
          ∷ [])
        t.axes

  unfoldable pub decompose_jog : Task → List MotionCommand
  decompose_jog t =
      per_axis config
        (λ a.
          command a.device_id command_jog t.target t.velocity (straight a.max_acceleration) 0 ∷ [])
        t.axes

  -- The `switch` of decomposeLegacyTask and of decomposeMotionNode.
  unfoldable pub commands_of : Task → Option (List MotionCommand)
  commands_of t =
      if str_eq t.kind command_move_to
      then some (decompose_move t)
      else if str_eq t.kind command_move_relative
      then some (decompose_move t)
      else if str_eq t.kind command_home
      then some (decompose_home t)
      else if str_eq t.kind command_stop
      then some (decompose_stop t)
      else if str_eq t.kind command_jog
      then some (decompose_jog t)
      else none
