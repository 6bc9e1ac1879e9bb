-- ===== src/Decomposer/Examples.antt =====
-- internal/core/decomposer.go: a task to home one axis, and the theorems at it.
use go_control.Prelude.{ℕ, String, Bool, ltb, none}
use go_control.GoMap
use go_control.Types.{Float64, Task, medium}
use go_control.Samples.{a_task}
use go_control.Decomposer.{TrajectoryPlanner}

abbrev above : Float64 → Float64 → Bool
above a b = ltb b.bits a.bits

abbrev no_planner : TrajectoryPlanner
no_planner = record {
  plan_linear = λ start end velocity accel. none;
  plan_point_to_point = λ start end velocity accel. none;
}

abbrev same : Float64 → Float64
same x = x

abbrev digit : ℕ → String
digit n = "0"

abbrev clock : ℕ → ℕ
clock i = 5

abbrev homing : Task
homing = a_task "job7" medium
