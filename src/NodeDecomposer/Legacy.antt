-- ===== src/NodeDecomposer/Legacy.antt =====
-- internal/core/tasknode_decomposer.go against internal/core/decomposer.go, on a task with no root node.
use go_control.Prelude.{
  ℕ, String, ◌≡◌, ap, ◌∙◌, Bool, true, false, Option, none, some, List, ◌⊎◌, inl, inr, str_eq,
  arith,
}
use go_control.Outcome.{returns}
use go_control.GoMap.{GoMap}
use go_control.Types.{
  Task, MotionCommand, SystemConfig, Float64, command_home, command_stop, command_jog,
  command_move_to, command_move_relative,
}
use go_control.Decomposer
use go_control.Decomposer.{TrajectoryPlanner, DecomposeError, validate_task, decompose}
use go_control.Nodes.{Value}
use go_control.NodeDecomposer
use go_control.NodeDecomposer.{decompose_task, finish_legacy, unsupported_legacy, Error}

-- The type is one of those for which no trajectory is planned.
abbrev pub IsUnplanned : String → Type 0
IsUnplanned kind = (kind ≡ command_home) ⊎ (kind ≡ command_stop) ⊎ (kind ≡ command_jog)

-- The commands of a result, under another error.
abbrev relabel : Error → DecomposeError ⊎ List MotionCommand → Error ⊎ List MotionCommand
relabel e (inl x) = inl e
relabel e (inr cs) = inr cs

abbrev succeeds : {A B : Type 0} → A ⊎ B → Bool
succeeds (inl a) = false
succeeds (inr b) = true

equals : (x k c : String) → x ≡ k → str_eq x c ≡ str_eq k c
equals x k c e = ap (λ (y : String). str_eq y c) e

module _ (show : Value → String) (show_duration : ℕ → String) (utf8 : String → List ℕ)
    (half : Float64 → Float64) (whole : Float64 → ℕ) (config : SystemConfig) (devices : GoMap ℕ)
    (now : ℕ) (itoa : ℕ → String) (clock : ℕ → ℕ) (planner : TrajectoryPlanner)
    (above : Float64 → Float64 → Bool) where
  same_commands :
      (t : Task)
      → IsUnplanned t.kind
      → NodeDecomposer.commands_of half config now t ≡ Decomposer.commands_of planner half config t
  unfolding NodeDecomposer.commands_of NodeDecomposer.decompose_home NodeDecomposer.decompose_stop
      NodeDecomposer.decompose_jog Decomposer.commands_of Decomposer.decompose_home
      Decomposer.decompose_stop Decomposer.decompose_jog
  same_commands t (inl e) = simp (
    equals t.kind _ command_move_to e,
    equals t.kind _ command_move_relative e,
    equals t.kind _ command_home e,
  )
  same_commands t (inr (inl e)) = simp (
    equals t.kind _ command_move_to e,
    equals t.kind _ command_move_relative e,
    equals t.kind _ command_home e,
    equals t.kind _ command_stop e,
  )
  same_commands t (inr (inr e)) = simp (
    equals t.kind _ command_move_to e,
    equals t.kind _ command_move_relative e,
    equals t.kind _ command_home e,
    equals t.kind _ command_stop e,
    equals t.kind _ command_jog e,
  )

  -- For a task to home, stop or jog with no root node that TaskDecomposer finds valid, DecomposeTask of
  -- the node decomposer returns the commands that TaskDecomposer returns.
  pub decompose_task-decompose :
      (t : Task) (cs : List MotionCommand)
      → IsUnplanned t.kind
      → decompose itoa clock planner half above config t ≡ inr cs
      → decompose_task show show_duration utf8 half whole config devices now itoa clock none t
        ≡ returns (inr cs)
  unfolding decompose_task decompose
  decompose_task-decompose t cs k h = ap returns (
      ap (finish_legacy show show_duration utf8 half whole config devices now itoa clock t)
        (same_commands t k)
      ∙ go (validate_task above config (some t)) h)
    where
      finished :
          (o : Option (List MotionCommand))
          → Decomposer.finish itoa clock t o ≡ inr cs
          → finish_legacy show show_duration utf8 half whole config devices now itoa clock t o
            ≡ inr cs
      finished none f = ap (relabel (unsupported_legacy t.kind)) f
      finished (some ds) f = ap (relabel (unsupported_legacy t.kind)) f

      go :
          (e : Option DecomposeError)
          → Decomposer.after_validation itoa clock planner half above config t e ≡ inr cs
          → finish_legacy show show_duration utf8 half whole config devices now itoa clock t
              (Decomposer.commands_of planner half config t)
            ≡ inr cs
      go (some e) f = absurd (ground (arith, ap succeeds f))
      go none f = finished (Decomposer.commands_of planner half config t) f
