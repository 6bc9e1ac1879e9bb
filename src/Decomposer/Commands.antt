-- ===== src/Decomposer/Commands.antt =====
-- internal/core/decomposer.go: the devices, the ids and the number of a task's commands.
use Prim.Native.String.{◌++◌ as append}
use text.Mathlib.TextLemmas.{append_assoc}
use go_control.Prelude.{
  ℕ, suc, String, ◌≡◌, refl, sym, subst, Bool, false, Option, none, some, List, [], ◌∷◌, str_eq,
  All, if_holds,
}
use go_control.GoMap
use go_control.Types.{
  Task, SystemConfig, AxisConfig, Float64, MotionCommand, command_move_to, command_move_relative,
  command_home, command_stop, command_jog,
}
use go_control.Queue.{extract_task_id}
use go_control.Queue.TaskIds.{has_dash, extract_task_id-append}
use go_control.Decomposer.{
  TrajectoryPlanner, TrajectoryPoint, DecomposeError, along, decompose_move_to,
  decompose_move_relative, decompose_home, decompose_stop, decompose_jog, commands_of,
  validate_task, command_id, numbered, finish, after_validation, decompose,
}
use go_control.Decomposer.Loops.{Commands, AreAxisDevices, per_axis-AreAxisDevices}

-- What holds of the commands before they are numbered, if the type is supported.
abbrev Planned : (List MotionCommand → Type 0) → Option (List MotionCommand) → Type 0
Planned P none = Unit
Planned P (some cs) = P cs

along-own :
    (t : Task) (a : AxisConfig) (plan : Option (List TrajectoryPoint))
    → All (λ c. a.device_id ≡ c.device_id) (along t a plan)
unfolding along
along-own t a none = tt
along-own t a (some points) = go points
  where
    go : (ps : List TrajectoryPoint) → All (λ c. a.device_id ≡ c.device_id) (along t a (some ps))
    go [] = tt
    go (p ∷ ps) = (refl, go ps)

module _ (planner : TrajectoryPlanner) (half : Float64 → Float64) (config : SystemConfig) where
  commands_of-AreAxisDevices :
      (t : Task) → Planned (AreAxisDevices config t.axes) (commands_of planner half config t)
  unfolding commands_of decompose_move_to decompose_move_relative decompose_home decompose_stop
      decompose_jog
  commands_of-AreAxisDevices t =
      if_holds P (str_eq t.kind command_move_to)
        (per_axis-AreAxisDevices config _ (λ a. along-own t a _) t.axes)
        (if_holds P (str_eq t.kind command_move_relative)
          (per_axis-AreAxisDevices config _ (λ a. along-own t a _) t.axes)
          (if_holds P (str_eq t.kind command_home)
            (per_axis-AreAxisDevices config _ (λ a. (refl, tt)) t.axes)
            (if_holds P (str_eq t.kind command_stop)
              (per_axis-AreAxisDevices config _ (λ a. (refl, tt)) t.axes)
              (if_holds P (str_eq t.kind command_jog)
                (per_axis-AreAxisDevices config _ (λ a. (refl, tt)) t.axes) tt))))
    where
      P : Option (List MotionCommand) → Type 0
      P = Planned (AreAxisDevices config t.axes)

module _ (itoa : ℕ → String) (clock : ℕ → ℕ) where
  numbered-AreAxisDevices :
      (config : SystemConfig) (axes : List String) (t : Task) (i : ℕ) (cs : List MotionCommand)
      → AreAxisDevices config axes cs
      → AreAxisDevices config axes (numbered itoa clock t i cs)
  unfolding numbered
  numbered-AreAxisDevices config axes t i [] h = tt
  numbered-AreAxisDevices config axes t i (c ∷ cs) h =
      (h.0, numbered-AreAxisDevices config axes t (suc i) cs h.1)

  extract_task_id-command_id :
      (id : String) (i : ℕ)
      → has_dash id ≡ false
      → extract_task_id (command_id itoa clock id i) ≡ id
  extract_task_id-command_id id i h =
      subst (λ (r : String). extract_task_id (append id r) ≡ id) dash
        (extract_task_id-append id (append "cmd-" (itoa i)) h)
    where
      dash : append "-" (append "cmd-" (itoa i)) ≡ append "-cmd-" (itoa i)
      dash = sym (append_assoc "-" "cmd-" (itoa i))

  numbered-task_id :
      (t : Task) (i : ℕ) (cs : List MotionCommand)
      → has_dash t.id ≡ false
      → All
          (λ c. (extract_task_id c.id ≡ t.id) × (c.timeout ≡ t.timeout))
          (numbered itoa clock t i cs)
  unfolding numbered
  numbered-task_id t i [] h = tt
  numbered-task_id t i (c ∷ cs) h =
      ((extract_task_id-command_id t.id i h, refl), numbered-task_id t (suc i) cs h)

  module _ (planner : TrajectoryPlanner) (half : Float64 → Float64)
      (above : Float64 → Float64 → Bool) (config : SystemConfig) (t : Task) where
    -- Every command that a task is decomposed into is for the device of one of the task's axes, as
    -- the configuration has it.
    pub decompose-AreAxisDevices :
        Commands (AreAxisDevices config t.axes) (decompose itoa clock planner half above config t)
    unfolding decompose
    decompose-AreAxisDevices = go (validate_task above config (some t))
      where
        planned :
            (o : Option (List MotionCommand))
            → Planned (AreAxisDevices config t.axes) o
            → Commands (AreAxisDevices config t.axes) (finish itoa clock t o)
        planned none h = tt
        planned (some cs) h = numbered-AreAxisDevices config t.axes t 0 cs h

        go :
            (e : Option DecomposeError)
            → Commands
                (AreAxisDevices config t.axes)
                (after_validation itoa clock planner half above config t e)
        go (some e) = tt
        go none = planned _ (commands_of-AreAxisDevices planner half config t)

    -- If a task's id has no dash, the execution queue files each of its commands under the id of
    -- the task; each has the timeout of the task.
    pub decompose-task_id :
        has_dash t.id ≡ false
        → Commands
            (All (λ c. (extract_task_id c.id ≡ t.id) × (c.timeout ≡ t.timeout)))
            (decompose itoa clock planner half above config t)
    unfolding decompose
    decompose-task_id h = go (validate_task above config (some t))
      where
        planned :
            (o : Option (List MotionCommand))
            → Commands
                (All (λ c. (extract_task_id c.id ≡ t.id) × (c.timeout ≡ t.timeout)))
                (finish itoa clock t o)
        planned none = tt
        planned (some cs) = numbered-task_id t 0 cs h

        go :
            (e : Option DecomposeError)
            → Commands
                (All (λ c. (extract_task_id c.id ≡ t.id) × (c.timeout ≡ t.timeout)))
                (after_validation itoa clock planner half above config t e)
        go (some e) = tt
        go none = planned (commands_of planner half config t)
