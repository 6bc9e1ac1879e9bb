-- ===== src/Resources/Examples.antt =====
-- internal/hal/resource_manager.go: the theorems on concrete resources.
use go_control.Prelude.{◌≡◌, refl, none, [], ◌∷◌, inl, inr}
use go_control.GoMap
use go_control.Samples.{one_axis}
use go_control.Resources.{
  ResourceManager, Request, new_resource_manager, register_resource, register_all, check_all,
  check_ids, get_resource, allocate_all, allocate_ids, initialize_hardware_resources,
  is_resource_allocated, allocate_for_task, release_for_task, allocate,
}
use go_control.Resources.Tasks.{
  Settled, allocate_for_task-Settled, release_for_task-allocate_for_task,
}

abbrev hardware : ResourceManager
hardware =
    initialize_hardware_resources ("axis-x" ∷ "axis-y" ∷ []) ("arm" ∷ []) 0
      (new_resource_manager one_axis)

abbrev two_axes : Request
two_axes = ("axis", "axis-x" ∷ "axis-y" ∷ []) ∷ ("device", "arm" ∷ []) ∷ []

abbrev undo_order : Request
undo_order = ("device", "arm" ∷ []) ∷ ("axis", "axis-x" ∷ "axis-y" ∷ []) ∷ []

allocate_for_task-Settled_example :
    Settled two_axes hardware (allocate_for_task two_axes two_axes undo_order 5 hardware)
allocate_for_task-Settled_example =
    allocate_for_task-Settled two_axes two_axes undo_order 5 hardware
      ((refl, (refl, tt)), (((refl, (refl, tt)), ((refl, tt), tt))))
      (inr (inl refl), (inl refl, tt)) (inl refl, (inr (inl refl), tt))
      (inr (inl refl), (inl refl, tt))

-- The request is granted.
granted_two : (allocate_for_task two_axes two_axes undo_order 5 hardware).1 ≡ none
unfolding register_all initialize_hardware_resources register_resource allocate_for_task check_all
    check_ids is_resource_allocated get_resource allocate_all allocate_ids allocate GoMap.get
    GoMap.put GoMap.empty
granted_two = refl

release_for_task-allocate_for_task_example :
    is_resource_allocated "axis" "axis-y"
      (release_for_task undo_order 9
        (allocate_for_task two_axes two_axes undo_order 5 hardware).0).0
    ≡ is_resource_allocated "axis" "axis-y" hardware
release_for_task-allocate_for_task_example =
    release_for_task-allocate_for_task two_axes two_axes undo_order undo_order 5 9 hardware "axis"
      "axis-y" ((refl, (refl, tt)), (((refl, (refl, tt)), ((refl, tt), tt))))
      (inr (inl refl), (inl refl, tt)) (inl refl, (inr (inl refl), tt))
      (inr (inl refl), (inl refl, tt)) (inr (inl refl), (inl refl, tt))
      (inr (inl refl), (inl refl, tt)) granted_two

free_arm : (allocate "device" "arm" 5 hardware).1 ≡ none
unfolding register_all initialize_hardware_resources register_resource allocate GoMap.get GoMap.put
    GoMap.empty
free_arm = refl
