-- ===== src/Trigger/Validation.antt =====
-- internal/core/trigger.go: what ValidateTrigger accepts.
use go_control.Prelude.{
  ℕ, String, ◌≡◌, ◌≢◌, refl, inl, inr, Bool, false, none, some, List, [], ◌∷◌, arith, eq_iff, All,
  Option-cases, ◌↔◌,
}
use go_control.GoMap
use go_control.Types.{Task, SystemConfig, AxisConfig, Float64}
use go_control.Trigger.{check_axis, check_axes, validate_trigger, with_timeout}

module _ (above : Float64 → Float64 → Bool) (config : SystemConfig) where
  -- The axis is configured, the target lies within its bounds, and the speed is not above its own.
  pub record IsWithinAxis (t : Task) (axis : String) : Type 0 where
    pub limits : AxisConfig
    pub configured : GoMap.get config.axes axis ≡ some limits
    pub x_above_min : above limits.min_position t.target.x ≡ false
    pub x_below_max : above t.target.x limits.max_position ≡ false
    pub y_above_min : above limits.min_position t.target.y ≡ false
    pub y_below_max : above t.target.y limits.max_position ≡ false
    pub slow_enough : above t.velocity.linear limits.max_velocity ≡ false

  check_axis-none :
      (t : Task) (axis : String) → check_axis above config t axis ≡ none → IsWithinAxis t axis
  unfolding check_axis
  check_axis-none t axis h = elim (Option-cases (GoMap.get config.axes axis)) [
    | inl e ↦ absurd (ground arith)
    | inr (a, e) ↦ record {
      limits = a;
      configured = e;
      x_above_min = ground arith;
      x_below_max = ground arith;
      y_above_min = ground arith;
      y_below_max = ground arith;
      slow_enough = ground arith;
    }
  ]

  check_axis_accepts :
      (t : Task) (axis : String) → IsWithinAxis t axis → check_axis above config t axis ≡ none
  unfolding check_axis
  check_axis_accepts t axis w = ground (
    arith, w.configured, w.x_above_min, w.x_below_max, w.y_above_min, w.y_below_max, w.slow_enough,
  )

  check_axes-none :
      (t : Task) (axes : List String)
      → check_axes above config t axes ≡ none
      → All (IsWithinAxis t) axes
  unfolding check_axes
  check_axes-none t [] h = tt
  check_axes-none t (axis ∷ rest) h =
      (check_axis-none t axis (ground arith), check_axes-none t rest (ground arith))

  check_axes_accepts :
      (t : Task) (axes : List String)
      → All (IsWithinAxis t) axes
      → check_axes above config t axes ≡ none
  unfolding check_axes
  check_axes_accepts t [] h = refl
  check_axes_accepts t (axis ∷ rest) h =
      ground (arith, check_axis_accepts t axis h.0, check_axes_accepts t rest h.1)

  pub record IsValid (t : Task) : Type 0 where
    pub has_type : t.kind ≢ ""
    pub has_axes : t.axes ≢ []
    pub within : All (IsWithinAxis t) t.axes

  -- The default for the timeout is nothing that the checks look at.
  check_axes-with_timeout :
      (t : Task) (axes : List String)
      → check_axes above config (with_timeout t) axes ≡ check_axes above config t axes
  unfolding check_axes check_axis
  check_axes-with_timeout t [] = refl
  check_axes-with_timeout t (axis ∷ rest) = ground (arith, check_axes-with_timeout t rest)

  -- ValidateTrigger returns no error for a task exactly if the task has a type and an axis, and
  -- each of its axes is configured with limits that the target and the speed keep.
  pub validate_trigger-IsValid :
      (p : ℕ) (heap : ℕ → Task)
      → ((validate_trigger above config (some p) heap).1 ≡ none) ↔ IsValid (heap p)
  unfolding validate_trigger
  validate_trigger-IsValid p heap = (accepted, valid)
    where
      t : Task
      t = heap p

      accepted : (validate_trigger above config (some p) heap).1 ≡ none → IsValid t
      accepted h = record {
        has_type = ground (arith, h, eq_iff t.kind "");
        has_axes = ground (arith, h);
        within = check_axes-none t t.axes (ground (arith, h, check_axes-with_timeout t t.axes));
      }

      valid : IsValid t → (validate_trigger above config (some p) heap).1 ≡ none
      valid v = ground (
        arith,
        check_axes-with_timeout t t.axes,
        check_axes_accepts t t.axes v.within,
        v.has_type,
        v.has_axes,
        eq_iff t.kind "",
      )
