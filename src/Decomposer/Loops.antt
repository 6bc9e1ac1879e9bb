-- ===== src/Decomposer/Loops.antt =====
-- internal/core/decomposer.go: the commands that a task is decomposed into.
use go_control.Prelude.{
  String, ◌≡◌, refl, ap, true, some, List, [], ◌∷◌, ◌++◌, ◌⊎◌, inl, inr, All, All-append,
  All_weaken, length, length-append, arith, Option-cases,
}
use go_control.GoMap
use go_control.Types.{SystemConfig, AxisConfig, MotionCommand}
use go_control.Decomposer.{DecomposeError, per_axis}

-- `P` holds of the commands, if there are any.
abbrev pub Commands : (List MotionCommand → Type 0) → DecomposeError ⊎ List MotionCommand → Type 0
Commands P (inl e) = Unit
Commands P (inr cs) = P cs

-- The task has an axis that is configured with this device.
pub record IsAxisDevice (config : SystemConfig) (axes : List String) (device : String)
    : Type 0 where
  pub axis : String
  pub before : List String
  pub behind : List String
  pub listed : axes ≡ before ++ axis ∷ behind
  pub limits : AxisConfig
  pub configured : GoMap.get config.axes axis ≡ some limits
  pub same : limits.device_id ≡ device

abbrev pub AreAxisDevices : SystemConfig → List String → List MotionCommand → Type 0
AreAxisDevices config axes = All (λ c. IsAxisDevice config axes c.device_id)

module _ (config : SystemConfig) where
  later :
      (axis : String) (rest : List String) (device : String)
      → IsAxisDevice config rest device
      → IsAxisDevice config (axis ∷ rest) device
  later axis rest device d = record {
    axis = d.axis;
    before = axis ∷ d.before;
    behind = d.behind;
    listed = ap (◌∷◌ axis) d.listed;
    limits = d.limits;
    configured = d.configured;
    same = d.same;
  }

  pub per_axis-AreAxisDevices :
      (f : AxisConfig → List MotionCommand)
      → ((a : AxisConfig) → All (λ c. a.device_id ≡ c.device_id) (f a))
      → (axes : List String) → AreAxisDevices config axes (per_axis config f axes)
  unfolding per_axis
  per_axis-AreAxisDevices f own [] = tt
  per_axis-AreAxisDevices f own (axis ∷ rest) =
      let behind =
        All_weaken _ _ _ (λ c. later axis rest c.device_id) (per_axis-AreAxisDevices f own rest) in
      elim (Option-cases (GoMap.get config.axes axis)) [
        | inl e ↦ rw (e, per_axis) behind
        | inr (a, e) ↦
            rw (e, per_axis)
              (All-append _ (f a) _
                (All_weaken _ _ (f a)
                  (λ c same. record {
                    axis = axis;
                    before = [];
                    behind = rest;
                    listed = refl;
                    limits = a;
                    configured = e;
                    same = same;
                  })
                  (own a))
                behind)
      ]

  -- With every axis configured, one command for each makes as many commands as axes.
  pub length-per_axis :
      (f : AxisConfig → List MotionCommand)
      → ((a : AxisConfig) → length (f a) ≡ 1)
      → (axes : List String) → All (λ axis. GoMap.has config.axes axis ≡ true) axes
      → length (per_axis config f axes) ≡ length axes
  unfolding per_axis
  length-per_axis f one [] h = refl
  length-per_axis f one (axis ∷ rest) h = elim (Option-cases (GoMap.get config.axes axis)) [
    | inl e ↦ absurd (ground (arith, h.0))
    | inr (a, e) ↦
        rw (e, per_axis)
          (omega (
            arith,
            length-append (f a) (per_axis config f rest),
            one a,
            length-per_axis f one rest h.1,
          ))
  ]
