-- ===== src/NodeDecomposer/Parameters.antt =====
-- internal/core/tasknode_decomposer.go: how the parameters of a node are read. A type assertion that
-- fails panics.
use go_control.Prelude.{ℕ, String, Option, none, some, List, [], ◌∷◌}
use go_control.Outcome.{Outcome, returns, panics, and_then}
use go_control.Types.{Float64, Point, Velocity}
use go_control.Decomposer.{zero_float, zero_point, straight}
use go_control.Nodes.{
  Value, Values, Table, nil, text, device, number, table, items, no_values, value, field,
}

abbrev pub one_second : ℕ
one_second = 1000000000

-- `x.(string)` and `x.(float64)`, where a missing or nil value leaves the zero value.
abbrev pub as_text : Option Value → Outcome String
as_text none = returns ""
as_text (some nil) = returns ""
as_text (some (text s)) = returns s
as_text (some _) = panics

abbrev pub as_number : Option Value → Outcome Float64
as_number none = returns zero_float
as_number (some nil) = returns zero_float
as_number (some (number x)) = returns x
as_number (some _) = panics

-- The `switch` on the type of `params["device_id"]`.
abbrev pub device_of : Option Value → String
device_of (some (text s)) = s
device_of (some (device s)) = s
device_of _ = "device-1"

unfoldable pub read_point : Table → Outcome Point
read_point t = and_then (as_number (field t "x")) λ x.
    and_then (as_number (field t "y"))
      λ y. and_then (as_number (field t "z")) λ z. returns (record { x = x; y = y; z = z })

abbrev pub target_of : Option Value → Outcome Point
target_of (some (table t)) = read_point t
target_of _ = returns zero_point

unfoldable pub read_velocity : Table → Outcome Velocity
read_velocity t = and_then (as_number (field t "linear")) λ linear.
    and_then (as_number (field t "angular"))
      λ angular. returns (record { linear = linear; angular = angular })

abbrev pub velocity_of : Option Value → Outcome Velocity
velocity_of (some (table t)) = read_velocity t
velocity_of _ = returns (straight zero_float)

abbrev pub read_axis : Value → Outcome (List String) → Outcome (List String)
read_axis nil rest = rest
read_axis (text axis) rest = and_then rest λ axes. returns (axis ∷ axes)
read_axis _ rest = panics

unfoldable pub read_axes : Values → Outcome (List String)
read_axes no_values = returns []
read_axes (value v more) = read_axis v (read_axes more)

abbrev pub axes_of : Option Value → Outcome (List String)
axes_of (some (items vs)) = read_axes vs
axes_of _ = returns []
