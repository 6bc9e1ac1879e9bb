-- ===== src/Nodes/Tables.antt =====
-- pkg/types/tasknode.go: what the parameters and the metadata of a node hold.
use go_control.Prelude.{ℕ, String, Bool, Option, none, some, List, str_eq, if◌then◌else◌}
use go_control.Types.{Float64, Point}

-- An `int`.
pub data ℤ : Type 0 where
  pos negsuc : ℕ → ℤ

-- What an `interface{}` of the parameters holds, and a `map[string]interface{}` as its entries. An
-- `int64` is not negative.
mutual
  pub data Value : Type 0 where
    nil : Value
    text device : String → Value
    number : Float64 → Value
    int : ℤ → Value
    int64 duration : ℕ → Value
    boolean : Bool → Value
    place : Point → Value
    table : Table → Value
    items : Values → Value
    texts : List String → Value

  pub data Values : Type 0 where
    no_values : Values
    value : Value → Values → Values

  pub data Table : Type 0 where
    no_entries : Table
    entry : String → Value → Table → Table

unfoldable pub field : Table → String → Option Value
field no_entries key = none
field (entry k v rest) key = let later = field rest key in if str_eq k key then some v else later

-- The table has no two entries for a key: a write replaces the entry.
unfoldable pub written : Table → String → Value → Table
written no_entries key v = entry key v no_entries
written (entry k w rest) key v =
    let later = written rest key v in if str_eq k key then entry k v rest else entry k w later
