-- ===== src/GoMap.antt =====
-- Go's `map[string]V`. The representation is private: clients have `map_laws` and the bounds on
-- `len`. No entry shadows another for `get`, whatever the list holds.
mod Entries
use Entries.{lookup, without, keep, lookup-without, lookup-keep, without_absent, length-without-le}
use Entries.{lookup-member, length-without_lt, length-keep-le, revalue, lookup-revalue}
pub use Entries.{apply}
use go_control.Prelude.{
  ℕ, ◌+◌, ◌≤◌, ◌<◌, String, ◌≡◌, refl, ap, Bool, Option, none, some, List, [], ◌∷◌, map, arith,
  str_eq, if◌then◌else◌, length, is_some, member, true,
}

pub record GoMap {ℓ} (V : Type ℓ) : Type ℓ where
  entries : List (String × V)

module _ {ℓ} {V : Type ℓ} where
  -- make(map[string]V)
  unfoldable pub empty : GoMap V
  empty = record { entries = [] }

  -- v, exists := m[k]
  unfoldable pub get : GoMap V → String → Option V
  unfolding lookup
  get m k = lookup k m.entries

  -- m[k] = v
  unfoldable pub put : GoMap V → String → V → GoMap V
  unfolding without
  put m k v = record { entries = (k, v) ∷ without k m.entries }

  -- delete(m, k)
  unfoldable pub remove : GoMap V → String → GoMap V
  unfolding without
  remove m k = record { entries = without k m.entries }

  -- len(m)
  unfoldable pub size : GoMap V → ℕ
  size m = length m.entries

  -- for k, v := range m { if !keep(v) { delete(m, k) } }
  pub retain : (V → Bool) → GoMap V → GoMap V
  retain p m = record { entries = keep p m.entries }

  -- for k := range m { m[k] = f(m[k]) }
  pub map_values : (V → V) → GoMap V → GoMap V
  map_values f m = record { entries = revalue f m.entries }

  -- One order in which `range` may visit the keys.
  unfoldable pub keys : GoMap V → List String
  keys m = map (λ e. e.0) m.entries

  pub keys_visit : (m : GoMap V) (k : String) (v : V) → get m k ≡ some v → member k (keys m) ≡ true
  unfolding get keys
  keys_visit m k v h = lookup-member k v m.entries h

  -- The values, in one order in which `range` may visit them.
  unfoldable pub values : GoMap V → List V
  values m = map (λ e. e.1) m.entries

  abbrev pub has : GoMap V → String → Bool
  has m k = is_some (get m k)

  abbrev keep_some : (V → Bool) → Option V → Option V
  keep_some p none = none
  keep_some p (some v) = if p v then some v else none

  pub get-empty : (k : String) → get empty k ≡ none
  unfolding get empty
  get-empty k = refl

  pub get-remove :
      (m : GoMap V) (k j : String) → get (remove m k) j ≡ (if str_eq k j then none else get m j)
  unfolding get remove
  get-remove m k j = lookup-without k j m.entries

  pub get-put :
      (m : GoMap V) (k j : String) (v : V)
      → get (put m k v) j ≡ (if str_eq k j then some v else get m j)
  unfolding get put
  get-put m k j v = ground (arith, lookup-without k j m.entries)

  pub get-retain :
      (p : V → Bool) (m : GoMap V) (k : String) → get (retain p m) k ≡ keep_some p (get m k)
  unfolding get retain
  get-retain p m k = lookup-keep p k m.entries

  pub get-map_values :
      (f : V → V) (m : GoMap V) (k : String) → get (map_values f m) k ≡ apply f (get m k)
  unfolding get map_values
  get-map_values f m k = lookup-revalue f k m.entries

  pub size-remove-le : (m : GoMap V) (k : String) → size (remove m k) ≤ size m
  unfolding size remove
  size-remove-le m k = length-without-le k m.entries

  pub size-remove_lt :
      (m : GoMap V) (k : String) {v : V} → get m k ≡ some v → size (remove m k) < size m
  unfolding size remove get
  size-remove_lt m k h = length-without_lt k m.entries h

  pub size-put-le : (m : GoMap V) (k : String) (v : V) → size (put m k v) ≤ size m + 1
  unfolding size put
  size-put-le m k v = omega (arith, length-without-le k m.entries)

  pub size-put_fresh :
      (m : GoMap V) (k : String) (v : V) → get m k ≡ none → size (put m k v) ≡ size m + 1
  unfolding size put get
  size-put_fresh m k v h = omega (arith, ap length (without_absent k m.entries h))

  pub size-retain-le : (p : V → Bool) (m : GoMap V) → size (retain p m) ≤ size m
  unfolding size retain
  size-retain-le p m = length-keep-le p m.entries

pub ruleset map_laws = (get-empty, get-remove, get-put, get-retain)
