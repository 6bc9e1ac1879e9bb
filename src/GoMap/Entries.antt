-- ===== src/GoMap/Entries.antt =====
-- The association list behind a Go map.
use go_control.Prelude.{
  ◌≤◌, ◌<◌, String, ◌≡◌, refl, Bool, Option, none, some, List, [], ◌∷◌, arith, str_eq, eq_iff,
  if◌then◌else◌, length, member, true, map,
}

module _ {ℓ} {V : Type ℓ} where
  -- The value of the first entry under the key.
  unfoldable pub lookup : String → List (String × V) → Option V
  lookup key [] = none
  lookup key (entry ∷ more) = if str_eq entry.0 key then some entry.1 else lookup key more

  -- Every entry under the key goes.
  unfoldable pub without : String → List (String × V) → List (String × V)
  without key [] = []
  without key (entry ∷ more) =
      let others = without key more in if str_eq entry.0 key then others else entry ∷ others

  -- An entry that is dropped takes those which it shadows with it.
  pub keep : (V → Bool) → List (String × V) → List (String × V)
  keep p [] = []
  keep p ((k, v) ∷ l) = let rest = without k (keep p l) in if p v then (k, v) ∷ rest else rest

  pub lookup-without :
      (gone key : String) (entries : List (String × V))
      → lookup key (without gone entries) ≡ (if str_eq gone key then none else lookup key entries)
  unfolding lookup without
  lookup-without gone key [] = ground arith
  lookup-without gone key (entry ∷ more) = ground (
    arith,
    eq_iff gone key,
    eq_iff entry.0 gone,
    eq_iff entry.0 key,
    lookup-without gone key more,
  )

  abbrev keep_some : (V → Bool) → Option V → Option V
  keep_some p none = none
  keep_some p (some v) = if p v then some v else none

  pub lookup-keep :
      (p : V → Bool) (k : String) (l : List (String × V))
      → lookup k (keep p l) ≡ keep_some p (lookup k l)
  unfolding lookup keep
  lookup-keep p k [] = refl
  lookup-keep p k ((j, v) ∷ l) =
      ground (arith, lookup-keep p k l, lookup-without j k (keep p l), eq_iff j k)

  pub without_absent : (k : String) (l : List (String × V)) → lookup k l ≡ none → without k l ≡ l
  unfolding lookup without
  without_absent k [] h = refl
  without_absent k ((j, v) ∷ l) h = ground (arith, without_absent k l)

  pub length-without-le : (k : String) (l : List (String × V)) → length (without k l) ≤ length l
  unfolding without
  length-without-le k [] = omega arith
  length-without-le k ((j, v) ∷ l) = ground (arith, length-without-le k l)

  pub length-without_lt :
      (k : String) (l : List (String × V)) {v : V}
      → lookup k l ≡ some v
      → length (without k l) < length l
  unfolding without lookup
  length-without_lt k [] h = cc
  length-without_lt k ((j, w) ∷ l) {v} h =
      ground (arith, length-without-le k l, length-without_lt k l {v = v})

  pub length-keep-le : (p : V → Bool) (l : List (String × V)) → length (keep p l) ≤ length l
  unfolding keep
  length-keep-le p [] = omega arith
  length-keep-le p ((k, v) ∷ l) = ground (arith, length-keep-le p l, length-without-le k (keep p l))

  -- Each value is replaced.
  pub revalue : (V → V) → List (String × V) → List (String × V)
  revalue f [] = []
  revalue f ((k, v) ∷ l) = (k, f v) ∷ revalue f l

  abbrev pub apply : (V → V) → Option V → Option V
  apply f none = none
  apply f (some v) = some (f v)

  pub lookup-revalue :
      (f : V → V) (k : String) (l : List (String × V))
      → lookup k (revalue f l) ≡ apply f (lookup k l)
  unfolding lookup revalue
  lookup-revalue f k [] = refl
  lookup-revalue f k ((j, v) ∷ l) = ground (arith, lookup-revalue f k l)

  pub lookup-member :
      (k : String) (v : V) (l : List (String × V))
      → lookup k l ≡ some v
      → member k (map (λ e. e.0) l) ≡ true
  unfolding lookup
  lookup-member k v [] h = cc
  lookup-member k v ((j, w) ∷ l) h = ground (arith, lookup-member k v l)
