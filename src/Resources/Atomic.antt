-- ===== src/Resources/Atomic.antt =====
-- internal/hal/resource_manager.go: AllocateForTask and ReleaseForTask as a whole.
use go_control.Prelude.{
  member, ℕ, String, ◌≡◌, refl, sym, subst, inl, inr, Bool, true, false, not, ◌&&◌, ◌||◌, Option,
  none, some, List, [], ◌∷◌, str_eq, eq_iff, if◌then◌else◌, arith, Option-cases, Bool-cases,
  is_some, All,
}
use go_control.Resources.{
  ResourceManager, ResourceError, Request, Failure, allocate, release, is_resource_allocated,
  check_ids, check_all, or_else, allocate_ids, allocate_all, rollback_ids, rollback_allocation,
}
use go_control.Resources.Allocation.{
  same, is_resource_allocated-allocate, allocate_error, is_resource_allocated-release,
}

abbrev pub AreDistinct : List String → Type 0
AreDistinct [] = Unit
AreDistinct (k ∷ ks) = (member k ks ≡ false) × AreDistinct ks

abbrev pub kinds : Request → List String
kinds [] = []
kinds ((k, ids) ∷ more) = k ∷ kinds more

-- No type has two entries, and no id stands twice under a type.
abbrev pub IsRequest : Request → Type 0
IsRequest order = AreDistinct (kinds order) × All (λ g. AreDistinct g.1) order

-- The request asks for this resource.
abbrev pub requested : String → String → Request → Bool
requested u j [] = false
requested u j ((k, ids) ∷ more) = (str_eq k u && member j ids) || requested u j more

abbrev pub stops : Option String → String → Bool
stops none k = false
stops (some y) k = str_eq k y

-- `j` stands in the list, in front of the id at which a loop stops.
abbrev pub before : Option String → String → List String → Bool
before y j [] = false
before y j (k ∷ ks) = not (stops y k) && (str_eq k j || before y j ks)

-- Where a failure leaves a loop over the ids of a type.
abbrev pub limit : Option (String × String) → String → Option String
limit none k = none
limit (some (fk, fi)) k = if str_eq k fk then some fi else none

abbrev pub hit : Option (String × String) → String → String → String × List String → Bool
hit f u j (k, ids) = str_eq k u && before (limit f k) j ids

abbrev pub ends : Option (String × String) → String → Bool
ends none k = false
ends (some (fk, fi)) k = str_eq k fk

-- What the allocating loop has allocated, and what the rollback releases.
abbrev pub allocated_by : Option (String × String) → String → String → Request → Bool
allocated_by f u j [] = false
allocated_by f u j ((k, ids) ∷ more) =
    hit f u j (k, ids) || (not (ends f k) && allocated_by f u j more)

abbrev pub undone_by : Option (String × String) → String → String → Request → Bool
undone_by f u j [] = false
undone_by f u j (g ∷ more) = hit f u j g || undone_by f u j more

abbrev pub id_of : Failure → Option String
id_of none = none
id_of (some (k, y, e)) = some y

abbrev pub place_of : Failure → Option (String × String)
place_of none = none
place_of (some (k, y, e)) = some (k, y)

-- A loop that fails does so at one of its ids, of its own type.
abbrev pub IsOwn : String → List String → Failure → Type 0
IsOwn kind ids none = Unit
IsOwn kind ids (some (k, y, e)) = (k ≡ kind) × (member y ids ≡ true)

abbrev pub Allocates : String → List String → ResourceManager → ResourceManager × Failure → Type 0
Allocates kind ids rm q =
    IsOwn kind ids q.1
    × ((u j : String)
        → is_resource_allocated u j q.0
          ≡ is_resource_allocated u j rm || (str_eq kind u && before (id_of q.1) j ids))

Allocates-more :
    (kind id : String) (ids : List String) (rm one : ResourceManager)
    (q : ResourceManager × Failure)
    → member id ids ≡ false
    → ((u j : String)
        → is_resource_allocated u j one ≡ is_resource_allocated u j rm || same kind id u j)
    → Allocates kind ids one q
    → Allocates kind (id ∷ ids) rm q
Allocates-more kind id ids rm one (r, none) d h (own, a) = (tt, λ u j. ground (arith, h u j, a u j))
Allocates-more kind id ids rm one (r, some (k, y, e)) d h (own, a) =
    let other : str_eq id y ≡ false = ground (arith, own.1, d, eq_iff id y) in
    ((own.0, ground (arith, own.1)), λ u j. ground (arith, h u j, a u j, other))

allocate_ids-Allocates :
    (kind : String) (ids : List String) (now : ℕ) (rm : ResourceManager)
    → AreDistinct ids
    → Allocates kind ids rm (allocate_ids kind ids now rm)
unfolding allocate_ids
allocate_ids-Allocates kind [] now rm d = (tt, λ u j. ground arith)
allocate_ids-Allocates kind (id ∷ ids) now rm d = elim (Option-cases first.1) [
  | inl e ↦
      let go : allocate_ids kind (id ∷ ids) now rm ≡ allocate_ids kind ids now first.0 =
        ground (arith, e) in
      subst (Allocates kind (id ∷ ids) rm) (sym go) (
        Allocates-more kind id ids rm first.0 _ d.0
          (λ u j. (is_resource_allocated-allocate kind id now rm u j e).1)
          (allocate_ids-Allocates kind ids now first.0 d.1))
  | inr (x, e) ↦
      let kept : first.0 ≡ rm = allocate_error kind id now rm (ground (arith, e)) in
      let go : allocate_ids kind (id ∷ ids) now rm ≡ (rm, some (kind, id, x)) =
        ground (arith, e, kept) in
      subst (Allocates kind (id ∷ ids) rm) (sym go)
        ((refl, ground (arith, eq_iff id id)), λ u j. ground (arith, eq_iff id id))
]
  where
    first : ResourceManager × Option ResourceError
    first = allocate kind id now rm

-- The same for the loop over the types.
abbrev pub IsOf : Request → Failure → Type 0
IsOf order none = Unit
IsOf order (some (k, y, e)) = member k (kinds order) ≡ true

abbrev pub AllocatesAll : Request → ResourceManager → ResourceManager × Failure → Type 0
AllocatesAll order rm q =
    IsOf order q.1
    × ((u j : String)
        → is_resource_allocated u j q.0
          ≡ is_resource_allocated u j rm || allocated_by (place_of q.1) u j order)

AllocatesAll-more :
    (kind : String) (ids : List String) (more : Request) (rm one : ResourceManager)
    → (q : ResourceManager × Failure) → member kind (kinds more) ≡ false
    → Allocates kind ids rm (one, none)
    → AllocatesAll more one q
    → AllocatesAll ((kind, ids) ∷ more) rm q
AllocatesAll-more kind ids more rm one (r, none) d (_, h) (own, a) =
    (tt, λ u j. ground (arith, h u j, a u j))
AllocatesAll-more kind ids more rm one (r, some (k, y, e)) d (_, h) (own, a) =
    let other : str_eq kind k ≡ false = ground (arith, own, d, eq_iff kind k) in
    (ground (arith, own), λ u j. ground (arith, h u j, a u j, other))

AllocatesAll-failed :
    (kind : String) (ids : List String) (more : Request) (rm : ResourceManager)
    → (q : ResourceManager × Failure) → is_some q.1 ≡ true
    → Allocates kind ids rm q
    → AllocatesAll ((kind, ids) ∷ more) rm q
AllocatesAll-failed kind ids more rm (r, none) s a = absurd (ground (arith, s))
AllocatesAll-failed kind ids more rm (r, some (k, y, e)) s ((mine, own), a) =
    let here : str_eq kind k ≡ true = ground (arith, mine, eq_iff kind k) in
    (ground (arith, here), λ u j. ground (arith, a u j, here))

pub allocate_all-AllocatesAll :
    (order : Request) (now : ℕ) (rm : ResourceManager)
    → IsRequest order
    → AllocatesAll order rm (allocate_all order now rm)
unfolding allocate_all
allocate_all-AllocatesAll [] now rm d = (tt, λ u j. ground arith)
allocate_all-AllocatesAll ((kind, ids) ∷ more) now rm d =
    go (allocate_ids kind ids now rm) refl
      (λ one. allocate_all-AllocatesAll more now one (d.0.1, d.1.1))
  where
    go :
        (q : ResourceManager × Failure)
        → allocate_ids kind ids now rm ≡ q
        → ((one : ResourceManager) → AllocatesAll more one (allocate_all more now one))
        → AllocatesAll ((kind, ids) ∷ more) rm (or_else (allocate_all more now) q)
    go (one, none) e rest =
        AllocatesAll-more kind ids more rm one _ d.0.0
          (subst (Allocates kind ids rm) e (allocate_ids-Allocates kind ids now rm d.1.0))
          (rest one)
    go (one, some f) e rest =
        AllocatesAll-failed kind ids more rm (one, some f) refl
          (subst (Allocates kind ids rm) e (allocate_ids-Allocates kind ids now rm d.1.0))

is_resource_allocated-rollback_ids :
    (fk fi kind : String) (ids : List String) (now : ℕ) (rm : ResourceManager) (u j : String)
    → is_resource_allocated u j (rollback_ids fk fi kind ids now rm)
      ≡ is_resource_allocated u j rm && not (hit (some (fk, fi)) u j (kind, ids))
unfolding rollback_ids
is_resource_allocated-rollback_ids fk fi kind [] now rm u j = ground arith
is_resource_allocated-rollback_ids fk fi kind (id ∷ ids) now rm u j = ground (
  arith,
  is_resource_allocated-rollback_ids fk fi kind ids now (release kind id now rm).0 u j,
  is_resource_allocated-release kind id now rm u j,
)

pub is_resource_allocated-rollback :
    (fk fi : String) (undo : Request) (now : ℕ) (rm : ResourceManager) (u j : String)
    → is_resource_allocated u j (rollback_allocation fk fi undo now rm)
      ≡ is_resource_allocated u j rm && not (undone_by (some (fk, fi)) u j undo)
unfolding rollback_allocation
is_resource_allocated-rollback fk fi [] now rm u j = ground arith
is_resource_allocated-rollback fk fi ((kind, ids) ∷ more) now rm u j = ground (
  arith,
  is_resource_allocated-rollback fk fi more now (rollback_ids fk fi kind ids now rm) u j,
  is_resource_allocated-rollback_ids fk fi kind ids now rm u j,
)

-- The first loop finds no resource of the request that is allocated.
check_ids_free :
    (kind : String) (ids : List String) (rm : ResourceManager) (j : String)
    → check_ids kind ids rm ≡ none
    → member j ids ≡ true
    → is_resource_allocated kind j rm ≡ false
unfolding check_ids
check_ids_free kind [] rm j h m = absurd (ground (arith, m))
check_ids_free kind (id ∷ ids) rm j h m = elim (Bool-cases (str_eq id j)) [
  | inl e ↦
      let same_id : id ≡ j = ground (arith, e, eq_iff id j) in
      subst (λ (x : String). is_resource_allocated kind x rm ≡ false) same_id (ground (arith, h))
  | inr e ↦ check_ids_free kind ids rm j (ground (arith, h)) (ground (arith, m, e))
]

pub check_all_free :
    (order : Request) (rm : ResourceManager) (u j : String)
    → check_all order rm ≡ none
    → requested u j order ≡ true
    → is_resource_allocated u j rm ≡ false
unfolding check_all
check_all_free [] rm u j h m = absurd (ground (arith, m))
check_all_free ((kind, ids) ∷ more) rm u j h m = elim (Bool-cases (str_eq kind u && member j ids)) [
  | inl e ↦
      let same_kind : kind ≡ u = ground (arith, e, eq_iff kind u) in
      subst (λ (x : String). is_resource_allocated x j rm ≡ false) same_kind
        (check_ids_free kind ids rm j (ground (arith, h)) (ground (arith, e)))
  | inr e ↦ check_all_free more rm u j (ground (arith, h)) (ground (arith, m, e))
]
