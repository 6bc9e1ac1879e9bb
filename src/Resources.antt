-- ===== src/Resources.antt =====
-- internal/hal/resource_manager.go: the resource manager. Each operation on one resource runs under the
-- manager's lock, so it is one step. AllocateForTask and ReleaseForTask are sequences of such steps here,
-- with none of another goroutine in between, although they hold no lock throughout. Metadata, which are
-- only stored, are left out. The order in which `range` visits a map is a parameter.
pub mod Allocation
pub mod Atomic
pub mod Tasks
mod Examples
use go_control.Prelude.{
  ℕ, String, Bool, true, false, not, ◌&&◌, Option, none, some, List, [], ◌∷◌, ◌++◌, str_eq,
  if◌then◌else◌,
}
use go_control.GoMap
use go_control.GoMap.{GoMap}
use go_control.Types.{SystemConfig}

pub record Resource : Type 0 where
  pub id : String
  pub kind : String
  pub allocated : Bool
  pub allocated_to : String
  pub allocated_at : Option ℕ
  pub last_used : ℕ

pub record ResourceManager : Type 0 where
  pub resources : GoMap (GoMap Resource)
  pub config : SystemConfig

pub data ResourceError : Type 0 where
  type_not_found : String → ResourceError
  resource_not_found already_allocated not_allocated : String → String → ResourceError

abbrev pub new_resource_manager : SystemConfig → ResourceManager
new_resource_manager config = record { resources = GoMap.empty; config = config }

abbrev pub of_type : Option (GoMap Resource) → GoMap Resource
of_type none = GoMap.empty
of_type (some m) = m

unfoldable pub register_resource : String → String → ℕ → ResourceManager → ResourceManager
register_resource kind id now rm =
    let fresh : Resource = record {
      id = id;
      kind = kind;
      allocated = false;
      allocated_to = "";
      allocated_at = none;
      last_used = now;
    } in
    record rm {
      resources =
          GoMap.put rm.resources kind (GoMap.put (of_type (GoMap.get rm.resources kind)) id fresh);
    }

-- A loop of registrations over the keys of one map of the configuration.
unfoldable pub register_all : String → List String → ℕ → ResourceManager → ResourceManager
register_all kind [] now rm = rm
register_all kind (id ∷ ids) now rm = register_all kind ids now (register_resource kind id now rm)

-- initializeHardwareResources; `axes` and `devices` are the keys of the two maps.
unfoldable pub initialize_hardware_resources :
    List String → List String → ℕ → ResourceManager → ResourceManager
initialize_hardware_resources axes devices now rm =
    register_all "safety" ("emergency_stop" ∷ "safety_door" ∷ "limit_switches" ∷ []) now
      (register_all "device" devices now (register_all "axis" axes now rm))

abbrev pub forced : Resource → Resource
forced r = if r.allocated then record r { allocated = false; allocated_to = "" } else r

unfoldable pub stop : ResourceManager → ResourceManager
stop rm = record rm { resources = GoMap.map_values (GoMap.map_values forced) rm.resources }

abbrev pub store : String → String → GoMap Resource → Resource → ResourceManager → ResourceManager
store kind id m r rm = record rm { resources = GoMap.put rm.resources kind (GoMap.put m id r) }

unfoldable pub get_resource :
    String → String → ResourceManager → Option Resource × Option ResourceError
get_resource kind id rm = elim (GoMap.get rm.resources kind) [
  | none ↦ (none, some (type_not_found kind))
  | some m ↦ elim (GoMap.get m id) [
    | none ↦ (none, some (resource_not_found id kind))
    | some r ↦ (some r, none)
  ]
]

abbrev pub taken : ℕ → Resource → Resource
taken now r = record r {
  allocated = true;
  allocated_to = "system";
  allocated_at = some now;
  last_used = now;
}

abbrev pub given_back : ℕ → Resource → Resource
given_back now r = record r { allocated = false; allocated_to = ""; last_used = now }

unfoldable pub allocate :
    String → String → ℕ → ResourceManager → ResourceManager × Option ResourceError
allocate kind id now rm = elim (GoMap.get rm.resources kind) [
  | none ↦ (rm, some (type_not_found kind))
  | some m ↦ elim (GoMap.get m id) [
    | none ↦ (rm, some (resource_not_found id kind))
    | some r ↦
        if r.allocated
        then (rm, some (already_allocated id kind))
        else (store kind id m (taken now r) rm, none)
  ]
]

unfoldable pub release :
    String → String → ℕ → ResourceManager → ResourceManager × Option ResourceError
release kind id now rm = elim (GoMap.get rm.resources kind) [
  | none ↦ (rm, some (type_not_found kind))
  | some m ↦ elim (GoMap.get m id) [
    | none ↦ (rm, some (resource_not_found id kind))
    | some r ↦
        if not r.allocated
        then (rm, some (not_allocated id kind))
        else (store kind id m (given_back now r) rm, none)
  ]
]

abbrev pub is_taken : Option Resource → Bool
is_taken none = false
is_taken (some r) = r.allocated

unfoldable pub is_resource_allocated : String → String → ResourceManager → Bool
is_resource_allocated kind id rm = is_taken (get_resource kind id rm).0

-- The ids of a type that are not allocated, of those that `range` visits.
unfoldable pub available : List String → GoMap Resource → List String
available [] m = []
available (id ∷ order) m =
    let rest = available order m in
    elim (GoMap.get m id) [ none ↦ rest | some r ↦ if r.allocated then rest else id ∷ rest ]

unfoldable pub get_available_resources : String → List String → ResourceManager → List String
get_available_resources kind order rm = available order (of_type (GoMap.get rm.resources kind))

-- A map from types to ids, as the list of its entries in the order of a `range`.
abbrev pub Request : Type 0
Request = List (String × List String)

-- The first loop of AllocateForTask: the first resource that is already allocated.
unfoldable pub check_ids : String → List String → ResourceManager → Option ResourceError
check_ids kind [] rm = none
check_ids kind (id ∷ ids) rm =
    let rest = check_ids kind ids rm in
    if is_resource_allocated kind id rm then some (already_allocated id kind) else rest

unfoldable pub check_all : Request → ResourceManager → Option ResourceError
check_all [] rm = none
check_all ((kind, ids) ∷ more) rm =
    let rest = check_all more rm in elim (check_ids kind ids rm) [ some e ↦ some e | none ↦ rest ]

-- The second loop: where it stops, with the resource that could not be allocated and the error.
abbrev pub Failure : Type 0
Failure = Option (String × String × ResourceError)

abbrev pub or_else :
    (ResourceManager → ResourceManager × Failure)
    → ResourceManager × Failure
    → ResourceManager × Failure
or_else next (rm, some f) = (rm, some f)
or_else next (rm, none) = next rm

abbrev pub failure_at :
    String → String → ResourceManager × Option ResourceError → ResourceManager × Failure
failure_at kind id (rm, none) = (rm, none)
failure_at kind id (rm, some e) = (rm, some (kind, id, e))

unfoldable pub allocate_ids : String → List String → ℕ → ResourceManager → ResourceManager × Failure
allocate_ids kind [] now rm = (rm, none)
allocate_ids kind (id ∷ ids) now rm =
    or_else (allocate_ids kind ids now) (failure_at kind id (allocate kind id now rm))

unfoldable pub allocate_all : Request → ℕ → ResourceManager → ResourceManager × Failure
allocate_all [] now rm = (rm, none)
allocate_all ((kind, ids) ∷ more) now rm =
    or_else (allocate_all more now) (allocate_ids kind ids now rm)

-- rollbackAllocation: the `break` at the resource that failed leaves the inner loop only. Errors are
-- only logged.
unfoldable pub rollback_ids :
    String → String → String → List String → ℕ → ResourceManager → ResourceManager
rollback_ids failed_kind failed_id kind [] now rm = rm
rollback_ids failed_kind failed_id kind (id ∷ ids) now rm =
    let rest = rollback_ids failed_kind failed_id kind ids now (release kind id now rm).0 in
    if str_eq kind failed_kind && str_eq id failed_id then rm else rest

unfoldable pub rollback_allocation :
    String → String → Request → ℕ → ResourceManager → ResourceManager
rollback_allocation failed_kind failed_id [] now rm = rm
rollback_allocation failed_kind failed_id ((kind, ids) ∷ more) now rm =
    rollback_allocation failed_kind failed_id more now
      (rollback_ids failed_kind failed_id kind ids now rm)

abbrev pub finish : Request → ℕ → ResourceManager × Failure → ResourceManager × Option ResourceError
finish undo now (rm, none) = (rm, none)
finish undo now (rm, some (kind, id, e)) = (rollback_allocation kind id undo now rm, some e)

-- AllocateForTask past its first loop.
abbrev pub after_check :
    Request
    → Request
    → ℕ
    → ResourceManager
    → Option ResourceError
    → ResourceManager × Option ResourceError
after_check order undo now rm (some e) = (rm, some e)
after_check order undo now rm none = finish undo now (allocate_all order now rm)

-- The request in the order of its first, its second and its third `range`.
unfoldable pub allocate_for_task :
    Request → Request → Request → ℕ → ResourceManager → ResourceManager × Option ResourceError
allocate_for_task check order undo now rm = after_check order undo now rm (check_all check rm)

abbrev pub noted : Option ResourceError → List ResourceError → List ResourceError
noted none errors = errors
noted (some e) errors = e ∷ errors

-- The loops of ReleaseForTask go on after an error.
unfoldable pub release_ids :
    String → List String → ℕ → ResourceManager → ResourceManager × List ResourceError
release_ids kind [] now rm = (rm, [])
release_ids kind (id ∷ ids) now rm =
    let (one, e) = release kind id now rm in
    let (rest, errors) = release_ids kind ids now one in (rest, noted e errors)

unfoldable pub release_all : Request → ℕ → ResourceManager → ResourceManager × List ResourceError
release_all [] now rm = (rm, [])
release_all ((kind, ids) ∷ more) now rm =
    let (one, first) = release_ids kind ids now rm in
    let (rest, errors) = release_all more now one in (rest, first ++ errors)

-- ReleaseForTask, whose error is nil if the list is empty and names all of them otherwise.
unfoldable pub release_for_task :
    Request → ℕ → ResourceManager → ResourceManager × List ResourceError
release_for_task = release_all
