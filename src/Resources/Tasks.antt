-- ===== src/Resources/Tasks.antt =====
-- internal/hal/resource_manager.go: AllocateForTask takes all resources of a request or none, and
-- ReleaseForTask gives them back.
use go_control.Prelude.{
  member, ℕ, String, ◌≡◌, refl, sym, ap, subst, ◌∙◌, ◌⊎◌, inl, inr, true, false, not, ◌&&◌, ◌||◌,
  Option, none, some, List, [], ◌∷◌, str_eq, eq_iff, arith, Option-cases, Bool-cases, is_some, All,
  All_weaken,
}
use go_control.Resources.{
  ResourceManager, ResourceError, Request, Failure, is_resource_allocated, check_all, allocate_all,
  rollback_allocation, finish, after_check, allocate_for_task, check_ids, allocate_ids,
  rollback_ids, release, release_ids, release_all, release_for_task, allocate,
}
use go_control.Resources.Allocation.{
  is_resource_allocated-allocate, is_resource_allocated-release, allocate_error,
}
use go_control.Resources.Atomic.{
  IsRequest, requested, before, limit, hit, allocated_by, undone_by, AllocatesAll,
  allocate_all-AllocatesAll, is_resource_allocated-rollback, check_all_free,
}

-- The group is an entry of the request.
abbrev pub IsEntry : Request → String × List String → Type 0
IsEntry [] g = ⊥
IsEntry (h ∷ more) g = (g ≡ h) ⊎ IsEntry more g

-- Every entry of the first is one of the second: both are orders of one map.
abbrev pub AreEntries : Request → Request → Type 0
AreEntries order other = All (IsEntry other) order

own_entries : (order : Request) → AreEntries order order
own_entries [] = tt
own_entries (g ∷ more) = (inl refl, All_weaken _ _ more (λ x. inr) (own_entries more))

before-member :
    (y : Option String) (j : String) (ids : List String)
    → before y j ids ≡ true
    → member j ids ≡ true
before-member y j [] h = h
before-member y j (k ∷ ks) h = ground (arith, h, before-member y j ks)

undone_by-IsEntry :
    (f : Option (String × String)) (u j : String) (g : String × List String) (undo : Request)
    → IsEntry undo g
    → hit f u j g ≡ true
    → undone_by f u j undo ≡ true
undone_by-IsEntry f u j g [] i h = absurd i
undone_by-IsEntry f u j g (x ∷ more) (inl e) h =
    let there : hit f u j x ≡ true = subst (λ (y : String × List String). hit f u j y ≡ true) e h in
    rw there refl
undone_by-IsEntry f u j g (x ∷ more) (inr i) h = ground (arith, undone_by-IsEntry f u j g more i h)

requested-IsEntry :
    (u j : String) (k : String) (ids : List String) (check : Request)
    → IsEntry check (k, ids)
    → (str_eq k u && member j ids) ≡ true
    → requested u j check ≡ true
requested-IsEntry u j k ids [] i h = absurd i
requested-IsEntry u j k ids ((x, xs) ∷ more) (inl e) h =
    let there : (str_eq x u && member j xs) ≡ true =
      subst (λ (y : String × List String). (str_eq y.0 u && member j y.1) ≡ true) e h in
    rw there refl
requested-IsEntry u j k ids ((x, xs) ∷ more) (inr i) h =
    ground (arith, requested-IsEntry u j k ids more i h)

-- All that the loop allocated before it failed is released by the rollback,
undone_by-allocated_by :
    (f : Option (String × String)) (u j : String) (order undo : Request)
    → AreEntries order undo
    → allocated_by f u j order ≡ true
    → undone_by f u j undo ≡ true
undone_by-allocated_by f u j [] undo a h = absurd (ground (arith, h))
undone_by-allocated_by f u j ((k, ids) ∷ more) undo a h = elim (Bool-cases (hit f u j (k, ids))) [
  | inl e ↦ undone_by-IsEntry f u j (k, ids) undo a.0 e
  | inr e ↦ undone_by-allocated_by f u j more undo a.1 (ground (arith, h, e))
]

-- and nothing that was not requested.
requested-undone_by :
    (f : Option (String × String)) (u j : String) (undo check : Request)
    → AreEntries undo check
    → undone_by f u j undo ≡ true
    → requested u j check ≡ true
requested-undone_by f u j [] check a h = absurd (ground (arith, h))
requested-undone_by f u j ((k, ids) ∷ more) check a h = elim (Bool-cases (hit f u j (k, ids))) [
  | inl e ↦
      requested-IsEntry u j k ids check a.0 (ground (arith, e, before-member (limit f k) j ids))
  | inr e ↦ requested-undone_by f u j more check a.1 (ground (arith, h, e))
]

allocated_by-none :
    (u j : String) (order : Request) → allocated_by none u j order ≡ requested u j order
allocated_by-none u j [] = refl
allocated_by-none u j ((k, ids) ∷ more) = ground (arith, allocated_by-none u j more, whole ids)
  where
    whole : (xs : List String) → before none j xs ≡ member j xs
    whole [] = refl
    whole (x ∷ xs) = ground (arith, whole xs)

-- How a call of AllocateForTask ends.
pub data Settled (request : Request) (rm : ResourceManager)
    : ResourceManager × Option ResourceError → Type 0 where
  granted :
      (r : ResourceManager)
      → ((u j : String) → requested u j request ≡ true → is_resource_allocated u j rm ≡ false)
      → ((u j : String)
          → is_resource_allocated u j r ≡ is_resource_allocated u j rm || requested u j request)
      → Settled request rm (r, none)
  refused :
      (r : ResourceManager)
      → (e : ResourceError)
      → ((u j : String) → is_resource_allocated u j r ≡ is_resource_allocated u j rm)
      → Settled request rm (r, some e)

-- A request that AllocateForTask grants had only free resources; they are allocated then, and no other
-- resource has changed. One that it refuses leaves every resource as allocated or free as it was. The
-- request has no type and no id twice, and `check`, `order` and `undo` are its entries in any order.
pub allocate_for_task-Settled :
    (check order undo : Request) (now : ℕ) (rm : ResourceManager)
    → IsRequest order
    → AreEntries order undo
    → AreEntries order check
    → AreEntries undo check
    → Settled order rm (allocate_for_task check order undo now rm)
unfolding allocate_for_task
allocate_for_task-Settled check order undo now rm d in_undo in_check undo_in_check =
    elim (Option-cases (check_all check rm)) [
      | inr (e, h) ↦
          subst (λ (o : Option ResourceError). Settled order rm (after_check order undo now rm o))
            (sym h) (refused rm e (λ u j. refl))
      | inl h ↦
          subst (λ (o : Option ResourceError). Settled order rm (after_check order undo now rm o))
            (sym h) (go h (allocate_all order now rm) (allocate_all-AllocatesAll order now rm d))
    ]
  where
    free :
        check_all check rm ≡ none
        → (u j : String) → requested u j order ≡ true
        → is_resource_allocated u j rm ≡ false
    free h u j m = check_all_free check rm u j h (
        requested-undone_by none u j order check in_check (
          ground (
            arith,
            m,
            allocated_by-none u j order,
            undone_by-allocated_by none u j order order (own_entries order),
          )))

    go :
        check_all check rm ≡ none
        → (q : ResourceManager × Failure) → AllocatesAll order rm q
        → Settled order rm (finish undo now q)
    go h (r, none) (_, a) =
        granted r (free h)
          (λ u j. a u j ∙ ap (λ b. is_resource_allocated u j rm || b) (allocated_by-none u j order))
    go h (r, some (k, y, e)) (_, a) = refused _ e λ u j. ground (
      arith,
      a u j,
      is_resource_allocated-rollback k y undo now r u j,
      undone_by-allocated_by (some (k, y)) u j order undo in_undo,
      requested-undone_by (some (k, y)) u j undo check undo_in_check,
      check_all_free check rm u j h,
    )

is_resource_allocated-release_ids :
    (kind : String) (ids : List String) (now : ℕ) (rm : ResourceManager) (u j : String)
    → is_resource_allocated u j (release_ids kind ids now rm).0
      ≡ is_resource_allocated u j rm && not (str_eq kind u && member j ids)
unfolding release_ids
is_resource_allocated-release_ids kind [] now rm u j = ground arith
is_resource_allocated-release_ids kind (id ∷ ids) now rm u j = ground (
  arith,
  is_resource_allocated-release_ids kind ids now (release kind id now rm).0 u j,
  is_resource_allocated-release kind id now rm u j,
)

is_resource_allocated-release_all :
    (request : Request) (now : ℕ) (rm : ResourceManager) (u j : String)
    → is_resource_allocated u j (release_all request now rm).0
      ≡ is_resource_allocated u j rm && not (requested u j request)
unfolding release_all
is_resource_allocated-release_all [] now rm u j = ground arith
is_resource_allocated-release_all ((kind, ids) ∷ more) now rm u j = ground (
  arith,
  is_resource_allocated-release_all more now (release_ids kind ids now rm).0 u j,
  is_resource_allocated-release_ids kind ids now rm u j,
)

requested-AreEntries :
    (u j : String) (order other : Request)
    → AreEntries order other
    → requested u j order ≡ true
    → requested u j other ≡ true
requested-AreEntries u j [] other a h = absurd (ground (arith, h))
requested-AreEntries u j ((k, ids) ∷ more) other a h =
    elim (Bool-cases (str_eq k u && member j ids)) [
      | inl e ↦ requested-IsEntry u j k ids other a.0 e
      | inr e ↦ requested-AreEntries u j more other a.1 (ground (arith, h, e))
    ]

-- ReleaseForTask of a request that has been granted leaves every resource as allocated or free as it
-- was before the request. The request has no type and no id twice; `check`, `order` and `undo`, the
-- orders of the three loops of AllocateForTask, and `back`, that of ReleaseForTask, are its entries in
-- any order.
pub release_for_task-allocate_for_task :
    (check order undo back : Request) (now later : ℕ) (rm : ResourceManager) (u j : String)
    → IsRequest order
    → AreEntries order undo
    → AreEntries order check
    → AreEntries undo check
    → AreEntries order back
    → AreEntries back order
    → (allocate_for_task check order undo now rm).1 ≡ none
    → is_resource_allocated u j
        (release_for_task back later (allocate_for_task check order undo now rm).0).0
      ≡ is_resource_allocated u j rm
unfolding release_for_task
release_for_task-allocate_for_task check order undo back now later rm u j d in_undo in_check
      undo_in_check in_back back_in h =
    is_resource_allocated-release_all back later _ u j
    ∙ go (allocate_for_task-Settled check order undo now rm d in_undo in_check undo_in_check) h
  where
    go :
        {q : ResourceManager × Option ResourceError}
        → Settled order rm q
        → q.1 ≡ none
        → (is_resource_allocated u j q.0 && not (requested u j back)) ≡ is_resource_allocated u j rm
    go (granted r free a) e = ground (
      arith,
      free u j,
      a u j,
      requested-AreEntries u j order back in_back,
      requested-AreEntries u j back order back_in,
    )
    go (refused r x a) e = absurd (ground (arith, e))

-- A request that names one free resource twice is refused, yet the resource stays allocated: the
-- rollback stops at the first occurrence of the id that could not be allocated.
pub allocate_for_task-twice :
    (kind id : String) (now : ℕ) (rm : ResourceManager)
    → (allocate kind id now rm).1 ≡ none
    → let request : Request = (kind, id ∷ id ∷ []) ∷ [] in
      let result = allocate_for_task request request request now rm in
      (is_some result.1 ≡ true) × (is_resource_allocated kind id result.0 ≡ true)
unfolding allocate_for_task check_all check_ids allocate_all allocate_ids rollback_allocation
    rollback_ids
allocate_for_task-twice kind id now rm h = elim (Option-cases second.1) [
  | inl e ↦
      absurd (ground (arith, on, (is_resource_allocated-allocate kind id now first.0 kind id e).0))
  | inr (x, e) ↦
      let kept : second.0 ≡ first.0 = allocate_error kind id now first.0 (ground (arith, e)) in
      (
        ground (arith, h, off, e, eq_iff kind kind, eq_iff id id),
        ground (arith, h, off, e, kept, on, eq_iff kind kind, eq_iff id id),
      )
]
  where
    first : ResourceManager × Option ResourceError
    first = allocate kind id now rm

    second : ResourceManager × Option ResourceError
    second = allocate kind id now first.0

    off : is_resource_allocated kind id rm ≡ false
    off = (is_resource_allocated-allocate kind id now rm kind id h).0

    on : is_resource_allocated kind id first.0 ≡ true
    on =
        (is_resource_allocated-allocate kind id now rm kind id h).1
        ∙ ground (arith, off, eq_iff kind kind, eq_iff id id)
