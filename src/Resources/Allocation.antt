-- ===== src/Resources/Allocation.antt =====
-- internal/hal/resource_manager.go: which resources are allocated after each operation.
use go_control.Prelude.{
  ℕ, String, ◌≡◌, refl, ◌∙◌, inl, inr, Bool, true, false, not, ◌&&◌, ◌||◌, none, some, str_eq,
  eq_iff, if◌then◌else◌, arith, Option-cases, Bool-cases, is_some,
}
use go_control.GoMap
use go_control.GoMap.{get-put}
use go_control.Resources.{
  Resource, ResourceManager, store, taken, given_back, allocate, release, get_resource,
  is_resource_allocated,
}

abbrev pub same : String → String → String → String → Bool
same kind id u j = str_eq kind u && str_eq id j

is_resource_allocated-store :
    (kind id : String) (m : GoMap.GoMap Resource) (r : Resource) (rm : ResourceManager)
    (u j : String)
    → GoMap.get rm.resources kind ≡ some m
    → is_resource_allocated u j (store kind id m r rm)
      ≡ (if same kind id u j then r.allocated else is_resource_allocated u j rm)
unfolding is_resource_allocated get_resource
is_resource_allocated-store kind id m r rm u j e = ground (
  arith,
  e,
  get-put rm.resources kind u (GoMap.put m id r),
  get-put m id j r,
  eq_iff kind u,
  eq_iff id j,
)

module _ (kind id : String) (now : ℕ) (rm : ResourceManager) where
  -- What a call finds: no resource, or one that is allocated or free.
  data Found : Type 0 where
    absent :
        (allocate kind id now rm).0 ≡ rm
        → is_some (allocate kind id now rm).1 ≡ true
        → (release kind id now rm).0 ≡ rm
        → is_resource_allocated kind id rm ≡ false
        → Found
    busy :
        (m : GoMap.GoMap Resource)
        → (r : Resource) → GoMap.get rm.resources kind ≡ some m
        → (allocate kind id now rm).0 ≡ rm
        → is_some (allocate kind id now rm).1 ≡ true
        → (release kind id now rm).0 ≡ store kind id m (given_back now r) rm
        → is_resource_allocated kind id rm ≡ true
        → Found
    free :
        (m : GoMap.GoMap Resource)
        → (r : Resource) → GoMap.get rm.resources kind ≡ some m
        → allocate kind id now rm ≡ (store kind id m (taken now r) rm, none)
        → (release kind id now rm).0 ≡ rm
        → is_resource_allocated kind id rm ≡ false
        → Found

  found : Found
  unfolding allocate release is_resource_allocated get_resource
  found = elim (Option-cases (GoMap.get rm.resources kind)) [
    | inl e ↦ absent (ground (arith, e)) (ground (arith, e)) (ground (arith, e)) (ground (arith, e))
    | inr (m, e) ↦ elim (Option-cases (GoMap.get m id)) [
      | inl f ↦
          absent (ground (arith, e, f)) (ground (arith, e, f)) (ground (arith, e, f))
            (ground (arith, e, f))
      | inr (r, f) ↦ elim (Bool-cases r.allocated) [
        | inl on ↦
            busy m r e (ground (arith, e, f, on)) (ground (arith, e, f, on))
              (ground (arith, e, f, on)) (ground (arith, e, f, on))
        | inr off ↦
            free m r e (ground (arith, e, f, off)) (ground (arith, e, f, off))
              (ground (arith, e, f, off))
      ]
    ]
  ]

  same_resource :
      (u j : String)
      → same kind id u j ≡ true
      → is_resource_allocated u j rm ≡ is_resource_allocated kind id rm
  same_resource u j h =
      let e : u ≡ kind = ground (arith, h, eq_iff kind u) in
      let f : j ≡ id = ground (arith, h, eq_iff id j) in rw (e, f) refl

  -- An allocation that returns no error allocates a free resource, and changes no other; one that
  -- returns an error changes nothing.
  pub is_resource_allocated-allocate :
      (u j : String)
      → (allocate kind id now rm).1 ≡ none
      → (is_resource_allocated kind id rm ≡ false)
        × (is_resource_allocated u j (allocate kind id now rm).0
            ≡ is_resource_allocated u j rm || same kind id u j)
  is_resource_allocated-allocate u j h = elim found [
    | absent _ e _ _ ↦ absurd (ground (arith, h, e))
    | busy m r _ _ e _ _ ↦ absurd (ground (arith, h, e))
    | free m r e f _ off ↦
        (off, rw f (is_resource_allocated-store kind id m (taken now r) rm u j e ∙ ground arith))
  ]

  pub allocate_error : is_some (allocate kind id now rm).1 ≡ true → (allocate kind id now rm).0 ≡ rm
  allocate_error h = elim found [
    | absent e _ _ _ ↦ e
    | busy m r _ e _ _ _ ↦ e
    | free m r e f _ off ↦ absurd (ground (arith, h, f))
  ]

  -- A release leaves this resource free, whether or not it returns an error, and changes no other.
  pub is_resource_allocated-release :
      (u j : String)
      → is_resource_allocated u j (release kind id now rm).0
        ≡ is_resource_allocated u j rm && not (same kind id u j)
  is_resource_allocated-release u j = elim found [
    | absent _ _ e off ↦ rw e (ground (arith, off, same_resource u j))
    | busy m r e _ _ f _ ↦
        rw f (is_resource_allocated-store kind id m (given_back now r) rm u j e ∙ ground arith)
    | free m r _ _ e off ↦ rw e (ground (arith, off, same_resource u j))
  ]
