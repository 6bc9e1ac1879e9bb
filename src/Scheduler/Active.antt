-- ===== src/Scheduler/Active.antt =====
-- internal/core/scheduler.go: the map of active tasks against the task objects.
use go_control.Prelude.{
  ℕ, String, ◌≡◌, refl, ap, ◌∙◌, Bool, true, false, some, List, [], ◌∷◌, arith, eq_iff, update,
  Option-cases, inl, inr,
}
use go_control.GoMap
use go_control.GoMap.{GoMap, get-remove, get-put}
use go_control.Types.{Task, TaskStatus, pending, running, paused}
use go_control.Scheduler.Execute.{sweep, swept}

-- The statuses that a task in the map can have.
abbrev pub is_live : TaskStatus → Bool
is_live pending = true
is_live running = true
is_live paused = true
is_live _ = false

-- Each task stands under its own id, and is live.
abbrev pub IsActiveMap : (ℕ → Task) → GoMap ℕ → Type 0
IsActiveMap heap m =
    (k : String) (p : ℕ)
    → GoMap.get m k ≡ some p
    → ((heap p).id ≡ k) × (is_live (heap p).status ≡ true)

module _ (heap : ℕ → Task) (m : GoMap ℕ) (h : IsActiveMap heap m) where
  pub IsActiveMap-update :
      (p : ℕ) (t : Task)
      → t.id ≡ (heap p).id
      → is_live t.status ≡ true
      → IsActiveMap (update heap p t) m
  IsActiveMap-update p t same live k q e = ground (arith, h k q e)

  -- Whatever becomes of a task, it may do so once it is out of the map.
  pub IsActiveMap-remove :
      (p : ℕ) (t : Task) (id : String)
      → (heap p).id ≡ id
      → IsActiveMap (update heap p t) (GoMap.remove m id)
  IsActiveMap-remove p t id mine k q e = ground (arith, h k q, get-remove m id k, eq_iff id k)

  pub IsActiveMap-put :
      (p : ℕ) (t : Task)
      → t.id ≡ (heap p).id
      → is_live t.status ≡ true
      → IsActiveMap (update heap p t) (GoMap.put m (heap p).id p)
  IsActiveMap-put p t same live k q e =
      ground (arith, h k q, get-put m (heap p).id k p, eq_iff (heap p).id k)

  swept_nothing : (now : ℕ) (k : String) → swept heap now k m ≡ m
  unfolding swept
  swept_nothing now k = elim (Option-cases (GoMap.get m k)) [
    | inl e ↦ rw (e, swept)
    | inr (p, e) ↦ rw (e, swept) (ground (arith, h k p e))
  ]

  -- No active task is finished, so the clean-up of old tasks finds nothing.
  pub sweep_nothing : (now : ℕ) (order : List String) → sweep heap now order m ≡ m
  unfolding sweep
  sweep_nothing now [] = refl
  sweep_nothing now (k ∷ order) =
      ap (sweep heap now order) (swept_nothing now k) ∙ sweep_nothing now order
