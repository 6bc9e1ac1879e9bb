-- ===== src/Scheduler/Cancelling.antt =====
-- internal/core/scheduler.go: CancelTask of a task that waits, in the order of service.
use go_control.Prelude.{
  Bool, Option, ◌≢◌, ◌⊎◌, false, ℕ, String, ◌≡◌, true, none, some, List, ◌∷◌, ◌++◌, All,
}
use go_control.GoMap
use go_control.Types.{Task}
use go_control.Scheduler.{Scheduler, Error, task_not_found}

-- The queue without its first task with the id, and whether there is one.
abbrev Removed : (ℕ → Task) → String → List ℕ → List ℕ × Bool → Type 0
Removed heap id waiting (left, found) =
    ((xs : List ℕ) × (ys : List ℕ) × (p : ℕ) × All (λ q. (heap q).id ≢ id) xs
      × ((heap p).id ≡ id)
      × (waiting ≡ xs ++ p ∷ ys)
      × (left ≡ xs ++ ys)
      × (found ≡ true))
    ⊎ (All (λ q. (heap q).id ≢ id) waiting × (left ≡ waiting) × (found ≡ false))

-- How a CancelTask ends: it takes the first waiting task with the id out, or there is none.
abbrev pub Cancelled : (ℕ → Task) → String → List ℕ → List ℕ → Option Error → Type 0
Cancelled heap id waiting left e =
    ((xs : List ℕ) × (ys : List ℕ) × (p : ℕ) × All (λ q. (heap q).id ≢ id) xs
      × ((heap p).id ≡ id)
      × (waiting ≡ xs ++ p ∷ ys)
      × (left ≡ xs ++ ys)
      × (e ≡ none))
    ⊎ (All (λ q. (heap q).id ≢ id) waiting × (left ≡ waiting) × (e ≡ some (task_not_found id)))
