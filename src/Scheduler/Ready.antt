-- ===== src/Scheduler/Ready.antt =====
-- internal/core/scheduler.go: the abstract view of the four queues, one list in the order in which
-- tasks are served, and the insertion that a scheduled task makes into it.
use go_control.Prelude.{
  ℕ, ◌≤◌, ◌<◌, ◌≡◌, refl, ap, ◌∙◌, Option, none, some, List, [], ◌∷◌, ◌++◌, arith, ltb,
  if◌then◌else◌, All, All_weaken,
}
use go_control.Types.{Task, TaskPriority, emergency, high, medium, low, other}
use go_control.Scheduler.{Scheduler}

abbrev pub rank : TaskPriority → ℕ
rank emergency = 0
rank high = 1
rank medium = 2
rank low = 3
rank (other n) = 2

abbrev pub rank_of : (ℕ → Task) → ℕ → ℕ
rank_of heap p = rank (heap p).priority

-- The tasks that wait, in the order in which they are served.
abbrev pub ready : Scheduler → List ℕ
ready s =
    s.emergency_queue
    ++ (s.high_priority_queue ++ (s.medium_priority_queue ++ s.low_priority_queue))

-- Behind every task that is at least as urgent.
pub insert_by_rank : (ℕ → ℕ) → ℕ → List ℕ → List ℕ
insert_by_rank r p [] = p ∷ []
insert_by_rank r p (q ∷ qs) = if ltb (r p) (r q) then p ∷ q ∷ qs else q ∷ insert_by_rank r p qs

abbrev pub head? : List ℕ → Option ℕ
head? [] = none
head? (p ∷ ps) = some p

abbrev pub tail : List ℕ → List ℕ
tail [] = []
tail (p ∷ ps) = ps

-- Every task waits in the queue of its priority.
pub record RankedBy (r : ℕ → ℕ) (s : Scheduler) : Type 0 where
  pub in_emergency : All (λ p. r p ≡ 0) s.emergency_queue
  pub in_high : All (λ p. r p ≡ 1) s.high_priority_queue
  pub in_medium : All (λ p. r p ≡ 2) s.medium_priority_queue
  pub in_low : All (λ p. r p ≡ 3) s.low_priority_queue

abbrev pub IsRanked : Scheduler → Type 0
IsRanked s = RankedBy (rank_of s.heap) s

module _ (r : ℕ → ℕ) (p : ℕ) where
  pub insert_by_rank_behind :
      (xs ys : List ℕ)
      → All (λ x. r x ≤ r p) xs
      → insert_by_rank r p (xs ++ ys) ≡ xs ++ insert_by_rank r p ys
  unfolding insert_by_rank
  insert_by_rank_behind [] ys h = refl
  insert_by_rank_behind (x ∷ xs) ys h = ground (arith, insert_by_rank_behind xs ys h.1)

  insert_by_rank_before : (ys : List ℕ) → All (λ y. r p < r y) ys → insert_by_rank r p ys ≡ p ∷ ys
  unfolding insert_by_rank
  insert_by_rank_before [] h = refl
  insert_by_rank_before (y ∷ ys) h = ground arith

  pub insert_by_rank_last :
      (xs : List ℕ) → All (λ x. r x ≤ r p) xs → insert_by_rank r p xs ≡ xs ++ p ∷ []
  unfolding insert_by_rank
  insert_by_rank_last [] h = refl
  insert_by_rank_last (x ∷ xs) h = ground (arith, insert_by_rank_last xs h.1)

  -- Between the tasks that are as urgent and those that are less so.
  pub insert_by_rank_between :
      (k : ℕ) (xs ys : List ℕ)
      → r p ≡ k
      → All (λ x. r x ≤ k) xs
      → All (λ y. k < r y) ys
      → insert_by_rank r p (xs ++ ys) ≡ xs ++ p ∷ ys
  insert_by_rank_between k xs ys e h g =
      insert_by_rank_behind xs ys (All_weaken _ _ xs (λ x l. omega arith) h)
      ∙ ap (◌++◌ xs) (insert_by_rank_before ys (All_weaken _ _ ys (λ y l. omega arith) g))
