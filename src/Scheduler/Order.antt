-- ===== src/Scheduler/Order.antt =====
-- internal/core/scheduler.go: the four queues serve tasks by priority, and by arrival within a
-- priority.
use mathlib.Core.List.{append_assoc}
use go_control.Prelude.{
  false, ℕ, ◌≤◌, ◌<◌, ◌≡◌, refl, ap, sym, ◌∙◌, true, none, some, List, [], ◌∷◌, ◌++◌, arith, All,
  All_weaken, All-append,
}
use go_control.Types.{Task, TaskPriority, emergency, high, medium, low, other}
use go_control.Scheduler.{
  Scheduler, not_running, enqueue, schedule_task, get_next_task, write, admit,
}
use go_control.Scheduler.Ready.{
  rank, rank_of, ready, insert_by_rank, head?, tail, RankedBy, IsRanked, insert_by_rank_behind,
  insert_by_rank_last, insert_by_rank_between,
}

-- The scheduling goroutine takes the head of the ordered queue, and leaves its tail.
pub get_next_task-ready :
    (s : Scheduler)
    → ((get_next_task s).0 ≡ head? (ready s)) × (ready (get_next_task s).1 ≡ tail (ready s))
unfolding get_next_task
get_next_task-ready s = ground arith

module _ (r : ℕ → ℕ) (p : ℕ) (s : Scheduler) (h : RankedBy r s) where
  -- `x ++ p ∷ []` in front of the rest
  snoc_between : (xs ys : List ℕ) → (xs ++ p ∷ []) ++ ys ≡ xs ++ p ∷ ys
  snoc_between xs ys = append_assoc xs (p ∷ []) ys

  above_emergency :
      All
        (λ y. 0 < r y)
        (s.high_priority_queue ++ (s.medium_priority_queue ++ s.low_priority_queue))
  above_emergency =
      All-append _ s.high_priority_queue _ (All_weaken _ _ _ (λ x l. omega arith) h.in_high) (
        All-append _ s.medium_priority_queue _ (All_weaken _ _ _ (λ x l. omega arith) h.in_medium)
          (All_weaken _ _ _ (λ x l. omega arith) h.in_low))

  above_high : All (λ y. 1 < r y) (s.medium_priority_queue ++ s.low_priority_queue)
  above_high =
      All-append _ s.medium_priority_queue _ (All_weaken _ _ _ (λ x l. omega arith) h.in_medium)
        (All_weaken _ _ _ (λ x l. omega arith) h.in_low)

  insert_emergency : r p ≡ 0 → ready (enqueue emergency p s) ≡ insert_by_rank r p (ready s)
  unfolding enqueue
  insert_emergency e =
      snoc_between s.emergency_queue _
      ∙ sym (
          insert_by_rank_between r p 0 s.emergency_queue _ e
            (All_weaken _ _ _ (λ x l. omega arith) h.in_emergency) above_emergency)

  insert_high : r p ≡ 1 → ready (enqueue high p s) ≡ insert_by_rank r p (ready s)
  unfolding enqueue
  insert_high e =
      ap (◌++◌ s.emergency_queue) (snoc_between s.high_priority_queue _)
      ∙ sym (
          insert_by_rank_behind r p s.emergency_queue _
            (All_weaken _ _ _ (λ x l. omega arith) h.in_emergency)
          ∙ ap (◌++◌ s.emergency_queue) (
              insert_by_rank_between r p 1 s.high_priority_queue _ e
                (All_weaken _ _ _ (λ x l. omega arith) h.in_high) above_high))

  -- Past the two more urgent queues.
  insert_behind_two :
      (ys zs : List ℕ)
      → 1 ≤ r p
      → insert_by_rank r p ys ≡ zs
      → insert_by_rank r p (s.emergency_queue ++ (s.high_priority_queue ++ ys))
        ≡ s.emergency_queue ++ (s.high_priority_queue ++ zs)
  insert_behind_two ys zs e f =
      insert_by_rank_behind r p s.emergency_queue _
        (All_weaken _ _ _ (λ x l. omega arith) h.in_emergency)
      ∙ ap (◌++◌ s.emergency_queue) (
          insert_by_rank_behind r p s.high_priority_queue _
            (All_weaken _ _ _ (λ x l. omega arith) h.in_high)
          ∙ ap (◌++◌ s.high_priority_queue) f)

  insert_medium :
      r p ≡ 2
      → s.emergency_queue
          ++ (s.high_priority_queue
              ++ ((s.medium_priority_queue ++ p ∷ []) ++ s.low_priority_queue))
        ≡ insert_by_rank r p (ready s)
  insert_medium e = sym (
      insert_behind_two _ _ (omega arith) (
        insert_by_rank_between r p 2 s.medium_priority_queue _ e
          (All_weaken _ _ _ (λ x l. omega arith) h.in_medium)
          (All_weaken _ _ _ (λ x l. omega arith) h.in_low)
        ∙ sym (snoc_between s.medium_priority_queue _)))

  insert_low : r p ≡ 3 → ready (enqueue low p s) ≡ insert_by_rank r p (ready s)
  unfolding enqueue
  insert_low e = sym (
      insert_behind_two _ _ (omega arith) (
        insert_by_rank_behind r p s.medium_priority_queue _
          (All_weaken _ _ _ (λ x l. omega arith) h.in_medium)
        ∙ ap (◌++◌ s.medium_priority_queue) (
            insert_by_rank_last r p s.low_priority_queue
              (All_weaken _ _ _ (λ x l. omega arith) h.in_low))))

  pub ready-enqueue :
      (k : TaskPriority) → rank k ≡ r p → ready (enqueue k p s) ≡ insert_by_rank r p (ready s)
  unfolding enqueue
  ready-enqueue emergency e = unfold enqueue in insert_emergency (sym e)
  ready-enqueue high e = insert_high (sym e)
  ready-enqueue medium e = insert_medium (sym e)
  ready-enqueue low e = insert_low (sym e)
  ready-enqueue (other n) e = insert_medium (sym e)

  pub enqueue-RankedBy : (k : TaskPriority) → rank k ≡ r p → RankedBy r (enqueue k p s)
  unfolding enqueue
  enqueue-RankedBy emergency e = record {
    in_emergency = All-append _ s.emergency_queue _ h.in_emergency (sym e, tt);
    in_high = h.in_high;
    in_medium = h.in_medium;
    in_low = h.in_low;
  }
  enqueue-RankedBy high e = record {
    in_emergency = h.in_emergency;
    in_high = All-append _ s.high_priority_queue _ h.in_high (sym e, tt);
    in_medium = h.in_medium;
    in_low = h.in_low;
  }
  enqueue-RankedBy medium e = record {
    in_emergency = h.in_emergency;
    in_high = h.in_high;
    in_medium = All-append _ s.medium_priority_queue _ h.in_medium (sym e, tt);
    in_low = h.in_low;
  }
  enqueue-RankedBy low e = record {
    in_emergency = h.in_emergency;
    in_high = h.in_high;
    in_medium = h.in_medium;
    in_low = All-append _ s.low_priority_queue _ h.in_low (sym e, tt);
  }
  enqueue-RankedBy (other n) e = record {
    in_emergency = h.in_emergency;
    in_high = h.in_high;
    in_medium = All-append _ s.medium_priority_queue _ h.in_medium (sym e, tt);
    in_low = h.in_low;
  }

pub write-RankedBy :
    (r : ℕ → ℕ) (p : ℕ) (t : Task) (s : Scheduler) → RankedBy r s → RankedBy r (write p t s)
write-RankedBy r p t s h = record {
  in_emergency = h.in_emergency;
  in_high = h.in_high;
  in_medium = h.in_medium;
  in_low = h.in_low;
}

pub schedule_task_running :
    (p : ℕ) (s : Scheduler) → s.is_running ≡ true → schedule_task p s ≡ (admit p s, none)
unfolding schedule_task
schedule_task_running p s e = ground arith

pub schedule_task_stopped :
    (p : ℕ) (s : Scheduler) → s.is_running ≡ false → schedule_task p s ≡ (s, some not_running)
unfolding schedule_task
schedule_task_stopped p s e = ground arith

-- A task that is scheduled while the scheduler runs is put behind all waiting tasks that are at
-- least as urgent, and before all that are less urgent; the call returns no error.
pub ready-schedule_task :
    (p : ℕ) (s : Scheduler)
    → s.is_running ≡ true
    → IsRanked s
    → (ready (schedule_task p s).0 ≡ insert_by_rank (rank_of s.heap) p (ready s))
      × ((schedule_task p s).1 ≡ none)
ready-schedule_task p s e h =
    rw (schedule_task_running p s e)
      (ready-enqueue (rank_of s.heap) p _ (write-RankedBy _ p _ s h) (s.heap p).priority refl, refl)
