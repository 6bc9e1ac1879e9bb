-- ===== src/Scheduler/Invariant.antt =====
-- internal/core/scheduler.go: what holds of the scheduler between any two steps.
use mathlib.Core.Path.{fun_ext}
use go_control.Prelude.{ℕ, ◌≡◌, ◌≢◌, ap, sym, ◌∙◌, subst, Option, List, arith, All, update}
use go_control.Channel.{IsWithin}
use go_control.Types.{Task, completed}
use go_control.Scheduler.{Scheduler, Error}
use go_control.Scheduler.Ready.{rank_of, IsRanked}
use go_control.Scheduler.Active.{IsActiveMap}

pub record Inv (s : Scheduler) : Type 0 where
  pub ranked : IsRanked s
  pub active : IsActiveMap s.heap s.active_tasks
  pub within : IsWithin s.task_chan
  pub unfinished : (p : ℕ) → (s.heap p).status ≢ completed

-- A write to a task that keeps its priority leaves every task in its queue.
rank_of-update :
    (heap : ℕ → Task) (p : ℕ) (t : Task)
    → t.priority ≡ (heap p).priority
    → rank_of (update heap p t) ≡ rank_of heap
rank_of-update heap p t e = fun_ext λ q. ground arith

module _ (s : Scheduler) (v : Inv s) (p : ℕ) (t : Task) where
  update_unfinished : t.status ≢ completed → (q : ℕ) → (update s.heap p t q).status ≢ completed
  update_unfinished f q = ground (arith, v.unfinished q)

  moved :
      (heap : ℕ → Task) (n : ℕ) (xs ys : List ℕ)
      → heap ≡ update s.heap p t
      → xs ≡ ys
      → t.priority ≡ (s.heap p).priority
      → All (λ q. rank_of s.heap q ≡ n) ys
      → All (λ q. rank_of heap q ≡ n) xs
  moved heap n xs ys e f same a =
      subst (All (λ q. rank_of heap q ≡ n)) (sym f)
        (subst (λ k. All (λ q. k q ≡ n) ys) (sym (ap rank_of e ∙ rank_of-update s.heap p t same)) a)

  -- The task objects and the map of active tasks change; queues and channel stay.
  pub write-Inv :
      (r : Scheduler)
      → r.heap ≡ update s.heap p t
      → r.emergency_queue ≡ s.emergency_queue
      → r.high_priority_queue ≡ s.high_priority_queue
      → r.medium_priority_queue ≡ s.medium_priority_queue
      → r.low_priority_queue ≡ s.low_priority_queue
      → IsWithin r.task_chan
      → t.priority ≡ (s.heap p).priority
      → t.status ≢ completed
      → IsActiveMap (update s.heap p t) r.active_tasks
      → Inv r
  write-Inv r e f₁ f₂ f₃ f₄ w same new a = record {
    ranked = record {
      in_emergency = moved r.heap 0 _ _ e f₁ same v.ranked.in_emergency;
      in_high = moved r.heap 1 _ _ e f₂ same v.ranked.in_high;
      in_medium = moved r.heap 2 _ _ e f₃ same v.ranked.in_medium;
      in_low = moved r.heap 3 _ _ e f₄ same v.ranked.in_low;
    };
    active = rw e a;
    within = w;
    unfinished = rw e (update_unfinished new);
  }

-- Queues change, and each task still waits in the queue of its priority.
pub queues-Inv :
    (s r : Scheduler)
    → Inv s
    → r.heap ≡ s.heap
    → r.active_tasks ≡ s.active_tasks
    → r.task_chan ≡ s.task_chan
    → All (λ p. rank_of s.heap p ≡ 0) r.emergency_queue
    → All (λ p. rank_of s.heap p ≡ 1) r.high_priority_queue
    → All (λ p. rank_of s.heap p ≡ 2) r.medium_priority_queue
    → All (λ p. rank_of s.heap p ≡ 3) r.low_priority_queue
    → Inv r
queues-Inv s r v e f g in_e in_h in_m in_l = record {
  ranked = record {
    in_emergency = rw e in_e;
    in_high = rw e in_h;
    in_medium = rw e in_m;
    in_low = rw e in_l;
  };
  active = rw (e, f) v.active;
  within = rw g v.within;
  unfinished = rw e v.unfinished;
}

abbrev pub KeepsInv : Scheduler × Option Error → Type 0
KeepsInv r = Inv r.0
