-- ===== src/Scheduler/Preserved.antt =====
-- internal/core/scheduler.go: every operation keeps the invariant of the scheduler.
use go_control.Prelude.{
  ℕ, String, ◌≡◌, refl, subst, inl, inr, Bool, true, some, List, [], ◌∷◌, arith, All, Bool-cases,
  Option-cases, if_holds,
}
use go_control.GoMap
use go_control.GoMap.{GoMap}
use go_control.Channel.{try_send_cases, pushed-IsWithin}
use go_control.Types.{Task, TaskStatus, TaskPriority, emergency, pending}
use go_control.Outcome.{Holds}
use go_control.Scheduler.{
  Scheduler, next_of, admit, enqueue, schedule_task, remove, cancel_task, get_next_task,
  cancel_active, cancel_queued, set_active_status,
}
use go_control.Scheduler.Execute.{activate, reject, execute_task, schedule_round, watch_done}
use go_control.Scheduler.Ready.{rank, rank_of, IsRanked}
use go_control.Scheduler.Order.{enqueue-RankedBy, schedule_task_running, schedule_task_stopped}
use go_control.Scheduler.Active.{is_live, IsActiveMap-update, IsActiveMap-remove, IsActiveMap-put}
use go_control.Scheduler.Invariant.{Inv, KeepsInv, write-Inv, queues-Inv}

enqueue-Inv :
    (k : TaskPriority) (p : ℕ) (s : Scheduler)
    → rank k ≡ rank_of s.heap p
    → Inv s
    → Inv (enqueue k p s)
unfolding enqueue
enqueue-Inv emergency p s e v = record {
  ranked = unfold enqueue in enqueue-RankedBy _ p s v.ranked emergency e;
  active = v.active;
  within = v.within;
  unfinished = v.unfinished;
}
enqueue-Inv k p s e v = record {
  ranked = enqueue-RankedBy _ p s v.ranked k e;
  active = v.active;
  within = v.within;
  unfinished = v.unfinished;
}

admit-Inv : (p : ℕ) (s : Scheduler) → Inv s → Inv (admit p s)
admit-Inv p s v = enqueue-Inv (s.heap p).priority p _ (ground arith) (
    write-Inv s v p (record (s.heap p) { status = pending }) _ refl refl refl refl refl v.within
      refl (λ e. cc) (IsActiveMap-update s.heap s.active_tasks v.active p _ refl refl))

pub schedule_task-Inv : (p : ℕ) (s : Scheduler) → Inv s → Inv (schedule_task p s).0
schedule_task-Inv p s v = elim (Bool-cases s.is_running) [
  | inl on ↦ rw (schedule_task_running p s on) (admit-Inv p s v)
  | inr off ↦ rw (schedule_task_stopped p s off) v
]

activate-Inv : (p now : ℕ) (s : Scheduler) → Inv s → Inv (activate p now s)
activate-Inv p now s v =
    write-Inv s v p _ _ refl refl refl refl refl v.within refl (λ e. cc)
      (IsActiveMap-put s.heap s.active_tasks v.active p _ refl refl)

reject-Inv : (p now : ℕ) (s : Scheduler) → Inv s → Inv (reject p now s)
reject-Inv p now s v =
    write-Inv s v p _ _ refl refl refl refl refl v.within refl (λ e. cc)
      (IsActiveMap-remove s.heap s.active_tasks v.active p _ _ refl)

cancel_active-Inv :
    (id : String) (p now : ℕ) (s : Scheduler)
    → GoMap.get s.active_tasks id ≡ some p
    → Inv s
    → Inv (cancel_active id p now s)
unfolding cancel_active
cancel_active-Inv id p now s e v =
    write-Inv s v p _ _ refl refl refl refl refl v.within refl (λ f. cc)
      (IsActiveMap-remove s.heap s.active_tasks v.active p _ _ (v.active id p e).0)

All-remove :
    (P : ℕ → Type 0) (heap : ℕ → Task) (id : String) (q : List ℕ)
    → All P q
    → All P (remove heap id q).0
unfolding remove
All-remove P heap id [] h = h
All-remove P heap id (p ∷ q) h = ground (arith, All-remove P heap id q h.1)

cancel_queued-Inv : (id : String) (s : Scheduler) → Inv s → Inv (cancel_queued id s).0
unfolding cancel_queued
cancel_queued-Inv id s v =
    if_holds KeepsInv (remove s.heap id s.emergency_queue).1
      (queues-Inv s _ v refl refl refl (All-remove _ s.heap id _ q.in_emergency) q.in_high
        q.in_medium q.in_low)
      (if_holds KeepsInv (remove s.heap id s.high_priority_queue).1
        (queues-Inv s _ v refl refl refl q.in_emergency (All-remove _ s.heap id _ q.in_high)
          q.in_medium q.in_low)
        (if_holds KeepsInv (remove s.heap id s.medium_priority_queue).1
          (queues-Inv s _ v refl refl refl q.in_emergency q.in_high
            (All-remove _ s.heap id _ q.in_medium) q.in_low)
          (if_holds KeepsInv (remove s.heap id s.low_priority_queue).1
            (queues-Inv s _ v refl refl refl q.in_emergency q.in_high q.in_medium
              (All-remove _ s.heap id _ q.in_low))
            v)))
  where
    q : IsRanked s
    q = v.ranked

pub cancel_task-Inv : (id : String) (now : ℕ) (s : Scheduler) → Inv s → Inv (cancel_task id now s).0
unfolding cancel_task
cancel_task-Inv id now s v = elim (Option-cases (GoMap.get s.active_tasks id)) [
  | inl e ↦ rw (e, cancel_task) (cancel_queued-Inv id s v)
  | inr (p, e) ↦ rw (e, cancel_task) (cancel_active-Inv id p now s e v)
]

pub set_active_status-Inv :
    (status : TaskStatus) (id : String) (s : Scheduler)
    → is_live status ≡ true
    → Inv s
    → Inv (set_active_status status id s).0
unfolding set_active_status
set_active_status-Inv status id s live v = elim (Option-cases (GoMap.get s.active_tasks id)) [
  | inl e ↦ rw (e, set_active_status) v
  | inr (p, e) ↦
      rw (e, set_active_status)
        (write-Inv s v p _ _ refl refl refl refl refl v.within refl (λ f. ground arith)
          (IsActiveMap-update s.heap s.active_tasks v.active p _ refl live))
]

behind : (P : ℕ → Type 0) {xs : List ℕ} {p : ℕ} {ys : List ℕ} → All P xs → xs ≡ p ∷ ys → All P ys
behind P h e = (subst (All P) e h).1

next_of-Inv :
    (e h m l : List ℕ) (s : Scheduler)
    → s.emergency_queue ≡ e
    → s.high_priority_queue ≡ h
    → s.medium_priority_queue ≡ m
    → s.low_priority_queue ≡ l
    → Inv s
    → Inv (next_of e h m l s).1
unfolding next_of
next_of-Inv (p ∷ e) h m l s e₁ e₂ e₃ e₄ v =
    queues-Inv s _ v refl refl refl (behind _ v.ranked.in_emergency e₁) v.ranked.in_high
      v.ranked.in_medium v.ranked.in_low
next_of-Inv [] (p ∷ h) m l s e₁ e₂ e₃ e₄ v =
    queues-Inv s _ v refl refl refl v.ranked.in_emergency (behind _ v.ranked.in_high e₂)
      v.ranked.in_medium v.ranked.in_low
next_of-Inv [] [] (p ∷ m) l s e₁ e₂ e₃ e₄ v =
    queues-Inv s _ v refl refl refl v.ranked.in_emergency v.ranked.in_high
      (behind _ v.ranked.in_medium e₃) v.ranked.in_low
next_of-Inv [] [] [] (p ∷ l) s e₁ e₂ e₃ e₄ v =
    queues-Inv s _ v refl refl refl v.ranked.in_emergency v.ranked.in_high v.ranked.in_medium
      (behind _ v.ranked.in_low e₄)
next_of-Inv [] [] [] [] s e₁ e₂ e₃ e₄ v = v

get_next_task-Inv : (s : Scheduler) → Inv s → Inv (get_next_task s).1
unfolding get_next_task
get_next_task-Inv s v = next_of-Inv _ _ _ _ s refl refl refl refl v

pub watch_done-Inv :
    (p c : ℕ) (deadline : Bool) (now : ℕ) (s : Scheduler)
    → Inv s
    → Inv (watch_done p c deadline now s)
unfolding watch_done
watch_done-Inv p c deadline now s v =
    if_holds Inv (GoMap.has s.active_tasks (s.heap p).id)
      (write-Inv s v p _ _ refl refl refl refl refl v.within (ground arith)
        (ground (arith, v.unfinished p))
        (IsActiveMap-remove s.heap s.active_tasks v.active p _ _ refl))
      (queues-Inv s _ v refl refl refl v.ranked.in_emergency v.ranked.in_high v.ranked.in_medium
        v.ranked.in_low)

execute_task-Inv : (p now : ℕ) (s : Scheduler) → Inv s → Holds Inv (execute_task p now s)
unfolding execute_task
execute_task-Inv p now s v = elim (try_send_cases s.task_chan p) [
  | inl (_, e) ↦ rw (e, execute_task) tt
  | inr (inl (_, _, e)) ↦ rw (e, execute_task) (reject-Inv p now _ (activate-Inv p now s v))
  | inr (inr (_, room, e)) ↦
      rw (e, execute_task)
        (write-Inv s v p _ _ refl refl refl refl refl (pushed-IsWithin s.task_chan p room) refl
          (λ f. cc) (IsActiveMap-put s.heap s.active_tasks v.active p _ refl refl))
]

pub schedule_round-Inv : (now : ℕ) (s : Scheduler) → Inv s → Holds Inv (schedule_round now s)
unfolding schedule_round
schedule_round-Inv now s v = elim (Option-cases (get_next_task s).0) [
  | inl e ↦ rw (e, schedule_round) (get_next_task-Inv s v)
  | inr (p, e) ↦ rw (e, schedule_round) (execute_task-Inv p now _ (get_next_task-Inv s v))
]
