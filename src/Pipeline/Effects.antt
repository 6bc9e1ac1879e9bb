-- ===== src/Pipeline/Effects.antt =====
-- internal/core/queue.go: what the operations of the queue leave alone.
use go_control.Prelude.{
  ℕ, String, ◌≡◌, refl, ◌∙◌, ◌⊎◌, inl, inr, Option, some, List, [], ◌∷◌, arith, update,
  Option-cases, Bool-cases,
}
use go_control.GoMap
use go_control.GoMap.{GoMap, get-remove, get-empty}
use go_control.Outcome.{Holds}
use go_control.Channel.{try_send_cases}
use go_control.Queue.{
  ExecutionQueue, QueuedCommand, QueueError, clear, remove_by_task_id, remove_commands,
  drop_command,
}
use go_control.Queue.Marking.{mark_command_completed, finished, cleanup_completed_command}

-- Apart from the completion channel and the lists of a task's commands, the queue keeps all but its
-- objects.
abbrev pub SameBut :
    (ℕ → QueuedCommand) → ExecutionQueue → ExecutionQueue × Option QueueError → Type 0
SameBut heap q r =
    (r.0.heap ≡ heap)
    × (r.0.next ≡ q.next)
    × (r.0.commands ≡ q.commands)
    × (r.0.send_chan ≡ q.send_chan)

-- What MarkCommandCompleted does to the queue.
pub mark_command_completed_cases :
    (id : String) (err : Option String) (now : ℕ) (q : ExecutionQueue)
    → Holds (SameBut q.heap q) (mark_command_completed id err now q)
      ⊎ ((p : ℕ) × (GoMap.get q.commands id ≡ some p)
          × Holds
              (SameBut (update q.heap p (finished err now (q.heap p))) q)
              (mark_command_completed id err now q))
unfolding mark_command_completed
mark_command_completed_cases id err now q = elim (Option-cases (GoMap.get q.commands id)) [
  | inl e ↦ inl (rw (e, mark_command_completed) (refl, refl, refl, refl))
  | inr (p, e) ↦ inr (
    p,
    e,
    rw (e, mark_command_completed)
        (elim (try_send_cases q.complete_chan p) [
          | inl (_, f) ↦ rw (f, mark_command_completed) tt
          | inr (inl (_, _, f)) ↦ rw (f, mark_command_completed) (refl, refl, refl, refl)
          | inr (inr (_, _, f)) ↦ rw (f, mark_command_completed) (refl, refl, refl, refl)
        ]),
  )
]

-- A later queue whose map of commands has lost entries.
pub record Fewer (q r : ExecutionQueue) : Type 0 where
  pub heap_same : r.heap ≡ q.heap
  pub next_same : r.next ≡ q.next
  pub chan_same : r.send_chan ≡ q.send_chan
  pub fewer :
      (k : String) (p : ℕ) → GoMap.get r.commands k ≡ some p → GoMap.get q.commands k ≡ some p

Fewer-refl : (q : ExecutionQueue) → Fewer q q
Fewer-refl q = record { heap_same = refl; next_same = refl; chan_same = refl; fewer = λ k p e. e }

Fewer-trans : {q r s : ExecutionQueue} → Fewer q r → Fewer r s → Fewer q s
Fewer-trans f g = record {
  heap_same = g.heap_same ∙ f.heap_same;
  next_same = g.next_same ∙ f.next_same;
  chan_same = g.chan_same ∙ f.chan_same;
  fewer = λ k p e. f.fewer k p (g.fewer k p e);
}

pub clear-Fewer : (q : ExecutionQueue) → Fewer q (clear q).0
unfolding clear
clear-Fewer q = elim (Bool-cases q.is_running) [
  | inl on ↦ simp on (record {
    heap_same = refl;
    next_same = refl;
    chan_same = refl;
    fewer = λ k p e. ground (arith, get-empty {V = ℕ} k);
  })
  | inr off ↦ simp off (Fewer-refl q)
]

-- One round of the loop of RemoveByTaskID.
drop_command-Fewer : (id : String) (q : ExecutionQueue) → Fewer q (drop_command id q)
unfolding drop_command
drop_command-Fewer id q = record {
  heap_same = ground arith;
  next_same = ground arith;
  chan_same = ground arith;
  fewer = λ k r e. ground (arith, get-remove q.commands id k);
}

remove_commands-Fewer : (ids : List String) (q : ExecutionQueue) → Fewer q (remove_commands ids q)
unfolding remove_commands
remove_commands-Fewer [] q = Fewer-refl q
remove_commands-Fewer (id ∷ ids) q =
    Fewer-trans (drop_command-Fewer id q) (remove_commands-Fewer ids (drop_command id q))

pub remove_by_task_id-Fewer : (id : String) (q : ExecutionQueue) → Fewer q (remove_by_task_id id q)
unfolding remove_by_task_id
remove_by_task_id-Fewer id q = elim (Option-cases (GoMap.get q.task_commands id)) [
  | inl e ↦ rw (e, remove_by_task_id) (Fewer-refl q)
  | inr (ids, e) ↦
      let f = remove_commands-Fewer ids q in
      rw (e, remove_by_task_id)
        (record {
          heap_same = f.heap_same;
          next_same = f.next_same;
          chan_same = f.chan_same;
          fewer = f.fewer;
        })
]

pub cleanup-Fewer : (p : ℕ) (q : ExecutionQueue) → Fewer q (cleanup_completed_command p q)
unfolding cleanup_completed_command
cleanup-Fewer p q = record {
  heap_same = ground arith;
  next_same = ground arith;
  chan_same = ground arith;
  fewer = λ k r e. ground (arith, get-remove q.commands (q.heap p).command.id k);
}
