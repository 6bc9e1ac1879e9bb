-- ===== src/Pipeline/Pushing.antt =====
-- internal/core/queue.go and executor.go: a new command keeps the invariant of the pipeline, if its
-- id is new.
use go_control.Prelude.{
  ℕ, suc, ◌+◌, ◌<◌, String, ◌≡◌, refl, inl, inr, false, not, Option, List, [], ◌∷◌, ◌++◌, arith,
  str_eq, if◌then◌else◌, update, All, All-append, All_weaken, if_holds, leb,
}
use go_control.GoMap
use go_control.GoMap.{GoMap}
use go_control.Outcome.{returns, Holds, and_then-Holds}
use go_control.Channel.{try_send_cases, pushed}
use go_control.Types.{MotionCommand}
use go_control.Queue.{ExecutionQueue, QueueError, push, added, queued}
use go_control.Executor.{CommandExecutor, ExecutorError, execute_command, with_queue}
use go_control.Pipeline.{Pipeline, queue_of, set_queue, set_executor}
use go_control.Pipeline.Occurrences.{id_of, occ, occ-append, occ_fresh}
use go_control.Pipeline.Facts.{is_in, Facts-push}
use go_control.Pipeline.Unsent.{Unsent, ids_of, ahead_of, behind_of, IsUsed}

module _ (seen : List String) (l : Pipeline) (u : Unsent seen l) where
  -- An id is seen from now on.
  pub seen-Unsent : (id : String) → Unsent (id ∷ seen) l
  seen-Unsent id = record {
    silent = u.silent;
    facts = record {
      once = u.facts.once;
      known = λ k pos. ground (arith, u.facts.known k pos);
      unsent = u.facts.unsent;
      keyed = u.facts.keyed;
    };
    in_channel = u.in_channel;
    in_processing = u.in_processing;
    in_marking = u.in_marking;
    in_waiting = u.in_waiting;
  }

  -- The new command is in the channel.
  added-Unsent :
      (cmd : MotionCommand) (now : ℕ)
      → is_in cmd.id seen ≡ false
      → Unsent (cmd.id ∷ seen) (
          set_queue
            (record (added cmd now (queue_of l)) {
              send_chan = pushed (queue_of l).send_chan (queue_of l).next;
            })
            l)
  added-Unsent cmd now new = record {
    silent = u.silent;
    facts = Facts-push u.facts (queued cmd now) _ _ new refl (λ k. (counted k, still k));
    in_channel =
        All-append _ (queue_of l).send_chan.buffer _ (grown _ u.in_channel) (omega arith, tt);
    in_processing = grown _ u.in_processing;
    in_marking = grown _ u.in_marking;
    in_waiting = grown _ u.in_waiting;
  }
    where
      ids : ℕ → String
      ids = id_of (update (queue_of l).heap (queue_of l).next (queued cmd now))

      same : (k : String) (ps : List ℕ) → IsUsed l ps → occ ids k ps ≡ occ (ids_of l) k ps
      same k ps h = occ_fresh (queue_of l).heap (queue_of l).next (queued cmd now) k ps h

      counted :
          (k : String)
          → occ ids k ((queue_of l).send_chan.buffer ++ (queue_of l).next ∷ [])
              + occ ids k l.processing
            ≡ ahead_of l k + (if str_eq cmd.id k then 1 else 0)
      counted k = ground (
        arith,
        occ-append ids k (queue_of l).send_chan.buffer ((queue_of l).next ∷ []),
        same k (queue_of l).send_chan.buffer u.in_channel,
        same k l.processing u.in_processing,
      )

      still : (k : String) → occ ids k l.marking + occ ids k l.waiting ≡ behind_of l k
      still k = omega (arith, same k l.marking u.in_marking, same k l.waiting u.in_waiting)

      grown : (ps : List ℕ) → IsUsed l ps → All (λ p. p < suc (queue_of l).next) ps
      grown ps h = All_weaken _ _ ps (λ p lt. omega arith) h

  push-Unsent :
      (cmd : MotionCommand) (now : ℕ)
      → is_in cmd.id seen ≡ false
      → Holds (λ r. Unsent (cmd.id ∷ seen) (set_queue r.0 l)) (push cmd now (queue_of l))
  push-Unsent cmd now new =
      unfold push in
      if_holds (Holds P) (not (queue_of l).is_running) (seen-Unsent cmd.id) (
        if_holds (Holds P) (leb (queue_of l).max_size (GoMap.size (queue_of l).commands))
          (seen-Unsent cmd.id)
          (elim (try_send_cases (queue_of l).send_chan (queue_of l).next) [
            | inl (_, e) ↦ rw e tt
            | inr (inl (_, _, e)) ↦ rw e tt
            | inr (inr (_, _, e)) ↦ rw e (added-Unsent cmd now new)
          ]))
    where
      P : ExecutionQueue × Option QueueError → Type 0
      P r = Unsent (cmd.id ∷ seen) (set_queue r.0 l)

  pub execute-Unsent :
      (cmd : MotionCommand) (now : ℕ)
      → is_in cmd.id seen ≡ false
      → Holds
          (λ r. Unsent (cmd.id ∷ seen) (set_executor r.0 l))
          (execute_command cmd now l.executor)
  execute-Unsent cmd now new =
      unfold execute_command in
      if_holds (Holds P) (not l.executor.is_running) (seen-Unsent cmd.id) (
        and_then-Holds (λ r. Unsent (cmd.id ∷ seen) (set_queue r.0 l)) P (push cmd now (queue_of l))
          (λ r. returns (with_queue l.executor r)) (push-Unsent cmd now new) (λ r w. w))
    where
      P : CommandExecutor × Option ExecutorError → Type 0
      P r = Unsent (cmd.id ∷ seen) (set_executor r.0 l)
