-- ===== src/Pipeline/Never.antt =====
-- internal/core/queue.go and executor.go: no command reaches a device.
use go_control.Prelude.{ℕ, String, ◌≡◌, sym, ◌∙◌, arith, false, List, [], ◌∷◌, Option, none, some}
use go_control.GoMap
use go_control.GoMap.{get-empty}
use go_control.Outcome.{Holds, and_then-Holds}
use go_control.Queue.{clear, remove_by_task_id}
use go_control.Executor.{CommandExecutor, ExecutorError, execute_command}
use go_control.Pipeline.{
  Pipeline, Action, executes, adds_device, clears, removes_task, dispatches, takes, marks, expires,
  abandons, processes, cleans, notes, step, run, queue_of, set_executor,
}
use go_control.Pipeline.Facts.{is_in}
use go_control.Pipeline.Effects.{clear-Fewer, remove_by_task_id-Fewer}
use go_control.Pipeline.Unsent.{Unsent, ahead_of, behind_of, process-Unsent, mark-Unsent}
use go_control.Pipeline.Steps.{
  take-Unsent, dispatch-Unsent, abandon-Unsent, expire-Unsent, Fewer-Unsent, clean-Unsent,
  note-Unsent, add_device-Unsent,
}
use go_control.Pipeline.Pushing.{execute-Unsent}

-- The ids that have been pushed after an action.
abbrev pub seen_after : Action → List String → List String
seen_after (executes cmd now) seen = cmd.id ∷ seen
seen_after _ seen = seen

abbrev pub IsFresh : Action → List String → Type 0
IsFresh (executes cmd now) seen = is_in cmd.id seen ≡ false
IsFresh _ seen = Unit

-- No id is pushed twice, nor one that has been seen.
abbrev pub AreFresh : List Action → List String → Type 0
AreFresh [] seen = Unit
AreFresh (a ∷ rest) seen = IsFresh a seen × AreFresh rest (seen_after a seen)

step-Unsent :
    (a : Action) (seen : List String) (l : Pipeline)
    → IsFresh a seen
    → Unsent seen l
    → Holds (Unsent (seen_after a seen)) (step a l)
unfolding step
step-Unsent (executes cmd now) seen l new u =
    and_then-Holds P (Unsent (cmd.id ∷ seen)) (execute_command cmd now l.executor) _
      (execute-Unsent seen l u cmd now new) (λ r w. w)
  where
    P : CommandExecutor × Option ExecutorError → Type 0
    P r = Unsent (cmd.id ∷ seen) (set_executor r.0 l)
step-Unsent (adds_device id d connected) seen l _ u = add_device-Unsent seen l u id d connected
step-Unsent clears seen l _ u =
    Fewer-Unsent seen l u (clear (queue_of l)).0 (clear-Fewer (queue_of l))
step-Unsent (removes_task id) seen l _ u =
    Fewer-Unsent seen l u (remove_by_task_id id (queue_of l))
      (remove_by_task_id-Fewer id (queue_of l))
step-Unsent dispatches seen l _ u = dispatch-Unsent seen l u
step-Unsent takes seen l _ u = take-Unsent seen l u
step-Unsent (marks i now) seen l _ u = mark-Unsent seen l u i now
step-Unsent (expires i now) seen l _ u = expire-Unsent seen l u i now
step-Unsent (abandons i) seen l _ u = abandon-Unsent seen l u i
step-Unsent (processes i connected result now) seen l _ u =
    process-Unsent seen l u i connected result now
step-Unsent cleans seen l _ u = clean-Unsent seen l u
step-Unsent notes seen l _ u = note-Unsent seen l u

run-silent :
    (actions : List Action) (seen : List String) (l : Pipeline)
    → AreFresh actions seen
    → Unsent seen l
    → Holds (λ r. r.executor.writes ≡ []) (run actions l)
unfolding run
run-silent [] seen l f u = u.silent
run-silent (a ∷ rest) seen l f u =
    and_then-Holds (Unsent (seen_after a seen)) (λ r. r.executor.writes ≡ []) (step a l) (run rest)
      (step-Unsent a seen l f.0 u) (λ r w. run-silent rest (seen_after a seen) r f.1 w)

-- A pipeline with an empty queue and no goroutine at work.
pub record IsIdle (l : Pipeline) : Type 0 where
  pub no_writes : l.executor.writes ≡ []
  pub no_commands : (queue_of l).commands ≡ GoMap.empty
  pub nothing_queued : (queue_of l).send_chan.buffer ≡ []
  pub no_marking : l.marking ≡ []
  pub no_waiting : l.waiting ≡ []
  pub no_processing : l.processing ≡ []

IsIdle-Unsent : (l : Pipeline) → IsIdle l → Unsent [] l
IsIdle-Unsent l h = record {
  silent = h.no_writes;
  facts = record {
    once = λ k. omega (arith, none_at k);
    known = λ k pos. absurd (omega (arith, none_at k));
    unsent = λ k p pos e. absurd (omega (arith, none_at k));
    keyed = λ k p e. absurd (some_of_none p (sym e ∙ (rw h.no_commands (get-empty k))));
  };
  in_channel = rw h.nothing_queued tt;
  in_processing = rw h.no_processing tt;
  in_marking = rw h.no_marking tt;
  in_waiting = rw h.no_waiting tt;
}
  where
    none_at : (k : String) → (ahead_of l k ≡ 0) × (behind_of l k ≡ 0)
    none_at k = (
      rw (h.nothing_queued, h.no_processing) (omega arith),
      rw (h.no_marking, h.no_waiting) (omega arith),
    )

    some_of_none : (p : ℕ) → ◌≡◌ {A = Option ℕ} (some p) none → ⊥
    some_of_none p e = cc

-- However the steps of `Action` interleave, whatever the devices answer: from an
-- idle pipeline, with no command id pushed twice, no state is reached in which `device.Write` has
-- been called.
pub run-no_writes :
    (actions : List Action) (l : Pipeline)
    → IsIdle l
    → AreFresh actions []
    → Holds (λ r. r.executor.writes ≡ []) (run actions l)
run-no_writes actions l h f = run-silent actions [] l f (IsIdle-Unsent l h)
