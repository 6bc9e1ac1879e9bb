-- ===== src/Queue/TaskIds.antt =====
-- internal/core/queue.go: the task ids that the queue derives from command ids. The decomposers
-- name a command `<task id>-cmd-<n>`.
use Prim.Native.Char.{code}
use Prim.Native.String.{◌++◌ as append}
use text.Mathlib.TextLemmas.{nil-append, cons-append}
use go_control.Prelude.{
  ℕ, String, ◌≡◌, refl, ap, inl, inr, Bool, true, false, Option, some, List, [], ◌||◌, ◌==◌, arith,
  Bool-cases, eq_iff, str_eq,
}
use go_control.GoMap.{GoMap}
use go_control.GoMap
use go_control.GoMap.{get-put}
use go_control.Outcome.{Outcome, Holds}
use go_control.Types.{MotionCommand}
use go_control.Queue.{
  ExecutionQueue, QueueError, push, extract_task_id, remove_by_task_id, get_by_task_id,
  no_commands_for_task,
}
use go_control.Queue.Bounds.{Branch, push-Branch, stopped, refused, accepted, stuck, crashed}

abbrev pub has_dash : String → Bool
has_dash String.[] = false
has_dash (String.◌∷◌ c s) = code c == b'-' || has_dash s

-- What the queue takes for the task id has no dash.
pub has_dash-extract_task_id : (s : String) → has_dash (extract_task_id s) ≡ false
unfolding extract_task_id
has_dash-extract_task_id String.[] = refl
has_dash-extract_task_id (String.◌∷◌ c s) =
    elim (Bool-cases (code c == b'-'))
      as (λ _. has_dash (extract_task_id (String.◌∷◌ c s)) ≡ false) [
        | inl e ↦ rw e refl
        | inr e ↦ rw e (rw e (has_dash-extract_task_id s))
      ]

-- The task id is found again if it has no dash and a dash follows it.
pub extract_task_id-append :
    (t rest : String) → has_dash t ≡ false → extract_task_id (append t (append "-" rest)) ≡ t
unfolding extract_task_id
extract_task_id-append String.[] rest h = rw (nil-append, cons-append) refl
extract_task_id-append (String.◌∷◌ c t) rest h =
    elim (Bool-cases (code c == b'-'))
      as (λ _. extract_task_id (append (String.◌∷◌ c t) (append "-" rest)) ≡ String.◌∷◌ c t) [
        | inl e ↦ ground arith
        | inr e ↦
            rw (cons-append, e) (ap (String.◌∷◌ c) (extract_task_id-append t rest (ground arith)))
      ]

-- Every key of the map from task ids to commands is free of dashes.
abbrev pub IsKeyed : ExecutionQueue → Type 0
IsKeyed q = (t : String) → GoMap.has q.task_commands t ≡ true → has_dash t ≡ false

module _ (m : GoMap (List String)) (k : String) (v : List String)
    (dashless : has_dash k ≡ false) where
  has_dash-put :
      ((t : String) → GoMap.has m t ≡ true → has_dash t ≡ false)
      → (t : String) → GoMap.has (GoMap.put m k v) t ≡ true
      → has_dash t ≡ false
  has_dash-put keyed t h = elim (Bool-cases (str_eq k t)) [
    | inl e ↦ ground (arith, e, dashless, eq_iff k t)
    | inr e ↦ keyed t (ground (arith, h, e, get-put m k t v))
  ]

-- Push keeps every key of the map from task ids to commands free of dashes, whatever the id of the
-- command.
pub push-IsKeyed :
    (cmd : MotionCommand) (now : ℕ) (q : ExecutionQueue)
    → IsKeyed q
    → Holds (λ r. IsKeyed r.0) (push cmd now q)
push-IsKeyed cmd now q k = go (push-Branch cmd now q)
  where
    go :
        {o : Outcome (ExecutionQueue × Option QueueError)}
        → Branch cmd now q o
        → Holds (λ r. IsKeyed r.0) o
    go (stopped off) = k
    go (refused on big) = k
    go (accepted on small opened room) =
        has_dash-put q.task_commands _ _ (has_dash-extract_task_id cmd.id) k
    go (stuck on small opened no_room) = tt
    go (crashed on small shut) = tt

-- A task whose id has a dash, which is every task with an id from a trigger, has no commands for
-- the queue: RemoveByTaskID changes nothing and GetByTaskID returns an error.
pub by_task_id-dash :
    (t : String)
    → (q : ExecutionQueue) → IsKeyed q
    → has_dash t ≡ true
    → (remove_by_task_id t q ≡ q) × (get_by_task_id t q ≡ ([], some (no_commands_for_task t)))
unfolding remove_by_task_id get_by_task_id
by_task_id-dash t q k h = ground (arith, k t)
