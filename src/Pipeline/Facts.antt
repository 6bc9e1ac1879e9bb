-- ===== src/Pipeline/Facts.antt =====
-- internal/core/queue.go and executor.go: what keeps a command from being executed. Each id is held
-- by one pointer at most, and as long as that pointer has not been dispatched by the queue, the
-- command in the map is still pending.
use go_control.Prelude.{
  ℕ, suc, ◌+◌, ◌≤◌, ◌<◌, String, ◌≡◌, Bool, true, false, some, List, [], ◌∷◌, arith, str_eq, eq_iff,
  if◌then◌else◌, update, ◌||◌,
}
use go_control.GoMap
use go_control.GoMap.{GoMap, get-put}
use go_control.Queue.{QueuedCommand, is_pending}
use go_control.Pipeline.Occurrences.{id_of}

abbrev pub is_in : String → List String → Bool
is_in k [] = false
is_in k (j ∷ js) = str_eq j k || is_in k js

-- `ahead k` counts the pointers with id `k` in the send channel or with the executor, and `behind k`
-- those that the queue has dispatched.
pub record Facts (seen : List String) (heap : ℕ → QueuedCommand) (next : ℕ) (commands : GoMap ℕ)
    (ahead behind : String → ℕ) : Type 0 where
  pub once : (k : String) → ahead k + behind k ≤ 1
  pub known : (k : String) → 0 < ahead k + behind k → is_in k seen ≡ true
  pub unsent :
      (k : String) (p : ℕ)
      → 0 < ahead k
      → GoMap.get commands k ≡ some p
      → is_pending (heap p).status ≡ true
  pub keyed : (k : String) (p : ℕ) → GoMap.get commands k ≡ some p → (id_of heap p ≡ k) × (p < next)

module _ {seen : List String} {heap : ℕ → QueuedCommand} {next : ℕ} {commands : GoMap ℕ}
    {ahead behind : String → ℕ} (f : Facts seen heap next commands ahead behind) where
  -- Pointers move on or are dropped.
  pub Facts-move :
      (ahead' behind' : String → ℕ)
      → ((k : String) → (ahead' k ≤ ahead k) × (ahead' k + behind' k ≤ ahead k + behind k))
      → Facts seen heap next commands ahead' behind'
  Facts-move ahead' behind' h = record {
    once = λ k. omega (arith, h k, f.once k);
    known = λ k pos. f.known k (omega (arith, h k));
    unsent = λ k p pos e. f.unsent k p (omega (arith, h k)) e;
    keyed = f.keyed;
  }

  -- Commands leave the map.
  pub Facts-remove :
      (fewer : GoMap ℕ)
      → ((k : String) (p : ℕ) → GoMap.get fewer k ≡ some p → GoMap.get commands k ≡ some p)
      → Facts seen heap next fewer ahead behind
  Facts-remove fewer h = record {
    once = f.once;
    known = f.known;
    unsent = λ k p pos e. f.unsent k p pos (h k p e);
    keyed = λ k p e. f.keyed k p (h k p e);
  }

  -- A command changes, with an id that is not ahead any more, or without a change of status.
  pub Facts-update :
      (p : ℕ) (c : QueuedCommand)
      → c.command.id ≡ (heap p).command.id
      → ((0 < ahead (id_of heap p) → c.status ≡ (heap p).status))
      → Facts seen (update heap p c) next commands ahead behind
  Facts-update p c same h = record {
    once = f.once;
    known = f.known;
    unsent = λ k q pos e. ground (arith, f.unsent k q pos e, f.keyed k q e, h);
    keyed = λ k q e. ground (arith, f.keyed k q e);
  }

  -- A new command with a new id.
  pub Facts-push :
      (c : QueuedCommand) (ahead' behind' : String → ℕ)
      → is_in c.command.id seen ≡ false
      → is_pending c.status ≡ true
      → ((k : String)
          → (ahead' k ≡ ahead k + (if str_eq c.command.id k then 1 else 0))
            × (behind' k ≡ behind k))
      → Facts
          (c.command.id ∷ seen)
          (update heap next c)
          (suc next)
          (GoMap.put commands c.command.id next)
          ahead'
          behind'
  Facts-push c ahead' behind' new pend h = record {
    once = λ k. ground (arith, f.once k, f.known k, h k, eq_iff c.command.id k);
    known = λ k pos. ground (arith, f.known k, h k, eq_iff c.command.id k);
    unsent = λ k q pos e. ground (
      arith,
      f.unsent k q,
      f.keyed k q,
      h k,
      get-put commands c.command.id k next,
      eq_iff c.command.id k,
    );
    keyed = λ k q e.
        ground (arith, f.keyed k q, get-put commands c.command.id k next, eq_iff c.command.id k);
  }
