-- ===== src/Pipeline/Unsent.antt =====
-- internal/core/queue.go and executor.go: an invariant of the pipeline under which no command is
-- written to a device.
use go_control.Prelude.{
  ℕ, ◌+◌, ◌≤◌, ◌<◌, String, ◌≡◌, refl, sym, ap, ◌∙◌, subst, ◌⊎◌, inl, inr, Bool, true, Option, none,
  some, List, [], ◌∷◌, arith, eq_iff, update, All, All-append, Option-cases, Bool-cases,
}
use go_control.GoMap
use go_control.GoMap.{GoMap}
use go_control.Outcome.{returns, Holds}
use go_control.Queue.{
  ExecutionQueue, QueuedCommand, QueueError, is_pending, command_not_found, not_sent, not_pending,
  sent,
}
use go_control.Queue.Marking.{write, mark_command_sent, mark_command_started}
use go_control.Executor.{CommandExecutor, process_command, after_start}
use go_control.Pipeline.{Pipeline, queue_of, take_at, mark, marked, process}
use go_control.Pipeline.Occurrences.{
  id_of, occ, occ-append, take_at-occ, AllTaken, take_at-AllTaken, id_of-update,
}
use go_control.Pipeline.Facts.{Facts, Facts-move, Facts-update}

abbrev pub ids_of : Pipeline → ℕ → String
ids_of l = id_of (queue_of l).heap

abbrev pub ahead_of : Pipeline → String → ℕ
ahead_of l k = occ (ids_of l) k (queue_of l).send_chan.buffer + occ (ids_of l) k l.processing

abbrev pub behind_of : Pipeline → String → ℕ
behind_of l k = occ (ids_of l) k l.marking + occ (ids_of l) k l.waiting

abbrev pub IsUsed : Pipeline → List ℕ → Type 0
IsUsed l ps = All (λ p. p < (queue_of l).next) ps

pub record Unsent (seen : List String) (l : Pipeline) : Type 0 where
  pub silent : l.executor.writes ≡ []
  pub facts :
      Facts seen
        (queue_of l).heap
        (queue_of l).next
        (queue_of l).commands
        (ahead_of l)
        (behind_of l)
  pub in_channel : IsUsed l (queue_of l).send_chan.buffer
  pub in_processing : IsUsed l l.processing
  pub in_marking : IsUsed l l.marking
  pub in_waiting : IsUsed l l.waiting

-- A command that is pending cannot be marked as started.
started_refused :
    (id : String) (now : ℕ) (q : ExecutionQueue)
    → ((p : ℕ) → GoMap.get q.commands id ≡ some p → is_pending (q.heap p).status ≡ true)
    → (e : QueueError) × (mark_command_started id now q ≡ (q, some e))
unfolding mark_command_started
started_refused id now q h = elim (Option-cases (GoMap.get q.commands id)) [
  | inl e ↦ (command_not_found id, rw (e, mark_command_started))
  | inr (p, e) ↦ (not_sent id, rw (e, mark_command_started) (ground (arith, h p e)))
]

process_refused :
    (p : ℕ) (connected : Bool) (result : Option String) (now : ℕ) (ce : CommandExecutor)
    → ((r : ℕ)
        → GoMap.get ce.queue.commands (id_of ce.queue.heap p) ≡ some r
        → is_pending (ce.queue.heap r).status ≡ true)
    → process_command p connected result now ce ≡ returns ce
unfolding process_command
process_refused p connected result now ce h =
    let (e, refused) = started_refused (id_of ce.queue.heap p) now ce.queue h in
    ap (after_start (ce.queue.heap p).command connected result now ce) refused

-- What MarkCommandSent does to the queue.
mark_command_sent_cases :
    (id : String) (now : ℕ) (q : ExecutionQueue)
    → ((e : QueueError) × (mark_command_sent id now q ≡ (q, some e)))
      ⊎ ((p : ℕ) × (GoMap.get q.commands id ≡ some p)
          × (mark_command_sent id now q
              ≡ (write p (record (q.heap p) { status = sent; sent_at = some now }) q, none)))
unfolding mark_command_sent
mark_command_sent_cases id now q = elim (Option-cases (GoMap.get q.commands id)) [
  | inl e ↦ inl (command_not_found id, rw (e, mark_command_sent))
  | inr (p, e) ↦ elim (Bool-cases (is_pending (q.heap p).status)) [
    | inl b ↦ inr (p, e, rw (e, mark_command_sent) (simp b))
    | inr b ↦ inl (not_pending id, rw (e, mark_command_sent) (simp b))
  ]
]

module _ (seen : List String) (l : Pipeline) (u : Unsent seen l) where
  pub process-Unsent :
      (i : ℕ) (connected : Bool) (result : Option String) (now : ℕ)
      → Holds (Unsent seen) (process (take_at i l.processing) connected result now l)
  process-Unsent i connected result now = elim (Option-cases (take_at i l.processing)) [
    | inl e ↦ rw (e, process) u
    | inr ((p, rest), e) ↦
        let used = subst (AllTaken _) e (take_at-AllTaken _ i l.processing u.in_processing) in
        let split = λ (k : String). take_at-occ i l.processing (ids_of l) k p rest e in
        rw (e, process)
          (rw
            (
              process_refused p connected result now l.executor (λ r f.
                  u.facts.unsent _ r
                    (ground (arith, split (ids_of l p), eq_iff (ids_of l p) (ids_of l p))) f),
              process,
            )
            (record {
              silent = u.silent;
              facts = Facts-move u.facts _ _ (λ k. omega (arith, split k));
              in_channel = u.in_channel;
              in_processing = used.1;
              in_marking = u.in_marking;
              in_waiting = u.in_waiting;
            }))
  ]

  -- Pointers move on or are dropped.
  pub moved-Unsent :
      (r : Pipeline)
      → (queue_of r).heap ≡ (queue_of l).heap
      → (queue_of r).next ≡ (queue_of l).next
      → (queue_of r).commands ≡ (queue_of l).commands
      → r.executor.writes ≡ l.executor.writes
      → ((k : String)
          → (occ (ids_of l) k (queue_of r).send_chan.buffer + occ (ids_of l) k r.processing
              ≤ ahead_of l k)
            × (occ (ids_of l) k (queue_of r).send_chan.buffer
                  + occ (ids_of l) k r.processing
                  + (occ (ids_of l) k r.marking + occ (ids_of l) k r.waiting)
                ≤ ahead_of l k + behind_of l k))
      → IsUsed l (queue_of r).send_chan.buffer
      → IsUsed l r.processing
      → IsUsed l r.marking
      → IsUsed l r.waiting
      → Unsent seen r
  moved-Unsent r e₁ e₂ e₃ e₄ less u₁ u₂ u₃ u₄ = record {
    silent = e₄ ∙ u.silent;
    facts = rw (e₁, e₂, e₃) (Facts-move u.facts _ _ less);
    in_channel = rw e₂ u₁;
    in_processing = rw e₂ u₂;
    in_marking = rw e₂ u₃;
    in_waiting = rw e₂ u₄;
  }

  -- Command `p` changes, with an id that is not ahead any more or without a change of status, and
  -- pointers move on or are dropped.
  pub updated-Unsent :
      (r : Pipeline) (p : ℕ) (c : QueuedCommand)
      → (queue_of r).heap ≡ update (queue_of l).heap p c
      → (queue_of r).next ≡ (queue_of l).next
      → (queue_of r).commands ≡ (queue_of l).commands
      → r.executor.writes ≡ l.executor.writes
      → c.command.id ≡ ((queue_of l).heap p).command.id
      → (0
            < occ (ids_of l) (ids_of l p) (queue_of r).send_chan.buffer
              + occ (ids_of l) (ids_of l p) r.processing
          → c.status ≡ ((queue_of l).heap p).status)
      → ((k : String)
          → (occ (ids_of l) k (queue_of r).send_chan.buffer + occ (ids_of l) k r.processing
              ≤ ahead_of l k)
            × (occ (ids_of l) k (queue_of r).send_chan.buffer
                  + occ (ids_of l) k r.processing
                  + (occ (ids_of l) k r.marking + occ (ids_of l) k r.waiting)
                ≤ ahead_of l k + behind_of l k))
      → IsUsed l (queue_of r).send_chan.buffer
      → IsUsed l r.processing
      → IsUsed l r.marking
      → IsUsed l r.waiting
      → Unsent seen r
  updated-Unsent r p c e₁ e₂ e₃ e₄ same h less u₁ u₂ u₃ u₄ = record {
    silent = e₄ ∙ u.silent;
    facts =
        rw (e₁, e₂, e₃)
          (subst
            (λ (ids : ℕ → String).
              Facts seen (update (queue_of l).heap p c) (queue_of l).next (queue_of l).commands
                (λ k. occ ids k (queue_of r).send_chan.buffer + occ ids k r.processing)
                (λ k. occ ids k r.marking + occ ids k r.waiting))
            (sym (id_of-update (queue_of l).heap p c same))
            (Facts-update (Facts-move u.facts _ _ less) p c same h));
    in_channel = rw e₂ u₁;
    in_processing = rw e₂ u₂;
    in_marking = rw e₂ u₃;
    in_waiting = rw e₂ u₄;
  }

  pub mark-Unsent : (i now : ℕ) → Unsent seen (mark (take_at i l.marking) now l)
  mark-Unsent i now = elim (Option-cases (take_at i l.marking)) [
    | inl e ↦ rw (e, mark) u
    | inr ((p, rest), e) ↦
        let used = subst (AllTaken _) e (take_at-AllTaken _ i l.marking u.in_marking) in
        let split = λ (k : String). take_at-occ i l.marking (ids_of l) k p rest e in
        rw (e, mark)
          (elim (mark_command_sent_cases (ids_of l p) now (queue_of l)) [
            | inl (x, f) ↦
                subst (λ r. Unsent seen (marked p rest l r)) (sym f)
                  (record {
                    silent = u.silent;
                    facts = Facts-move u.facts _ _ (λ k. omega (arith, split k));
                    in_channel = u.in_channel;
                    in_processing = u.in_processing;
                    in_marking = used.1;
                    in_waiting = u.in_waiting;
                  })
            | inr (r, f, g) ↦
                subst (λ r. Unsent seen (marked p rest l r)) (sym g)
                  (updated-Unsent _ r _ refl refl refl refl refl
                    (λ pos. absurd (
                      ground (
                        arith,
                        split (ids_of l p),
                        u.facts.once (ids_of l p),
                        u.facts.keyed (ids_of l p) r f,
                        eq_iff (ids_of l p) (ids_of l p),
                      )))
                    (λ k. omega (arith, split k, occ-append (ids_of l) k l.waiting (p ∷ [])))
                    u.in_channel u.in_processing used.1
                    (All-append _ l.waiting _ u.in_waiting (used.0, tt)))
          ])
  ]
