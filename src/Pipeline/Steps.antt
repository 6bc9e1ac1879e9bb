-- ===== src/Pipeline/Steps.antt =====
-- internal/core/queue.go and executor.go: the steps of the pipeline keep the invariant.
use go_control.Prelude.{
  ℕ, ◌<◌, String, ◌≡◌, refl, ap, ◌∙◌, subst, inl, inr, Option, some, List, [], ◌∷◌, arith, eq_iff,
  All-append, Option-cases,
}
use go_control.GoMap
use go_control.GoMap.{GoMap}
use go_control.Outcome.{returns, Holds, and_then-Holds}
use go_control.Channel.{Channel, receive, receive_cases}
use go_control.Queue.{ExecutionQueue, QueuedCommand, QueueError}
use go_control.Queue.Marking.{mark_command_completed, with_context, finished}
use go_control.Executor.{CommandExecutor, add_device, complete}
use go_control.Pipeline.{
  Pipeline, queue_of, set_queue, set_executor, take_at, dispatch, take, expire, abandon, clean,
  note,
}
use go_control.Pipeline.Occurrences.{occ, occ-append, take_at-occ, AllTaken, take_at-AllTaken}
use go_control.Pipeline.Facts.{Facts-move, Facts-remove}
use go_control.Pipeline.Effects.{mark_command_completed_cases, Fewer, cleanup-Fewer}
use go_control.Pipeline.Unsent.{Unsent, ids_of, ahead_of, IsUsed, updated-Unsent, moved-Unsent}

complete-Holds :
    (P : ExecutionQueue × Option QueueError → Type 0) (Q : CommandExecutor → Type 0) (id : String)
    (err : Option String) (now : ℕ) (ce : CommandExecutor)
    → Holds P (mark_command_completed id err now ce.queue)
    → ((r : ExecutionQueue × Option QueueError) → P r → Q (record ce { queue = r.0 }))
    → Holds Q (complete id err now ce)
complete-Holds P Q id err now ce h k =
    and_then-Holds P Q (mark_command_completed id err now ce.queue)
      (λ r. returns (record ce { queue = r.0 })) h k

add_device_same :
    (id : String) (d : ℕ) (connected : Option String) (ce : CommandExecutor)
    → ((add_device id d connected ce).0.queue ≡ ce.queue)
      × ((add_device id d connected ce).0.writes ≡ ce.writes)
unfolding add_device
add_device_same id d connected ce = ground arith

module _ (seen : List String) (l : Pipeline) (u : Unsent seen l) where
  -- The map of commands loses entries; objects, pointers and writes stay.
  removed-Unsent :
      (r : Pipeline)
      → (queue_of r).heap ≡ (queue_of l).heap
      → (queue_of r).next ≡ (queue_of l).next
      → ((k : String) (p : ℕ)
          → GoMap.get (queue_of r).commands k ≡ some p
          → GoMap.get (queue_of l).commands k ≡ some p)
      → r.executor.writes ≡ l.executor.writes
      → (queue_of r).send_chan.buffer ≡ (queue_of l).send_chan.buffer
      → r.processing ≡ l.processing
      → r.marking ≡ l.marking
      → r.waiting ≡ l.waiting
      → Unsent seen r
  removed-Unsent r e₁ e₂ fewer e₃ e₄ e₅ e₆ e₇ = record {
    silent = e₃ ∙ u.silent;
    facts = rw (e₁, e₂, e₄, e₅, e₆, e₇) (Facts-remove u.facts (queue_of r).commands fewer);
    in_channel = rw (e₂, e₄) u.in_channel;
    in_processing = rw (e₂, e₅) u.in_processing;
    in_marking = rw (e₂, e₆) u.in_marking;
    in_waiting = rw (e₂, e₇) u.in_waiting;
  }

  pub take-Unsent : Unsent seen (take (receive (queue_of l).send_chan) l)
  take-Unsent = elim (receive_cases (queue_of l).send_chan) [
    | inl e ↦ rw (e, take) u
    | inr (p, rest, b, e) ↦
        let used = subst (IsUsed l) b u.in_channel in
        rw (e, take)
          (record {
            silent = u.silent;
            facts = Facts-move u.facts _ _ (λ k.
                omega
                  (arith, ap (occ (ids_of l) k) b, occ-append (ids_of l) k l.processing (p ∷ [])));
            in_channel = used.1;
            in_processing = All-append _ l.processing _ u.in_processing (used.0, tt);
            in_marking = u.in_marking;
            in_waiting = u.in_waiting;
          })
  ]

  pub dispatch-Unsent : Unsent seen (dispatch (receive (queue_of l).send_chan) l)
  dispatch-Unsent = elim (receive_cases (queue_of l).send_chan) [
    | inl e ↦ rw (e, dispatch) u
    | inr (p, rest, b, e) ↦
        let used = subst (IsUsed l) b u.in_channel in
        rw (e, dispatch)
          (unfold with_context in
            updated-Unsent seen l u _ p _ refl refl refl refl refl (λ pos. refl)
              (λ k.
                omega (arith, ap (occ (ids_of l) k) b, occ-append (ids_of l) k l.marking (p ∷ [])))
              used.1 u.in_processing (All-append _ l.marking _ u.in_marking (used.0, tt))
              u.in_waiting)
  ]

  pub abandon-Unsent : (i : ℕ) → Unsent seen (abandon (take_at i l.waiting) l)
  abandon-Unsent i = elim (Option-cases (take_at i l.waiting)) [
    | inl e ↦ rw (e, abandon) u
    | inr ((p, rest), e) ↦
        let used = subst (AllTaken _) e (take_at-AllTaken _ i l.waiting u.in_waiting) in
        rw (e, abandon)
          (record {
            silent = u.silent;
            facts =
                Facts-move u.facts _ _
                  (λ k. omega (arith, take_at-occ i l.waiting (ids_of l) k p rest e));
            in_channel = u.in_channel;
            in_processing = u.in_processing;
            in_marking = u.in_marking;
            in_waiting = used.1;
          })
  ]

  pub expire-Unsent : (i now : ℕ) → Holds (Unsent seen) (expire (take_at i l.waiting) now l)
  expire-Unsent i now = elim (Option-cases (take_at i l.waiting)) [
    | inl e ↦ rw (e, expire) u
    | inr ((p, rest), e) ↦
        rw (e, expire)
          (and_then-Holds (λ ce. Unsent seen (after ce rest)) (Unsent seen)
            (complete (ids_of l p) (some "command timeout") now l.executor)
            (λ ce. returns (after ce rest))
            (elim (mark_command_completed_cases (ids_of l p) (some "command timeout") now
              (queue_of l)) [
                | inl h ↦
                    complete-Holds _ (λ ce. Unsent seen (after ce rest)) _ _ now l.executor h
                      (λ r w.
                        moved-Unsent seen l u (after (record l.executor { queue = r.0 }) rest) w.0
                          w.1 w.2 refl
                          (λ k.
                            rw w.3 (omega (arith, take_at-occ i l.waiting (ids_of l) k p rest e)))
                          (rw w.3 u.in_channel) u.in_processing u.in_marking (used p rest e).1)
                | inr (q, f, h) ↦
                    complete-Holds _ (λ ce. Unsent seen (after ce rest)) _ _ now l.executor h
                      (λ r w.
                        updated-Unsent seen l u (after (record l.executor { queue = r.0 }) rest) q
                          (timed_out q now) w.0 w.1 w.2 refl refl
                          (λ pos. absurd (gone p q rest e f (rw w.3 at pos)))
                          (λ k.
                            rw w.3 (omega (arith, take_at-occ i l.waiting (ids_of l) k p rest e)))
                          (rw w.3 u.in_channel) u.in_processing u.in_marking (used p rest e).1)
              ])
            (λ ce w. w))
  ]
    where
      after : CommandExecutor → List ℕ → Pipeline
      after ce rest = record (set_executor ce l) { waiting = rest }

      timed_out : ℕ → ℕ → QueuedCommand
      timed_out q at = finished (some "command timeout") at ((queue_of l).heap q)

      used :
          (p : ℕ) (rest : List ℕ)
          → take_at i l.waiting ≡ some (p, rest)
          → (p < (queue_of l).next) × IsUsed l rest
      used p rest e = subst (AllTaken _) e (take_at-AllTaken _ i l.waiting u.in_waiting)

      gone :
          (p q : ℕ) (rest : List ℕ)
          → take_at i l.waiting ≡ some (p, rest)
          → GoMap.get (queue_of l).commands (ids_of l p) ≡ some q
          → 0 < ahead_of l (ids_of l q)
          → ⊥
      gone p q rest e f pos = ground (
        arith,
        take_at-occ i l.waiting (ids_of l) (ids_of l p) p rest e,
        u.facts.once (ids_of l p),
        u.facts.keyed (ids_of l p) q f,
        eq_iff (ids_of l p) (ids_of l p),
      )

  -- Only the queue changes, and only by losing commands.
  pub Fewer-Unsent : (q : ExecutionQueue) → Fewer (queue_of l) q → Unsent seen (set_queue q l)
  Fewer-Unsent q f =
      removed-Unsent (set_queue q l) f.heap_same f.next_same f.fewer refl
        (ap (λ (c : Channel ℕ). c.buffer) f.chan_same) refl refl refl

  pub clean-Unsent : Unsent seen (clean (receive (queue_of l).complete_chan) l)
  clean-Unsent = elim (receive_cases (queue_of l).complete_chan) [
    | inl e ↦ rw (e, clean) u
    | inr (p, rest, b, e) ↦
        let f = cleanup-Fewer p (record (queue_of l) {
          complete_chan = record (queue_of l).complete_chan { buffer = rest };
        }) in
        rw (e, clean)
          (Fewer-Unsent _ (record {
            heap_same = f.heap_same;
            next_same = f.next_same;
            chan_same = f.chan_same;
            fewer = f.fewer;
          }))
  ]

  pub note-Unsent : Unsent seen (note (receive (queue_of l).complete_chan) l)
  note-Unsent = elim (receive_cases (queue_of l).complete_chan) [
    | inl e ↦ rw (e, note) u
    | inr (p, rest, b, e) ↦
        rw (e, note)
          (Fewer-Unsent _
            (record { heap_same = refl; next_same = refl; chan_same = refl; fewer = λ k q f. f }))
  ]

  pub add_device-Unsent :
      (id : String) (d : ℕ) (connected : Option String)
      → Unsent seen (set_executor (add_device id d connected l.executor).0 l)
  add_device-Unsent id d connected =
      let same = add_device_same id d connected l.executor in
      removed-Unsent _ (ap (λ (q : ExecutionQueue). q.heap) same.0)
        (ap (λ (q : ExecutionQueue). q.next) same.0) (λ k p e. rw same.0 at e) same.1
        (ap (λ (q : ExecutionQueue). q.send_chan.buffer) same.0) refl refl refl
