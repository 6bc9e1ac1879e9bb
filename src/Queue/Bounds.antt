-- ===== src/Queue/Bounds.antt =====
-- internal/core/queue.go: how many commands the queue holds, and what a full send channel does.
use go_control.Prelude.{
  ℕ, ◌+◌, ◌≤◌, ◌<◌, ◌≡◌, refl, sym, ap, subst, ◌∙◌, ◌⊎◌, inl, inr, true, false, Option, none, some,
  List, [], ◌∷◌, arith, length, length-append, Bool-cases,
}
use go_control.GoMap.{size-put-le}
use go_control.Outcome.{Outcome, returns, panics, deadlocks, Holds, and_then}
use go_control.Channel.{
  Send, delivered, full, panicked, IsWithin, try_send, try_send_cases, pushed, pushed-IsWithin,
}
use go_control.Types.{MotionCommand}
use go_control.Queue.{ExecutionQueue, QueueError, push, added, size, queue_full, not_running}

abbrev sent_as :
    MotionCommand → ℕ → ExecutionQueue → Send ℕ → Outcome (ExecutionQueue × Option QueueError)
sent_as cmd now q (delivered c) = returns (record (added cmd now q) { send_chan = c }, none)
sent_as cmd now q full = deadlocks
sent_as cmd now q panicked = panics

-- What a push does, according to the state that it finds.
pub data Branch (cmd : MotionCommand) (now : ℕ) (q : ExecutionQueue)
    : Outcome (ExecutionQueue × Option QueueError) → Type 0 where
  stopped : q.is_running ≡ false → Branch cmd now q (returns (q, some not_running))
  refused :
      q.is_running ≡ true → q.max_size ≤ size q → Branch cmd now q (returns (q, some queue_full))
  accepted :
      q.is_running ≡ true
      → size q < q.max_size
      → q.send_chan.closed ≡ false
      → length q.send_chan.buffer < q.send_chan.capacity
      → Branch cmd now q
          (returns (record (added cmd now q) { send_chan = pushed q.send_chan q.next }, none))
  stuck :
      q.is_running ≡ true
      → size q < q.max_size
      → q.send_chan.closed ≡ false
      → q.send_chan.capacity ≤ length q.send_chan.buffer
      → Branch cmd now q deadlocks
  crashed :
      q.is_running ≡ true
      → size q < q.max_size
      → q.send_chan.closed ≡ true
      → Branch cmd now q panics

le_or_lt : (a b : ℕ) → (a ≤ b) ⊎ (b < a)
le_or_lt a b = grind arith

module _ (cmd : MotionCommand) (now : ℕ) (q : ExecutionQueue) where
  push_stopped : q.is_running ≡ false → push cmd now q ≡ returns (q, some not_running)
  unfolding push
  push_stopped off = ground arith

  push_refused :
      q.is_running ≡ true → q.max_size ≤ size q → push cmd now q ≡ returns (q, some queue_full)
  unfolding push size
  push_refused on big = ground arith

  push_sends :
      q.is_running ≡ true
      → size q < q.max_size
      → (o : Send ℕ) → try_send q.send_chan q.next ≡ o
      → push cmd now q ≡ sent_as cmd now q o
  unfolding push size
  push_sends on small o e = ground arith

  pub push-Branch : Branch cmd now q (push cmd now q)
  push-Branch = elim (Bool-cases q.is_running) [
    | inr off ↦ subst P (sym (push_stopped off)) (stopped off)
    | inl on ↦ elim (le_or_lt q.max_size (size q)) [
      | inl big ↦ subst P (sym (push_refused on big)) (refused on big)
      | inr small ↦ elim (try_send_cases q.send_chan q.next) [
        | inl (shut, e) ↦ subst P (sym (push_sends on small _ e)) (crashed on small shut)
        | inr (inl (opened, no_room, e)) ↦
            subst P (sym (push_sends on small _ e)) (stuck on small opened no_room)
        | inr (inr (opened, room, e)) ↦
            subst P (sym (push_sends on small _ e)) (accepted on small opened room)
      ]
    ]
  ]
    where
      P : Outcome (ExecutionQueue × Option QueueError) → Type 0
      P = Branch cmd now q

-- A push never takes the number of commands past the limit.
pub size-push-le :
    (cmd : MotionCommand) (now : ℕ) (q : ExecutionQueue)
    → size q ≤ q.max_size
    → Holds (λ r. (size r.0 ≤ r.0.max_size) × (r.0.max_size ≡ q.max_size)) (push cmd now q)
unfolding size
size-push-le cmd now q h = go (push-Branch cmd now q)
  where
    go :
        {o : Outcome (ExecutionQueue × Option QueueError)}
        → Branch cmd now q o
        → Holds (λ r. (size r.0 ≤ r.0.max_size) × (r.0.max_size ≡ q.max_size)) o
    go (stopped off) = (h, refl)
    go (refused on big) = (h, refl)
    go (accepted on small opened room) = (omega (arith, size-put-le q.commands cmd.id q.next), refl)
    go (stuck on small opened no_room) = tt
    go (crashed on small shut) = tt

-- Commands that are pushed one after the other, with nothing received in between.
pub push_all : ℕ → List MotionCommand → ExecutionQueue → Outcome ExecutionQueue
push_all now [] q = returns q
push_all now (c ∷ cs) q = and_then (push c now q) (λ r. push_all now cs r.0)

abbrev continue :
    ℕ → List MotionCommand → Outcome (ExecutionQueue × Option QueueError) → Outcome ExecutionQueue
continue now cs o = and_then o (λ r. push_all now cs r.0)

-- If commands are pushed one after the other into a running queue, whose send channel is open
-- and holds no more than its capacity, and nothing is received from it between the pushes, and the limit
-- of the queue leaves room for all the commands but the send channel does not, then one of the pushes blocks for ever: none is refused with an error.
pub push_all_deadlocks :
    (now : ℕ) (cs : List MotionCommand) (q : ExecutionQueue)
    → q.is_running ≡ true
    → q.send_chan.closed ≡ false
    → IsWithin q.send_chan
    → size q + length cs ≤ q.max_size
    → q.send_chan.capacity < length q.send_chan.buffer + length cs
    → push_all now cs q ≡ deadlocks
unfolding push_all
push_all_deadlocks now [] q on opened w small over = absurd (omega arith)
push_all_deadlocks now (c ∷ cs) q on opened w small over =
    elim (try_send_cases q.send_chan q.next) [
      | inl (shut, e) ↦ cc
      | inr (inl (_, no_room, e)) ↦ ap (continue now cs) (push_sends c now q on (omega arith) _ e)
      | inr (inr (_, room, e)) ↦
          ap (continue now cs) (push_sends c now q on (omega arith) _ e)
          ∙ push_all_deadlocks now cs _ on opened (pushed-IsWithin q.send_chan q.next room)
              (unfold size in omega (arith, size-put-le q.commands c.id q.next))
              (omega (arith, length-append q.send_chan.buffer (q.next ∷ [])))
    ]
