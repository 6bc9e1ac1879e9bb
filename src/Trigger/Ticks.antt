-- ===== src/Trigger/Ticks.antt =====
-- internal/core/trigger.go: what the trigger puts into the task channel on a timer tick.
use go_control.Prelude.{
  ℕ, ◌+◌, ◌<◌, ◌≡◌, refl, ap, ◌∙◌, true, false, Option, none, some, List, [], ◌∷◌, arith, eq_iff,
  length,
}
use go_control.GoMap
use go_control.GoMap.{get-put}
use go_control.Channel.{try_send_closed, try_send_room, pushed, close}
use go_control.Events.{Event, event_type_timer_tick}
use go_control.Outcome.{Outcome, returns, panics, and_then}
use go_control.Trigger.{
  TaskTrigger, TriggerSource, TriggerError, Visit, stop, send, fire, check_and_trigger_triggers,
  handle_event, should_trigger, second,
}

handle_event_tick :
    (e : Event) (vs : List Visit) (t : TaskTrigger)
    → e.kind ≡ event_type_timer_tick
    → handle_event e vs t ≡ check_and_trigger_triggers vs t
unfolding handle_event
handle_event_tick e vs t k = rw k refl

-- A trigger that is due and whose function returns a task sends it.
fire_due :
    (v : Visit) (s : TriggerSource) (p : ℕ) (t : TaskTrigger)
    → GoMap.get t.triggers v.key ≡ some s
    → s.enabled ≡ true
    → should_trigger v.tested_at s ≡ true
    → v.returned ≡ some p
    → fire v t ≡ send v s p t
unfolding fire
fire_due v s p t found enabled due r = ground arith

abbrev sent : Visit → TriggerSource → ℕ → TaskTrigger → TaskTrigger
sent v s p t = record t {
  task_chan = pushed t.task_chan p;
  triggers = GoMap.put t.triggers v.key (record s { last_trigger = some v.sent_at });
}

send_room :
    (v : Visit) (s : TriggerSource) (p : ℕ) (t : TaskTrigger)
    → t.task_chan.closed ≡ false
    → length t.task_chan.buffer < t.task_chan.capacity
    → send v s p t ≡ returns (sent v s p t)
unfolding send
send_room v s p t opened room = rw (try_send_room t.task_chan p opened room, send) refl

send_closed :
    (v : Visit) (s : TriggerSource) (p : ℕ) (t : TaskTrigger)
    → t.task_chan.closed ≡ true
    → send v s p t ≡ panics
unfolding send
send_closed v s p t shut = rw (try_send_closed t.task_chan p shut, send) refl

abbrev alone : Outcome TaskTrigger → Outcome TaskTrigger
alone o = and_then o (check_and_trigger_triggers [])

-- On a timer tick, a trigger that is due puts what its function returns into the channel as it is:
-- neither is the task validated nor does it get an id or a timeout.
pub tick_unchecked :
    (e : Event) (v : Visit) (s : TriggerSource) (p : ℕ) (t : TaskTrigger)
    → e.kind ≡ event_type_timer_tick
    → GoMap.get t.triggers v.key ≡ some s
    → s.enabled ≡ true
    → should_trigger v.tested_at s ≡ true
    → v.returned ≡ some p
    → t.task_chan.closed ≡ false
    → length t.task_chan.buffer < t.task_chan.capacity
    → handle_event e (v ∷ []) t
      ≡ returns (record t {
        task_chan = pushed t.task_chan p;
        triggers = GoMap.put t.triggers v.key (record s { last_trigger = some v.sent_at });
      })
unfolding check_and_trigger_triggers
tick_unchecked e v s p t k found on due r opened room =
    handle_event_tick e (v ∷ []) t k
    ∙ ap alone (fire_due v s p t found on due r ∙ send_room v s p t opened room)

-- Once the trigger has been stopped, a timer tick at which a trigger is due panics: the handler
-- does not ask whether the trigger runs.
pub tick_after_stop_panics :
    (e : Event) (v : Visit) (s : TriggerSource) (p : ℕ) (t : TaskTrigger)
    → e.kind ≡ event_type_timer_tick
    → t.running ≡ true
    → t.task_chan.closed ≡ false
    → GoMap.get t.triggers v.key ≡ some s
    → s.enabled ≡ true
    → should_trigger v.tested_at s ≡ true
    → v.returned ≡ some p
    → and_then (stop t) (λ r. handle_event e (v ∷ []) r.0) ≡ panics
unfolding stop close check_and_trigger_triggers
tick_after_stop_panics e v s p t k on opened found enabled due r =
    ap
      (λ (o : Outcome (TaskTrigger × Option TriggerError)).
        and_then o (λ x. handle_event e (v ∷ []) x.0))
      stops
    ∙ (handle_event_tick e (v ∷ []) shut k
        ∙ ap alone (fire_due v s p shut found enabled due r ∙ send_closed v s p shut refl))
  where
    shut : TaskTrigger
    shut = record t { task_chan = close t.task_chan; running = false }

    stops : stop t ≡ returns (shut, none)
    stops = simp (on, opened)

-- After a task of a trigger has been sent on a tick, the same trigger sends none on a visit that
-- comes less than a second later.
pub fire_soon :
    (v w : Visit) (s : TriggerSource) (p : ℕ) (t : TaskTrigger)
    → t.task_chan.closed ≡ false
    → length t.task_chan.buffer < t.task_chan.capacity
    → w.key ≡ v.key
    → w.tested_at < v.sent_at + second
    → and_then (send v s p t) (fire w) ≡ send v s p t
unfolding send fire
fire_soon v w s p t opened room same soon = ground (
  arith,
  try_send_room t.task_chan p opened room,
  get-put t.triggers v.key w.key (record s { last_trigger = some v.sent_at }),
  eq_iff v.key w.key,
  same,
  soon,
)
