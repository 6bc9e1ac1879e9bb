-- ===== src/Executor/Handling.antt =====
-- internal/core/executor.go: the goroutines of the executor that run executeCommands, and the events that
-- start and stop them. `context` is none before the first Start, and says after it whether `cancel` has
-- been called; the context that Start is given lives on. `goroutines` counts those that nothing has waited for.
use go_control.Prelude.{
  ℕ, suc, ◌≡◌, refl, Bool, true, false, Option, none, some, List, [], ◌∷◌, if◌then◌else◌, str_eq,
  not, if_holds, ap, ◌∙◌, sym, subst,
}
use go_control.Outcome.{
  Outcome, returns, panics, and_then, Returns, Returns_weaken, and_then-Returns,
}
use go_control.Events.{Event, event_type_system_start, event_type_system_stop}
use go_control.Executor
use go_control.Executor.{CommandExecutor, ExecutorError, already_running, not_running}

pub record Processing : Type 0 where
  pub executor : CommandExecutor
  pub context : Option Bool
  pub goroutines : ℕ

abbrev pub launched :
    Processing → CommandExecutor × Option ExecutorError → Processing × Option ExecutorError
launched p (ce, some e) = (record p { executor = ce; context = some false }, some e)
launched p (ce, none) =
    (record p { executor = ce; context = some false; goroutines = suc p.goroutines }, none)

unfoldable pub start : Processing → Processing × Option ExecutorError
start p =
    if p.executor.is_running
    then (p, some already_running)
    else launched p (Executor.start p.executor)

-- `cancel` and `Wait`: every goroutine ends once the context is cancelled.
abbrev pub ended : Processing → Processing
ended p = record p { context = some true; goroutines = 0 }

unfoldable pub stop : Processing → Outcome (Processing × Option ExecutorError)
stop p =
    if not p.executor.is_running
    then returns (p, some not_running)
    else and_then (Executor.stop p.executor)
        (λ r. returns (record (ended p) { executor = r.0 }, none))

-- A goroutine reads the context at once, which panics before the first Start.
abbrev pub executing : Processing → Option Bool → Outcome Processing
executing p none = panics
executing p (some cancelled) = returns (record p { goroutines = suc p.goroutines })

unfoldable pub start_command_processing : Processing → Outcome Processing
start_command_processing p = if p.executor.is_running then returns p else executing p p.context

-- `cancel` is nil before the first Start.
abbrev pub cancelling : Processing → Option Bool → Outcome Processing
cancelling p none = panics
cancelling p (some cancelled) = returns (ended p)

unfoldable pub stop_command_processing : Processing → Outcome Processing
stop_command_processing p = if p.executor.is_running then cancelling p p.context else returns p

-- The other events only log, and processCommandQueue does nothing.
unfoldable pub handle_event : Event → Processing → Outcome Processing
handle_event e p =
    if str_eq e.kind event_type_system_start
    then start_command_processing p
    else if str_eq e.kind event_type_system_stop
    then stop_command_processing p
    else returns p

unfoldable pub handle_events : List Event → Processing → Outcome Processing
handle_events [] p = returns p
handle_events (e ∷ es) p = and_then (handle_event e p) (handle_events es)

-- The executor runs, and no goroutine is left to execute its commands.
abbrev pub IsIdle : CommandExecutor → Processing → Type 0
IsIdle ce p = (p.executor ≡ ce) × (p.goroutines ≡ 0) × (p.context ≡ some true)

module _ (ce : CommandExecutor) (running : ce.is_running ≡ true) where
  start_command_processing-IsIdle :
      (p : Processing) → IsIdle ce p → Returns (IsIdle ce) (start_command_processing p)
  unfolding start_command_processing
  start_command_processing-IsIdle p h =
      subst (λ b. Returns (IsIdle ce) (if b then returns p else executing p p.context))
        (sym (ap (λ c. c.is_running) h.0 ∙ running)) h

  stop_command_processing-IsIdle :
      (p : Processing) (c : Bool)
      → p.executor ≡ ce
      → p.context ≡ some c
      → Returns (IsIdle ce) (stop_command_processing p)
  unfolding stop_command_processing
  stop_command_processing-IsIdle p c h live =
      subst (λ b. Returns (IsIdle ce) (if b then cancelling p p.context else returns p))
        (sym (ap (λ c. c.is_running) h ∙ running))
        (subst (λ c. Returns (IsIdle ce) (cancelling p c)) (sym live) (h, refl, refl))

  handle_event-IsIdle :
      (e : Event) (p : Processing) → IsIdle ce p → Returns (IsIdle ce) (handle_event e p)
  unfolding handle_event
  handle_event-IsIdle e p h =
      if_holds (Returns (IsIdle ce)) (str_eq e.kind event_type_system_start)
        (start_command_processing-IsIdle p h)
        (if_holds (Returns (IsIdle ce)) (str_eq e.kind event_type_system_stop)
          (stop_command_processing-IsIdle p true h.0 h.2) h)

  handle_events-IsIdle :
      (es : List Event) (p : Processing) → IsIdle ce p → Returns (IsIdle ce) (handle_events es p)
  unfolding handle_events
  handle_events-IsIdle [] p h = h
  handle_events-IsIdle (e ∷ es) p h =
      and_then-Returns (IsIdle ce) (IsIdle ce) (handle_event e p) (handle_events es)
        (handle_event-IsIdle e p h) (handle_events-IsIdle es)

  stopped :
      (e : Event) (p : Processing) (c : Bool)
      → p.executor ≡ ce
      → p.context ≡ some c
      → e.kind ≡ event_type_system_stop
      → Returns (IsIdle ce) (handle_event e p)
  unfolding handle_event
  stopped e p c same live stops = rw stops (stop_command_processing-IsIdle p c same live)

  refused : (q : Processing) → q.executor ≡ ce → start q ≡ (q, some already_running)
  unfolding start
  refused q h =
      subst
        (λ b.
          (if b then (q, some already_running) else launched q (Executor.start q.executor))
          ≡ (q, some already_running))
        (sym (ap (λ c. c.is_running) h ∙ running)) refl

  -- Once a running executor, whose context is there, has had a system stop event, then whatever events
  -- follow, system starts too, its state is unchanged and no goroutine is left that executes commands,
  -- with the context cancelled; and Start is refused, since the executor still counts as running.
  pub handle_events-stop :
      (p : Processing) (c : Bool) (e : Event) (es : List Event)
      → p.executor ≡ ce
      → p.context ≡ some c
      → e.kind ≡ event_type_system_stop
      → Returns
          (λ q. IsIdle ce q × (start q ≡ (q, some already_running)))
          (handle_events (e ∷ es) p)
  handle_events-stop p c e es same live stops =
      Returns_weaken (IsIdle ce) (λ q. IsIdle ce q × (start q ≡ (q, some already_running)))
        (handle_events (e ∷ es) p) (λ q h. (h, refused q h.0))
        (unfold handle_events in
          and_then-Returns (IsIdle ce) (IsIdle ce) (handle_event e p) (handle_events es)
            (stopped e p c same live stops) (handle_events-IsIdle es))
