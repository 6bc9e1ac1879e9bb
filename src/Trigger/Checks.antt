-- ===== src/Trigger/Checks.antt =====
-- internal/core/trigger.go: what the trigger's own goroutine puts into the task channel.
use go_control.Prelude.{
  ℕ, String, ◌≡◌, refl, sym, subst, inl, inr, Bool, not, ◌==◌, Option, none, some, List, [], ◌∷◌,
  arith, str_eq, update, All, All-append, All_weaken, Option-cases, Bool-cases, ==_iff, if_holds,
}
use go_control.GoMap
use go_control.Channel.{try_send_cases}
use go_control.Outcome.{Holds, and_then-Holds}
use go_control.Types.{Task, SystemConfig, Float64}
use go_control.Trigger.{
  TaskTrigger, TriggerSource, TriggerError, Visit, send, with_timeout, check_task, validate_trigger,
  stamp, submit, check_trigger, check_triggers,
}
use go_control.Trigger.Validation.{IsWithinAxis, IsValid, validate_trigger-IsValid}

module _ (above : Float64 → Float64 → Bool) (config : SystemConfig) where
  abbrev pub AllValid : TaskTrigger → Type 0
  AllValid t = All (λ p. IsValid above config (t.heap p)) t.task_chan.buffer × (t.config ≡ config)

  within_same :
      (t u : Task) (axis : String)
      → u.target ≡ t.target
      → u.velocity ≡ t.velocity
      → IsWithinAxis above config t axis
      → IsWithinAxis above config u axis
  within_same t u axis g v w = record {
    limits = w.limits;
    configured = w.configured;
    x_above_min = rw g w.x_above_min;
    x_below_max = rw g w.x_below_max;
    y_above_min = rw g w.y_above_min;
    y_below_max = rw g w.y_below_max;
    slow_enough = rw v w.slow_enough;
  }

  -- Validity rests on four fields.
  IsValid-same :
      (t u : Task)
      → u.kind ≡ t.kind
      → u.axes ≡ t.axes
      → u.target ≡ t.target
      → u.velocity ≡ t.velocity
      → IsValid above config t
      → IsValid above config u
  IsValid-same t u k a g v w = record {
    has_type = rw k w.has_type;
    has_axes = rw a w.has_axes;
    within =
        subst (All (IsWithinAxis above config u)) (sym a)
          (All_weaken _ _ t.axes (λ axis. within_same t u axis g v) w.within);
  }

  module _ (heap : ℕ → Task) (p : ℕ) (u : Task)
      (keeps : IsValid above config (heap p) → IsValid above config u) where
    IsValid-update :
        (q : ℕ) → IsValid above config (heap q) → IsValid above config (update heap p u q)
    IsValid-update q w = elim (Bool-cases (p == q)) [
      | inl e ↦
          let same : q ≡ p = ground (arith, e, ==_iff p q) in
          rw e (keeps (subst (λ (r : ℕ). IsValid above config (heap r)) same w))
      | inr e ↦ rw e w
    ]

  send-AllValid :
      (v : Visit) (s : TriggerSource) (p : ℕ) (t : TaskTrigger)
      → AllValid t
      → IsValid above config (t.heap p)
      → Holds AllValid (send v s p t)
  unfolding send
  send-AllValid v s p t (all, same) ok = elim (try_send_cases t.task_chan p) [
    | inl (_, e) ↦ rw (e, send) tt
    | inr (inl (_, _, e)) ↦ rw (e, send) (all, same)
    | inr (inr (_, _, e)) ↦
        rw (e, send) (All-append _ t.task_chan.buffer (p ∷ []) all (ok, tt), same)
  ]

  module _ (sprintf_task : ℕ → String) where
    with_timeout-IsValid :
        (t : Task) → IsValid above config t → IsValid above config (with_timeout t)
    with_timeout-IsValid t w =
        if_holds (IsValid above config) (t.timeout == 0) (IsValid-same t _ refl refl refl refl w) w

    -- ValidateTrigger writes nothing that validity rests on.
    check_task-IsValid :
        (p : ℕ) (heap : ℕ → Task) (axes : List String) (q : ℕ)
        → IsValid above config (heap q)
        → IsValid above config ((check_task above config p heap axes).0 q)
    check_task-IsValid p heap [] q w = w
    check_task-IsValid p heap (axis ∷ rest) q w =
        IsValid-update heap p _ (with_timeout-IsValid (heap p)) q w

    validate_trigger-keeps :
        (p : ℕ) (heap : ℕ → Task) (q : ℕ)
        → IsValid above config (heap q)
        → IsValid above config ((validate_trigger above config (some p) heap).0 q)
    unfolding validate_trigger
    validate_trigger-keeps p heap q w =
        if_holds (λ (r : (ℕ → Task) × Option TriggerError). IsValid above config (r.0 q))
          (str_eq (heap p).kind "") w (check_task-IsValid p heap (heap p).axes q w)

    submit-AllValid :
        (v : Visit) (s : TriggerSource) (p : ℕ) (t : TaskTrigger)
        → (r : (ℕ → Task) × Option TriggerError) → AllValid t
        → ((q : ℕ) → IsValid above config (t.heap q) → IsValid above config (r.0 q))
        → (r.1 ≡ none → IsValid above config (t.heap p))
        → Holds AllValid (submit above sprintf_task v s p t r)
    submit-AllValid v s p t (heap, some e) ok keeps valid =
        (All_weaken _ _ t.task_chan.buffer keeps ok.0, ok.1)
    submit-AllValid v s p t (heap, none) ok keeps valid =
        send-AllValid v s p _
          (
            All_weaken _ _ t.task_chan.buffer
                (λ q w. IsValid-update heap p _ (stamped p) q (keeps q w)) ok.0,
            ok.1,
          )
          (IsValid-update heap p _ (stamped p) p (keeps p (valid refl)))
      where
        stamped :
            (q : ℕ)
            → IsValid above config (heap q)
            → IsValid above config (stamp above sprintf_task v (heap q))
        stamped q w = IsValid-same (heap q) _ refl refl refl refl w

    abbrev Accepts : ℕ → (ℕ → Task) → SystemConfig → Type 0
    Accepts p heap c = (validate_trigger above c (some p) heap).1 ≡ none

    check_trigger-AllValid :
        (v : Visit) (t : TaskTrigger)
        → AllValid t
        → Holds AllValid (check_trigger above sprintf_task v t)
    unfolding check_trigger
    check_trigger-AllValid v t ok = elim (Option-cases (GoMap.get t.triggers v.key)) [
      | inl e ↦ rw (e, check_trigger) ok
      | inr (s, e) ↦
          rw (e, check_trigger)
            (if_holds (Holds AllValid) (not s.enabled) ok (elim (Option-cases v.returned) [
              | inl f ↦ rw f ok
              | inr (p, f) ↦ rw f (
                  submit-AllValid v s p t (validate_trigger above t.config (some p) t.heap) ok
                    (rw ok.1 (validate_trigger-keeps p t.heap))
                    (λ h.
                      (validate_trigger-IsValid above config p t.heap).0
                        (subst (Accepts p t.heap) ok.1 h)))
            ]))
    ]

    -- If every task in the channel is valid for the configuration, this is so after any call of
    -- checkTriggers that returns, whatever the triggers' functions return.
    pub check_triggers-AllValid :
        (vs : List Visit) (t : TaskTrigger)
        → AllValid t
        → Holds AllValid (check_triggers above sprintf_task vs t)
    unfolding check_triggers
    check_triggers-AllValid [] t ok = ok
    check_triggers-AllValid (v ∷ vs) t ok =
        and_then-Holds AllValid AllValid (check_trigger above sprintf_task v t) _
          (check_trigger-AllValid v t ok) (λ r w. check_triggers-AllValid vs r w)
