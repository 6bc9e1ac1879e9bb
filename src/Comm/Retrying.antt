-- ===== src/Comm/Retrying.antt =====
-- internal/hardware/comm/base.go: how often RetryWithTimeout calls the operation, when it succeeds,
-- and whom an error is reported to.
use mathlib.Core.List.{append-nil, append_assoc}
use go_control.Prelude.{
  ◌<◌, ℕ, zero, suc, ◌+◌, ◌≤◌, String, ◌≡◌, ◌≢◌, refl, inl, inr, ◌⊎◌, Bool, false, Option, none,
  some, List, [], ◌∷◌, ◌++◌, arith, length, map, Option-cases, All, ◌↔◌, sym, subst, ◌∙◌,
}
use go_control.Comm.{
  ErrorHandler, BaseCommunication, CommEvent, on_error, succeeded, RetryRun, retry_from,
  retry_with_timeout, default_error_handler, handle_with_error, handled, emit_event, call_all,
  add_event_handler, remove_event_handler, without,
}

module _ (operation : ℕ → Option String) (done done_waiting : ℕ → Bool) where
  retry_from-calls-le :
      (interval : ℕ) (handler : Option ErrorHandler) (i left : ℕ)
      → (retry_from operation done done_waiting interval handler i left).calls ≤ suc left
  unfolding retry_from
  retry_from-calls-le interval handler i zero = ground arith
  retry_from-calls-le interval handler i (suc left) =
      ground (arith, retry_from-calls-le interval handler (suc i) left)

  retry_from-delays-le :
      (interval : ℕ) (handler : Option ErrorHandler) (i left : ℕ)
      → let r = retry_from operation done done_waiting interval handler i left in
        length r.delays ≤ r.calls
  unfolding retry_from
  retry_from-delays-le interval handler i zero = ground arith
  retry_from-delays-le interval handler i (suc left) =
      ground (arith, retry_from-delays-le interval handler (suc i) left)

  -- The operation is called at most once more than the configured number of retries, and there are
  -- no more waits than calls.
  pub retry_with_timeout-calls-le :
      (bc : BaseCommunication)
      → let r = retry_with_timeout operation done done_waiting bc in
        (r.calls ≤ suc bc.config.retry_count) × (length r.delays ≤ r.calls)
  unfolding retry_with_timeout
  retry_with_timeout-calls-le bc = (
    retry_from-calls-le bc.config.retry_interval bc.error_handler 0 bc.config.retry_count,
    retry_from-delays-le bc.config.retry_interval bc.error_handler 0 bc.config.retry_count,
  )

  -- With the default error handler the operation is called once at most: no error is retried.
  pub retry_default_once :
      (bc : BaseCommunication)
      → bc.error_handler ≡ some default_error_handler
      → (retry_with_timeout operation done done_waiting bc).calls ≤ 1
  unfolding retry_with_timeout
  retry_default_once bc h = rw h (once bc.config.retry_count)
    where
      once :
          (left : ℕ)
          → (retry_from operation done done_waiting bc.config.retry_interval
              (some default_error_handler)
              0
              left).calls
            ≤ 1
      once zero = unfold retry_from in ground arith
      once (suc left) = unfold retry_from in ground arith

at_or_above : (i k : ℕ) → i ≤ k → (i ≡ k) ⊎ (suc i ≤ k)
at_or_above i k h = grind arith

-- What is false at `i`, and from there on where `Q` holds, is false from `i` on where `Q` holds.
from_next :
    (f : ℕ → Bool) (Q : ℕ → Type 0) (i : ℕ)
    → f i ≡ false
    → ((j : ℕ) → suc i ≤ j → Q j → f j ≡ false)
    → (j : ℕ) → i ≤ j
    → Q j
    → f j ≡ false
from_next f Q i h g j lo q = elim (at_or_above i j lo) [
  | inl same ↦ subst (λ (n : ℕ). f n ≡ false) same h
  | inr above ↦ g j above q
]

module _ (operation : ℕ → Option String) (done done_waiting : ℕ → Bool) where
  -- Attempt `k` succeeds, and the context is not done before it, nor in the waits between.
  abbrev pub SucceedsAt : ℕ → Type 0
  SucceedsAt k =
      (operation k ≡ none)
      × ((j : ℕ) → j ≤ k → done j ≡ false)
      × ((j : ℕ) → j < k → done_waiting j ≡ false)

  module _ (interval : ℕ) where
    abbrev looped : ℕ → ℕ → RetryRun
    looped i left = retry_from operation done done_waiting interval none i left

    looped_finds :
        (i left k : ℕ) → i ≤ k → k ≤ i + left → SucceedsAt k → (looped i left).result ≡ succeeded
    unfolding retry_from
    looped_finds i zero k lo hi h =
        let e : operation i ≡ none =
          subst (λ (j : ℕ). operation j ≡ none) (omega (arith, lo, hi)) h.0 in
        ground (arith, e, h.1 i lo)
    looped_finds i (suc left) k lo hi h = elim (at_or_above i k lo) [
      | inl same ↦
          let e : operation i ≡ none = subst (λ (j : ℕ). operation j ≡ none) (sym same) h.0 in
          ground (arith, e, h.1 i lo)
      | inr above ↦ ground (
        arith,
        h.1 i lo,
        h.2 i (omega (arith, above)),
        looped_finds (suc i) left k above (omega (arith, hi)) h,
      )
    ]

    -- From attempt `i` on.
    abbrev SucceedsFrom : ℕ → ℕ → Type 0
    SucceedsFrom i k =
        (operation k ≡ none)
        × ((j : ℕ) → i ≤ j → j ≤ k → done j ≡ false)
        × ((j : ℕ) → i ≤ j → j < k → done_waiting j ≡ false)

    succeeds_now : (i : ℕ) → operation i ≡ none → done i ≡ false → SucceedsFrom i i
    succeeds_now i e d = (
      e,
      from_next done (λ j. j ≤ i) i d (λ j lo hi. absurd (omega (arith, lo, hi))),
      λ j lo hi. absurd (omega (arith, lo, hi)),
    )

    looped_found :
        (i left : ℕ)
        → (looped i left).result ≡ succeeded
        → (k : ℕ) × (i ≤ k) × (k ≤ i + left) × SucceedsFrom i k
    unfolding retry_from
    looped_found i zero h =
        (i, omega arith, omega arith, succeeds_now i (ground (arith, h)) (ground (arith, h)))
    looped_found i (suc left) h = elim (Option-cases (operation i)) [
      | inl e ↦ (i, omega arith, omega arith, succeeds_now i e (ground (arith, h)))
      | inr (err, e) ↦
          let (k, lo, hi, (f, d, w)) = looped_found (suc i) left (ground (arith, h, e)) in
          (
            k,
            omega arith,
            omega arith,
            (
              f,
              from_next done (λ j. j ≤ k) i (ground (arith, h)) d,
              from_next done_waiting (λ j. j < k) i (ground (arith, h, e)) w,
            ),
          )
    ]

  -- With no error handler, RetryWithTimeout succeeds exactly if one of the first `RetryCount + 1` calls
  -- of the operation does and the context lasts until then.
  pub retry_succeeds :
      (bc : BaseCommunication)
      → bc.error_handler ≡ none
      → ((retry_with_timeout operation done done_waiting bc).result ≡ succeeded)
        ↔ ((k : ℕ) × (k ≤ bc.config.retry_count) × SucceedsAt k)
  unfolding retry_with_timeout
  retry_succeeds bc e = rw e (
    (λ h.
        let (k, lo, hi, (f, d, w)) =
          looped_found bc.config.retry_interval 0 bc.config.retry_count h in
        (k, omega (arith, hi), (f, (λ j. d j (omega arith)), (λ j. w j (omega arith))))),
    (λ x.
        looped_finds bc.config.retry_interval 0 bc.config.retry_count x.0 (omega arith)
          (omega (arith, x.1)) x.2),
  )

call_all_lem :
    (hs : List ℕ) (e : CommEvent) (log : List (ℕ × CommEvent))
    → call_all hs e log ≡ log ++ map (λ h. (h, e)) hs
unfolding call_all
call_all_lem [] e log = sym (append-nil log)
call_all_lem (h ∷ hs) e log =
    call_all_lem hs e (log ++ (h, e) ∷ []) ∙ append_assoc log ((h, e) ∷ []) _

-- HandleWithError keeps the error as the last one, returns what the error handler makes of it, and
-- reports that to each event handler once, in the order in which they were added.
pub handle_with_error_lem :
    (err : String) (bc : BaseCommunication)
    → let r = handle_with_error err bc in
      (r.1 ≡ handled bc.error_handler err)
      × (r.0.last_error ≡ some err)
      × (r.0.status ≡ bc.status)
      × (r.0.emitted
          ≡ bc.emitted ++ map (λ h. (h, on_error (handled bc.error_handler err))) bc.event_handlers)
unfolding handle_with_error emit_event
handle_with_error_lem err bc = (refl, refl, refl, call_all_lem bc.event_handlers _ bc.emitted)

without-append : (h : ℕ) (hs : List ℕ) → All (λ k. k ≢ h) hs → without h (hs ++ h ∷ []) ≡ hs
unfolding without
without-append h [] a = ground arith
without-append h (k ∷ ks) a = ground (arith, without-append h ks a.1, a.0)

-- Removing an event handler that was not there before it was added restores the state.
pub remove-add_event_handler :
    (h : ℕ) (bc : BaseCommunication)
    → All (λ k. k ≢ h) bc.event_handlers
    → remove_event_handler h (add_event_handler h bc) ≡ bc
unfolding remove_event_handler add_event_handler
remove-add_event_handler h bc a = rw (without-append h bc.event_handlers a) refl
