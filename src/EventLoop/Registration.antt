-- ===== src/EventLoop/Registration.antt =====
-- internal/core/eventloop.go: which handlers an event reaches, after modules and handlers have been
-- registered and unregistered.
use go_control.Prelude.{
  ℕ, String, ◌≡◌, refl, sym, ap, ◌∙◌, true, false, Option, none, some, List, [], ◌∷◌, ◌++◌, str_eq,
  eq_iff, map, if◌then◌else◌, if_holds, arith, Option-cases, Bool-cases, inl, inr, ◌⊎◌, ◌≤◌, length,
}
use mathlib.Core.List.{append_assoc, append-nil}
use go_control.GoMap
use go_control.GoMap.{get-put, get-remove}
use go_control.Channel.{try_send_cases, pushed}
use go_control.Outcome.{returns}
use go_control.Events.{Event}
use go_control.EventLoop.{
  EventLoop, LoopError, event_queue_full, emit_event, handlers_or_nil, register_handler,
  register_all, handle_event, start_module, register_module, unregister_module, unregister_handler,
  has_name, without_name,
}

-- The handlers that an event of this type reaches.
abbrev pub handlers_of : EventLoop → String → List ℕ
handlers_of el kind = handlers_or_nil (GoMap.get el.handlers kind)

-- An event starts one call for each handler of its type, in the order in which they were registered.
pub handle_event-handlers_of :
    (e : Event) (el : EventLoop)
    → (handle_event e el).calls ≡ el.calls ++ map (λ h. (h, e)) (handlers_of el e.kind)
unfolding handle_event
handle_event-handlers_of e el = elim (Option-cases (GoMap.get el.handlers e.kind)) [
  | inl none_there ↦ rw (none_there, handle_event) (sym (append-nil el.calls))
  | inr (hs, there) ↦ rw (there, handle_event) refl
]

handlers_of-register_handler :
    (kind : String) (h : ℕ) (el : EventLoop) (j : String)
    → handlers_of (register_handler kind h el) j
      ≡ (if str_eq kind j then handlers_of el j ++ h ∷ [] else handlers_of el j)
unfolding register_handler
handlers_of-register_handler kind h el j =
    ground (arith, get-put el.handlers kind j (handlers_of el kind ++ h ∷ []), eq_iff kind j)

-- How often a module subscribes to a type, as that many entries for it.
abbrev pub entries : ℕ → String → List String → List ℕ
entries m j [] = []
entries m j (kind ∷ kinds) =
    let rest = entries m j kinds in if str_eq kind j then m ∷ rest else rest

handlers_of-register_all :
    (kinds : List String) (m : ℕ) (el : EventLoop) (j : String)
    → handlers_of (register_all kinds m el) j ≡ handlers_of el j ++ entries m j kinds
unfolding register_all
handlers_of-register_all [] m el j = sym (append-nil (handlers_of el j))
handlers_of-register_all (kind ∷ kinds) m el j =
    handlers_of-register_all kinds m (register_handler kind m el) j
    ∙ elim (Bool-cases (str_eq kind j))
        as (λ _.
          handlers_of (register_handler kind m el) j ++ entries m j kinds
          ≡ handlers_of el j ++ entries m j (kind ∷ kinds)) [
            | inl e ↦
                rw (handlers_of-register_handler kind m el j, e)
                  (append_assoc (handlers_of el j) (m ∷ []) (entries m j kinds))
            | inr e ↦ rw (handlers_of-register_handler kind m el j, e) refl
          ]

handlers-unregister_module :
    (name : String) (el : EventLoop) → (unregister_module name el).0.handlers ≡ el.handlers
unfolding unregister_module
handlers-unregister_module name el = ground arith

unregister_module-gone :
    (name : String) (el : EventLoop) → GoMap.get (unregister_module name el).0.modules name ≡ none
unfolding unregister_module
unregister_module-gone name el = ground (arith, get-remove el.modules name name, eq_iff name name)

module _ (subscribed_events : ℕ → List String) (name : String) (m : ℕ)
    (failed : Option String) where
  start_module-handlers : (el : EventLoop) → (start_module m failed el).0.handlers ≡ el.handlers
  start_module-handlers el = ground arith

  handlers_of-register_module :
      (el : EventLoop) (j : String)
      → GoMap.get el.modules name ≡ none
      → handlers_of (register_module subscribed_events name m failed el).0 j
        ≡ handlers_of el j ++ entries m j (subscribed_events m)
  unfolding register_module
  handlers_of-register_module el j free =
      rw (free, register_module)
        (if_holds P r.running
          (rw (start_module-handlers r) (handlers_of-register_all (subscribed_events m) m _ j))
          (handlers_of-register_all (subscribed_events m) m _ j))
    where
      r : EventLoop
      r = register_all (subscribed_events m) m (record el { modules = GoMap.put el.modules name m })

      P : EventLoop × Option LoopError → Type 0
      P x = handlers_of x.0 j ≡ handlers_of el j ++ entries m j (subscribed_events m)

  -- A module that is registered under a free name and unregistered again keeps its handlers: events
  -- of the types that it subscribes to still reach it. Registered once more, it is reached twice.
  pub reregistered_twice :
      (el : EventLoop) (j : String)
      → GoMap.get el.modules name ≡ none
      → let gone =
          (unregister_module name (register_module subscribed_events name m failed el).0).0 in
        (handlers_of gone j ≡ handlers_of el j ++ entries m j (subscribed_events m))
        × (handlers_of (register_module subscribed_events name m failed gone).0 j
            ≡ (handlers_of el j ++ entries m j (subscribed_events m))
              ++ entries m j (subscribed_events m))
  reregistered_twice el j free = (kept, twice)
    where
      first : EventLoop
      first = (register_module subscribed_events name m failed el).0

      gone : EventLoop
      gone = (unregister_module name first).0

      kept : handlers_of gone j ≡ handlers_of el j ++ entries m j (subscribed_events m)
      kept =
          ap (λ (x : GoMap.GoMap (List ℕ)). handlers_or_nil (GoMap.get x j))
            (handlers-unregister_module name first)
          ∙ handlers_of-register_module el j free

      twice :
          handlers_of (register_module subscribed_events name m failed gone).0 j
          ≡ (handlers_of el j ++ entries m j (subscribed_events m))
            ++ entries m j (subscribed_events m)
      twice =
          handlers_of-register_module gone j (unregister_module-gone name first)
          ∙ ap (λ (x : List ℕ). x ++ entries m j (subscribed_events m)) kept

module _ (name_of : ℕ → String) where
  without_name-append :
      (h : ℕ) (hs : List ℕ)
      → has_name name_of (name_of h) hs ≡ false
      → (without_name name_of (name_of h) (hs ++ h ∷ []) ≡ hs)
        × (has_name name_of (name_of h) (hs ++ h ∷ []) ≡ true)
  without_name-append h [] f = ground (arith, eq_iff (name_of h) (name_of h))
  without_name-append h (k ∷ ks) f = ground (arith, without_name-append h ks)

  -- If no handler of the type has the name of a handler, registering that handler for the type and
  -- unregistering it again leaves every event with the handlers that it had, and returns no error.
  pub unregister-register_handler :
      (kind : String) (h : ℕ) (el : EventLoop) (j : String)
      → has_name name_of (name_of h) (handlers_of el kind) ≡ false
      → (handlers_of (unregister_handler name_of kind h (register_handler kind h el)).0 j
          ≡ handlers_of el j)
        × ((unregister_handler name_of kind h (register_handler kind h el)).1 ≡ none)
  unfolding unregister_handler register_handler
  unregister-register_handler kind h el j f = ground (
    arith,
    get-put el.handlers kind kind (handlers_of el kind ++ h ∷ []),
    get-put (GoMap.put el.handlers kind (handlers_of el kind ++ h ∷ [])) kind j
        (without_name name_of (name_of h) (handlers_of el kind ++ h ∷ [])),
    get-put el.handlers kind j (handlers_of el kind ++ h ∷ []),
    without_name-append h (handlers_of el kind) f,
    eq_iff kind j,
    eq_iff kind kind,
  )

-- An event that is emitted to a running loop whose queue is open is put behind the events that wait,
-- or, if the queue is full, is dropped with an error.
pub emit_event_lem :
    (e : Event) (el : EventLoop)
    → el.running ≡ true
    → el.event_queue.closed ≡ false
    → (emit_event e el ≡ returns (record el { event_queue = pushed el.event_queue e }, none))
      ⊎ ((el.event_queue.capacity ≤ length el.event_queue.buffer)
          × (emit_event e el ≡ returns (el, some event_queue_full)))
unfolding emit_event
emit_event_lem e el on opened = elim (try_send_cases el.event_queue e) [
  | inl (shut, _) ↦ absurd (ground (arith, shut, opened))
  | inr (inl (_, no_room, f)) ↦ inr (no_room, simp (on, f))
  | inr (inr (_, _, f)) ↦ inl (simp (on, f))
]
