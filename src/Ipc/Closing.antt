-- ===== src/Ipc/Closing.antt =====
-- internal/ipc/server.go: broadcasts while clients are closed.
use go_control.Prelude.{
  ℕ, String, ◌≡◌, refl, true, false, Option, none, some, List, [], ◌∷◌, inl, inr, arith, member,
  str_eq, eq_iff, Bool-cases, ◌==◌, ==_iff, subst, sym, if_cases, if_holds,
}
use go_control.GoMap
use go_control.GoMap.{GoMap}
use go_control.Outcome.{Outcome, returns, panics, deadlocks, and_then}
use go_control.Channel.{try_send, close, try_send_cases, try_send_closed, receive_cases}
use go_control.Ipc.{
  IpcServer, Client, write, close_client, shut, sent, broadcast_to, broadcast_all, broadcast,
}

-- The client is one that Broadcast sends to, and its channel is closed.
abbrev pub IsLeft : Client → Type 0
IsLeft c = (c.active ≡ true) × (c.send.closed ≡ true)

module _ (id : String) (p : ℕ) where
  abbrev Waits : IpcServer → Type 0
  Waits s = (GoMap.get s.clients id ≡ some p) × IsLeft (s.heap p)

  -- A step panics, or leaves the client as it was.
  abbrev Ends : Outcome IpcServer → Type 0
  Ends (returns s) = Waits s
  Ends panics = Unit
  Ends deadlocks = ⊥

  sent-Ends :
      (q : ℕ) (bytes : List ℕ) (s : IpcServer)
      → Waits s
      → Ends (sent q s (try_send (s.heap q).send bytes))
  sent-Ends q bytes s h = elim (try_send_cases (s.heap q).send bytes) [
    | inl (closed, e) ↦ rw e tt
    | inr (inl (opened, none_left, e)) ↦ rw e h
    | inr (inr (opened, room, e)) ↦ rw e (
      h.0,
      if_cases IsLeft (q == p)
          (λ same.
            absurd (
              cc (subst (λ r. (s.heap r).send.closed ≡ false) ((==_iff q p).0 same) opened, h.1.1)))
          (λ other. h.1),
    )
  ]

  broadcast_to-Ends :
      (bytes : List ℕ) (s : IpcServer) (q : Option ℕ) → Waits s → Ends (broadcast_to bytes s q)
  broadcast_to-Ends bytes s none h = h
  broadcast_to-Ends bytes s (some q) h = if_holds Ends (s.heap q).active (sent-Ends q bytes s h) h

  broadcast_to-panics :
      (bytes : List ℕ) (s : IpcServer) → Waits s → broadcast_to bytes s (some p) ≡ panics
  broadcast_to-panics bytes s h = rw h.1.0 (rw (try_send_closed (s.heap p).send bytes h.1.1) refl)

  Ends-panics :
      (o : Outcome IpcServer) (f : IpcServer → Outcome IpcServer)
      → Ends o
      → ((s : IpcServer) → Waits s → f s ≡ panics)
      → and_then o f ≡ panics
  Ends-panics (returns s) f h k = k s h
  Ends-panics panics f h k = refl
  Ends-panics deadlocks f h k = absurd h

  broadcast_all-panics :
      (order : List String) (bytes : List ℕ) (s : IpcServer)
      → member id order ≡ true
      → Waits s
      → broadcast_all order bytes s ≡ panics
  unfolding broadcast_all
  broadcast_all-panics [] bytes s m h = cc
  broadcast_all-panics (j ∷ js) bytes s m h = elim (Bool-cases (str_eq j id)) [
    | inl same ↦
        let found : GoMap.get s.clients j ≡ some p =
          subst (λ k. GoMap.get s.clients k ≡ some p) (sym ((eq_iff j id).0 same)) h.0 in
        rw found (rw (broadcast_to-panics bytes s h) refl)
    | inr other ↦
        Ends-panics (broadcast_to bytes s (GoMap.get s.clients j)) (broadcast_all js bytes)
          (broadcast_to-Ends bytes s (GoMap.get s.clients j) h)
          (λ after k. broadcast_all-panics js bytes after (ground arith) k)
  ]

  shut-IsLeft : (c : Client) → c.active ≡ true → c.send.buffer ≡ [] → IsLeft (shut c)
  unfolding close
  shut-IsLeft c active empty = elim (receive_cases c.send) [
    | inl e ↦ rw e (active, refl)
    | inr (a, rest, f, e) ↦ absurd (cc (empty, f))
  ]

  close-Waits :
      (s : IpcServer)
      → GoMap.get s.clients id ≡ some p
      → IsLeft (shut (s.heap p))
      → Waits (write p (shut (s.heap p)) s)
  close-Waits s found left = (
    found,
    if_cases IsLeft (p == p) (λ same. left) (λ other. absurd (cc (other, (==_iff p p).1 refl))),
  )

  -- While safeCloseClient has closed the channel of a client and has not yet marked it as inactive, which
  -- it does under no lock, a Broadcast that visits the client panics, whatever the other clients are,
  -- provided that nothing waited in the channel.
  pub broadcast-close_client :
      (order : List String) (bytes : List ℕ) (s : IpcServer)
      → GoMap.get s.clients id ≡ some p
      → (s.heap p).active ≡ true
      → (s.heap p).closing ≡ false
      → (s.heap p).send.buffer ≡ []
      → member id order ≡ true
      → broadcast order (inr bytes) (close_client p s) ≡ panics
  unfolding broadcast close_client
  broadcast-close_client order bytes s found active begun empty m = rw begun (
      rw
        (broadcast_all-panics order bytes (write p (shut (s.heap p)) s) m
          (close-Waits s found (shut-IsLeft (s.heap p) active empty)))
        refl)
