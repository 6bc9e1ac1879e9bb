-- ===== src/Ipc/Sending.antt =====
-- internal/ipc/server.go: sending and closing in any order. Broadcast and SendToClient read `Active` of a
-- client first and send to it later, under no lock that safeCloseClient takes; safeCloseClient closes the
-- channel first and writes `Active` later. Each of these is a step of its own here.
use go_control.Prelude.{
  ℕ, String, ◌≡◌, ◌<◌, refl, true, false, Bool, not, ◌||◌, some, List, [], ◌∷◌, arith, ◌==◌, inl,
  inr, Bool-cases, none, ==_iff, length, if_cases, if◌then◌else◌, Option,
}
use go_control.Outcome.{Outcome, returns, and_then, Holds}
use go_control.Channel.{try_send, try_send_cases, pushed, try_send_room}
use go_control.Ipc.{
  receive_message, IpcServer, IpcError, Client, broadcast_to, write, accept_connection,
  close_client, deactivate, sent, addressed, Choice,
}

-- `sending` has an entry for each call that has found a client active and not yet sent to it.
pub record Calls : Type 0 where
  pub server : IpcServer
  pub sending : List ℕ

-- `closes` is safeCloseClient up to the write of `Active`, `deactivates` that write; `checks` is the test
-- of `Active` in Broadcast or SendToClient, `sends` the send behind it, which the `default` of Broadcast
-- ends if the channel is full; `gives_up` is the end of SendToClient without a send, and `receives` a receive of the goroutine sendToClient.
pub data Action : Type 0 where
  accepts : ℕ → String → Action
  closes deactivates checks gives_up receives : ℕ → Action
  sends : ℕ → List ℕ → Action

abbrev pub has : ℕ → List ℕ → Bool
has p [] = false
has p (q ∷ qs) = q == p || has p qs

abbrev pub without : ℕ → List ℕ → List ℕ
without p [] = []
without p (q ∷ qs) = let rest = without p qs in if q == p then qs else q ∷ rest

abbrev pub on_server : (IpcServer → IpcServer) → Calls → Calls
on_server f c = record c { server = f c.server }

unfoldable pub step : Action → Calls → Outcome Calls
step (accepts p id) c = returns (on_server (accept_connection p id) c)
step (closes p) c = returns (on_server (close_client p) c)
step (deactivates p) c = returns (on_server (deactivate p) c)
step (checks p) c =
    returns (if (c.server.heap p).active then record c { sending = p ∷ c.sending } else c)
step (receives p) c = returns (on_server (receive_message p) c)
step (gives_up p) c = returns (record c { sending = without p c.sending })
step (sends p bytes) c =
    if has p c.sending
    then and_then (sent p c.server (try_send (c.server.heap p).send bytes))
        (λ s. returns (record { server = s; sending = without p c.sending }))
    else returns c

unfoldable pub run : List Action → Calls → Outcome Calls
run [] c = returns c
run (a ∷ rest) c = and_then (step a c) (run rest)

-- No closing of a client begins while a call is between its test and its send to the client, and no test
-- finds a client active whose closing has begun.
abbrev pub IsAllowed : Action → Calls → Type 0
IsAllowed (closes p) c = has p c.sending ≡ false
IsAllowed (checks p) c = (c.server.heap p).active ≡ true → (c.server.heap p).closing ≡ false
IsAllowed _ c = Unit

abbrev pub AreAllowed : List Action → Calls → Type 0
AreAllowed [] c = Unit
AreAllowed (a ∷ rest) c = IsAllowed a c × Holds (AreAllowed rest) (step a c)

-- A client whose closing has not begun has an open channel,
abbrev pub IsOpen : Client → Type 0
IsOpen c = c.closing ≡ false → c.send.closed ≡ false

-- and the closing of no client begins before a send to it that is under way.
abbrev pub AreOpen : Calls → Type 0
AreOpen c =
    ((p : ℕ) → IsOpen (c.server.heap p))
    × ((p : ℕ) → has p c.sending ≡ true → (c.server.heap p).closing ≡ false)

-- What Broadcast does for one client is its test and its send, if nothing comes between them.
broadcast_to-run :
    (p : ℕ) (bytes : List ℕ) (s : IpcServer)
    → run (checks p ∷ sends p bytes ∷ []) (record { server = s; sending = [] })
      ≡ and_then
          (broadcast_to bytes s (some p))
          (λ t. returns (record { server = t; sending = [] }))
unfolding run step
broadcast_to-run p bytes s = elim (Bool-cases (s.heap p).active) [
  | inl a ↦ elim (try_send_cases (s.heap p).send bytes) [
    | inl (closed, e) ↦ rw (a, e, (==_iff p p).1 refl) refl
    | inr (inl (opened, none_left, e)) ↦ rw (a, e, (==_iff p p).1 refl) refl
    | inr (inr (opened, room, e)) ↦ rw (a, e, (==_iff p p).1 refl) refl
  ]
  | inr d ↦ rw d refl
]

-- A message to an active client whose channel is open and has room is put into the channel.
pub addressed-sends :
    (id : String) (bytes : List ℕ) (s : IpcServer) (p : ℕ)
    → (s.heap p).active ≡ true
    → (s.heap p).send.closed ≡ false
    → length (s.heap p).send.buffer < (s.heap p).send.capacity
    → addressed id bytes Choice.sends s (some p)
      ≡ returns (write p (record (s.heap p) { send = pushed (s.heap p).send bytes }) s, none)
addressed-sends id bytes s p active opened room =
    let Sent = λ (o : Outcome (IpcServer × Option IpcError)).
      o ≡ returns (write p (record (s.heap p) { send = pushed (s.heap p).send bytes }) s, none) in
    if_cases Sent (not (s.heap p).active) (λ d. absurd (ground arith))
      (λ a. rw (try_send_room (s.heap p).send bytes opened room) refl)
