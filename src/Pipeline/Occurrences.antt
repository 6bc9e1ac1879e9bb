-- ===== src/Pipeline/Occurrences.antt =====
-- internal/core/queue.go and executor.go: how often a command id occurs among pointers to commands.
use mathlib.Core.Path.{fun_ext}
use go_control.Prelude.{
  ℕ, zero, suc, ◌+◌, ◌<◌, String, ◌≡◌, refl, Option, none, some, List, [], Option-cases, inl, inr,
  ◌∷◌, ◌++◌, arith, str_eq, if◌then◌else◌, All, update,
}
use go_control.Queue.{QueuedCommand}
use go_control.Pipeline.{take_at}

abbrev pub id_of : (ℕ → QueuedCommand) → ℕ → String
id_of heap p = (heap p).command.id

abbrev pub hit : (ℕ → String) → String → ℕ → ℕ
hit ids k p = if str_eq (ids p) k then 1 else 0

abbrev pub occ : (ℕ → String) → String → List ℕ → ℕ
occ ids k [] = 0
occ ids k (p ∷ ps) = hit ids k p + occ ids k ps

pub occ-append :
    (ids : ℕ → String) (k : String) (ps qs : List ℕ)
    → occ ids k (ps ++ qs) ≡ occ ids k ps + occ ids k qs
occ-append ids k [] qs = omega arith
occ-append ids k (p ∷ ps) qs = omega (arith, occ-append ids k ps qs)

-- `take_at` splits one pointer off.
pub take_at-occ :
    (i : ℕ) (ps : List ℕ) (ids : ℕ → String) (k : String) (p : ℕ) (rest : List ℕ)
    → take_at i ps ≡ some (p, rest)
    → occ ids k ps ≡ hit ids k p + occ ids k rest
take_at-occ i [] ids k p rest e = cc
take_at-occ zero (q ∷ ps) ids k p rest e = ground arith
take_at-occ (suc i) (q ∷ ps) ids k p rest e = elim (Option-cases (take_at i ps)) [
  | inl f ↦ ground arith
  | inr ((o, os), f) ↦ ground (arith, take_at-occ i ps ids k o os f)
]

abbrev pub AllTaken : ℕ → Option (ℕ × List ℕ) → Type 0
AllTaken n none = Unit
AllTaken n (some (p, ps)) = (p < n) × All (λ q. q < n) ps

AllTaken-suc :
    (n q : ℕ) (r : Option (ℕ × List ℕ))
    → q < n
    → AllTaken n r
    → AllTaken n (elim r [ none ↦ none | some s ↦ some (s.0, q ∷ s.1) ])
AllTaken-suc n q none h k = tt
AllTaken-suc n q (some (p, ps)) h k = (k.0, (h, k.1))

pub take_at-AllTaken : (n i : ℕ) (ps : List ℕ) → All (λ q. q < n) ps → AllTaken n (take_at i ps)
take_at-AllTaken n i [] h = tt
take_at-AllTaken n zero (q ∷ ps) h = (h.0, h.1)
take_at-AllTaken n (suc i) (q ∷ ps) h = AllTaken-suc n q _ h.0 (take_at-AllTaken n i ps h.1)

-- A write that keeps the command keeps every id.
pub id_of-update :
    (heap : ℕ → QueuedCommand) (p : ℕ) (c : QueuedCommand)
    → c.command.id ≡ (heap p).command.id
    → id_of (update heap p c) ≡ id_of heap
id_of-update heap p c e = fun_ext λ q. ground arith

-- A new object changes nothing for the pointers that are in use.
pub occ_fresh :
    (heap : ℕ → QueuedCommand) (n : ℕ) (c : QueuedCommand) (k : String) (ps : List ℕ)
    → All (λ p. p < n) ps
    → occ (id_of (update heap n c)) k ps ≡ occ (id_of heap) k ps
occ_fresh heap n c k [] h = refl
occ_fresh heap n c k (p ∷ ps) h = ground (arith, occ_fresh heap n c k ps h.1)
