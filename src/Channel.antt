-- ===== src/Channel.antt =====
-- Go's buffered channels, as the components use them: a non-blocking send (`select` with
-- `default`), a receive, and `close`.
use go_control.Prelude.{
  ℕ, ◌≤◌, ◌<◌, ◌≡◌, ◌≢◌, ◌⊎◌, inl, inr, refl, Bool-cases, Bool, true, false, Option, none, some,
  List, [], ◌∷◌, ◌++◌, arith, ltb, if◌then◌else◌, length, length-append,
}

pub record Channel {ℓ} (A : Type ℓ) : Type ℓ where
  pub buffer : List A
  pub capacity : ℕ
  pub closed : Bool

-- What `select { case ch <- a: … default: … }` does. A send on a closed channel panics.
pub data Send {ℓ} (A : Type ℓ) : Type ℓ where
  delivered : Channel A → Send A
  full : Send A
  panicked : Send A

module _ {ℓ} {A : Type ℓ} where
  -- make(chan A, n)
  abbrev pub make : ℕ → Channel A
  make n = record { buffer = []; capacity = n; closed = false }

  unfoldable pub try_send : Channel A → A → Send A
  try_send c a =
      if c.closed
      then panicked
      else if ltb (length c.buffer) c.capacity
      then delivered (record c { buffer = c.buffer ++ a ∷ [] })
      else full

  receive_from : List A → Channel A → Option (A × Channel A)
  receive_from [] c = none
  receive_from (a ∷ rest) c = some (a, record c { buffer = rest })

  -- <-ch while something is buffered; `none` is a receive that has to wait.
  unfoldable pub receive : Channel A → Option (A × Channel A)
  unfolding receive_from
  receive c = receive_from c.buffer c

  unfoldable pub close : Channel A → Channel A
  close c = record c { closed = true }

  abbrev pub IsWithin : Channel A → Type 0
  IsWithin c = length c.buffer ≤ c.capacity

  -- The value behind what is buffered.
  abbrev pub pushed : Channel A → A → Channel A
  pushed c a = record c { buffer = c.buffer ++ a ∷ [] }

  pub try_send_cases :
      (c : Channel A) (a : A)
      → ((c.closed ≡ true) × (try_send c a ≡ panicked))
        ⊎ (((c.closed ≡ false) × (c.capacity ≤ length c.buffer) × (try_send c a ≡ full))
            ⊎ ((c.closed ≡ false)
                × (length c.buffer < c.capacity)
                × (try_send c a ≡ delivered (pushed c a))))
  unfolding try_send
  try_send_cases c a = elim (Bool-cases c.closed) [
    | inl shut ↦ inl (shut, simp shut)
    | inr opened ↦ inr (elim (Bool-cases (ltb (length c.buffer) c.capacity)) [
      | inl room ↦ inr (opened, ground arith, simp (opened, room))
      | inr none_left ↦ inl (opened, ground arith, simp (opened, none_left))
    ])
  ]

  pub pushed-IsWithin :
      (c : Channel A) (a : A) → length c.buffer < c.capacity → IsWithin (pushed c a)
  pushed-IsWithin c a h = omega (arith, length-append c.buffer (a ∷ []))

  -- An open channel never makes a send panic.
  pub try_send_open : (c : Channel A) (a : A) → c.closed ≡ false → try_send c a ≢ panicked
  unfolding try_send
  try_send_open c a h = ground arith

  pub try_send_closed : (c : Channel A) (a : A) → c.closed ≡ true → try_send c a ≡ panicked
  unfolding try_send
  try_send_closed c a h = simp h

  pub try_send_room :
      (c : Channel A) (a : A)
      → c.closed ≡ false
      → length c.buffer < c.capacity
      → try_send c a ≡ delivered (pushed c a)
  unfolding try_send
  try_send_room c a opened room = ground arith

  -- A receive takes the oldest value, or has to wait.
  pub receive_cases :
      (c : Channel A)
      → (receive c ≡ none)
        ⊎ ((a : A) × (rest : List A) × (c.buffer ≡ a ∷ rest)
            × (receive c ≡ some (a, record c { buffer = rest })))
  unfolding receive
  receive_cases c = go c.buffer refl
    where
      go :
          (b : List A)
          → c.buffer ≡ b
          → (receive_from b c ≡ none)
            ⊎ ((a : A) × (rest : List A) × (c.buffer ≡ a ∷ rest)
                × (receive_from b c ≡ some (a, record c { buffer = rest })))
      go [] e = inl refl
      go (a ∷ rest) e = inr (a, rest, e, refl)
