-- ===== src/Outcome.antt =====
-- How a step of a goroutine ends.

pub data Outcome {ℓ} (A : Type ℓ) : Type ℓ where
  returns : A → Outcome A
  panics : Outcome A
  -- the goroutine waits for ever for a lock that it holds itself
  deadlocks : Outcome A

module _ {ℓ} {A : Type ℓ} where
  -- What holds of the result of a step, if there is one.
  abbrev pub Holds {κ} : (A → Type κ) → Outcome A → Type κ
  Holds P (returns a) = P a
  Holds P _ = Unit

  -- The step has a result, and `P` holds of it.
  abbrev pub Returns : (A → Type 0) → Outcome A → Type 0
  Returns P (returns a) = P a
  Returns P _ = ⊥

module _ {ℓ κ} {A : Type ℓ} {B : Type κ} where
  abbrev pub and_then : Outcome A → (A → Outcome B) → Outcome B
  and_then (returns a) f = f a
  and_then panics f = panics
  and_then deadlocks f = deadlocks

module _ {ℓ κ ι} {A : Type ℓ} {B : Type κ} (P : A → Type ι) (Q : B → Type ι) where
  pub and_then-Holds :
      (o : Outcome A) (f : A → Outcome B)
      → Holds P o
      → ((a : A) → P a → Holds Q (f a))
      → Holds Q (and_then o f)
  and_then-Holds (returns a) f h k = k a h
  and_then-Holds panics f h k = tt
  and_then-Holds deadlocks f h k = tt

module _ {ℓ κ} {A : Type ℓ} {B : Type κ} (P : A → Type 0) (Q : B → Type 0) where
  pub and_then-Returns :
      (o : Outcome A) (f : A → Outcome B)
      → Returns P o
      → ((a : A) → P a → Returns Q (f a))
      → Returns Q (and_then o f)
  and_then-Returns (returns a) f h k = k a h
  and_then-Returns panics f h k = elim h [ ]
  and_then-Returns deadlocks f h k = elim h [ ]

module _ {ℓ} {A : Type ℓ} (P Q : A → Type 0) where
  pub Returns_weaken : (o : Outcome A) → ((a : A) → P a → Q a) → Returns P o → Returns Q o
  Returns_weaken (returns a) f h = f a h
  Returns_weaken panics f h = h
  Returns_weaken deadlocks f h = h
