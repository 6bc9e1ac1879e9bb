-- ===== src/Prelude/Lists.antt =====
-- Lists measured by native numbers, predicates on their members, and object stores.
use Prim.Native.Nat.{ℕ, suc, ◌+◌}
use mathlib.Core.Path.{◌≡◌}
use mathlib.Core.List.{List, [], ◌∷◌, ◌++◌}
use native.Mathlib.Omega.{arith}
use Prim.Native.String.{String}
use mathlib.Core.Bool.{Bool, false, ◌||◌}
use text.Mathlib.Text.{◌==◌ as str_eq}
use go_control.Prelude.Tests.{◌==◌, if◌then◌else◌}

abbrev pub member : String → List String → Bool
member j [] = false
member j (k ∷ ks) = str_eq k j || member j ks

module _ {ℓ} {A : Type ℓ} where
  abbrev pub length : List A → ℕ
  length [] = 0
  length (x ∷ xs) = suc (length xs)

  pub length-append : (xs ys : List A) → length (xs ++ ys) ≡ length xs + length ys
  length-append [] ys = omega arith
  length-append (x ∷ xs) ys = omega (arith, length-append xs ys)

  abbrev pub All {κ} : (A → Type κ) → List A → Type κ
  All P [] = Unit
  All P (x ∷ xs) = P x × All P xs

  pub All-append {κ} : (P : A → Type κ) (xs ys : List A) → All P xs → All P ys → All P (xs ++ ys)
  All-append P [] ys h k = k
  All-append P (x ∷ xs) ys h k = (h.0, All-append P xs ys h.1 k)

  pub All_weaken {κ} :
      (P Q : A → Type κ) (xs : List A) → ((x : A) → P x → Q x) → All P xs → All Q xs
  All_weaken P Q [] f h = tt
  All_weaken P Q (x ∷ xs) f h = (f x h.0, All_weaken P Q xs f h.1)

  -- A write through a pointer: the object at `p` is replaced, every other one stays.
  abbrev pub update : (ℕ → A) → ℕ → A → ℕ → A
  update cell p v q = if p == q then v else cell q
