-- ===== src/Modbus/Registers.antt =====
-- internal/hardware/protocols/modbus/modbus.go: the registers that Write makes of its bytes.
use go_control.Prelude.{ℕ, ◌+◌, ◌*◌, ◌%◌, ◌<◌, ◌≡◌, refl, ap, ◌∙◌, List, [], ◌∷◌, arith, All}
use go_control.Modbus.{values_of, byte_values}

-- The bytes without the last one, if their number is odd.
abbrev pub even_part : List ℕ → List ℕ
even_part [] = []
even_part (a ∷ []) = []
even_part (a ∷ (b ∷ more)) = a ∷ b ∷ even_part more

-- The registers that Write sends are the bytes that it is given, but for a last one that is odd.
pub byte_values-values_of :
    (bytes : List ℕ) → All (λ b. b < 256) bytes → byte_values (values_of bytes) ≡ even_part bytes
unfolding byte_values values_of
byte_values-values_of [] h = refl
byte_values-values_of (a ∷ []) h = refl
byte_values-values_of (a ∷ (b ∷ more)) (p, (q, h)) =
    ap (λ x. x ∷ (a * 256 + b) % 256 ∷ byte_values (values_of more)) (omega arith)
    ∙ ap (λ x. a ∷ x ∷ byte_values (values_of more)) (omega arith)
    ∙ ap (λ l. a ∷ b ∷ l) (byte_values-values_of more h)
