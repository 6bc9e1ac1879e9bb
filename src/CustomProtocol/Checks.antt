-- ===== src/CustomProtocol/Checks.antt =====
-- internal/hardware/protocols/custom/custom.go: encoding and decoding undo each other, and frames with
-- a checksum check.
use mathlib.Core.List.{append_assoc}
use Prim.Native.Nat.{bit_xor, bit_xor-bitwise, digits, differ}
use go_control.Prelude.{
  ℕ, zero, suc, ◌+◌, ◌*◌, ◌/◌, ◌%◌, ◌≤◌, ◌<◌, String, ◌≡◌, refl, ap, ◌∙◌, Bool, true, false, length,
  length-append, List, [], ◌∷◌, ◌++◌, inr, arith,
}
use go_control.Outcome.{returns}
use go_control.Types.{Float64}
use go_control.Nodes.{ℤ, pos, negsuc}
use go_control.CustomProtocol.{int}
use go_control.CustomProtocol.Encoding.{
  wrapped, little, big, from_little, from_big, encode_uint, decode_uint, encode_uint16,
  encode_uint32, decode_uint16, decode_uint32, Decoded, int8, int16, int32, uint8, uint16, uint32,
  signed, encode_field_value, decode_field_value,
}
use go_control.CustomProtocol.Frames.{xor_from, calculate_xor}

-- The value of the lowest `n` bytes.
abbrev low : ℕ → ℕ → ℕ
low zero v = 0
low (suc n) v = v % 256 + low n (v / 256) * 256

from_little-little :
    (n v : ℕ) (rest : List ℕ) → from_little n (little n v ++ rest) ≡ returns (low n v)
unfolding from_little little
from_little-little zero v rest = refl
from_little-little (suc n) v rest = rw (from_little-little n (v / 256) rest) refl

-- `h * 256 ^ n`
abbrev shifted : ℕ → ℕ → ℕ
shifted zero h = h
shifted (suc n) h = shifted n h * 256

shifted-zero : (n : ℕ) → shifted n 0 ≡ 0
shifted-zero zero = refl
shifted-zero (suc n) = omega (arith, shifted-zero n)

from_big-big :
    (n m high v : ℕ) (rest : List ℕ)
    → from_big (n + m) high (big n v ++ rest) ≡ from_big m (shifted n high + low n v) rest
unfolding from_big big
from_big-big zero m high v rest =
    ap (λ k. from_big k high rest) (omega arith) ∙ ap (λ x. from_big m x rest) (omega arith)
from_big-big (suc n) m high v rest =
    ap (λ xs. from_big (suc n + m) high xs) (append_assoc (big n (v / 256)) (v % 256 ∷ []) rest)
    ∙ ap (λ k. from_big k high (big n (v / 256) ++ v % 256 ∷ rest)) (omega arith)
    ∙ from_big-big n (suc m) high (v / 256) (v % 256 ∷ rest)
    ∙ ap (λ x. from_big m x rest) (omega arith)

decode_uint-encode_uint :
    (n : ℕ) (big_endian : Bool) (v : ℕ) (rest : List ℕ)
    → decode_uint n big_endian (encode_uint n big_endian v ++ rest) ≡ returns (low n v)
unfolding from_big
decode_uint-encode_uint n false v rest = from_little-little n v rest
decode_uint-encode_uint n true v rest =
    ap (λ k. from_big k 0 (big n v ++ rest)) (omega arith)
    ∙ from_big-big n 0 0 v rest
    ∙ ap returns (omega (arith, shifted-zero n))

length-encode_uint : (n : ℕ) (big_endian : Bool) (v : ℕ) → length (encode_uint n big_endian v) ≡ n
unfolding little big
length-encode_uint zero true v = refl
length-encode_uint zero false v = refl
length-encode_uint (suc n) false v = ap suc (length-encode_uint n false (v / 256))
length-encode_uint (suc n) true v =
    omega
      (arith, length-append (big n (v / 256)) (v % 256 ∷ []), length-encode_uint n true (v / 256))

differ_self : (x : ℕ) → differ x x ≡ 0
differ_self zero = refl
differ_self (suc x) = differ_self x

xor_digits : (n a : ℕ) → a ≤ n → digits (λ b. b) differ n a a ≡ 0
xor_digits zero zero h = refl
xor_digits zero (suc a) h = absurd (omega arith)
xor_digits (suc n) zero h = refl
xor_digits (suc n) (suc a) h =
    omega (arith, xor_digits n (suc a / 2) (omega arith), differ_self (suc a % 2))

bit_xor_self : (a : ℕ) → bit_xor a a ≡ 0
bit_xor_self a = bit_xor-bitwise a a ∙ xor_digits a a (omega arith)

xor_from-append :
    (r : ℕ) (bytes more : List ℕ) → xor_from r (bytes ++ more) ≡ xor_from (xor_from r bytes) more
unfolding xor_from
xor_from-append r [] more = refl
xor_from-append r (b ∷ bytes) more = xor_from-append (bit_xor r b) bytes more

-- The XOR checksum of a frame with its own checksum behind it is zero.
pub calculate_xor-append : (frame : List ℕ) → calculate_xor (frame ++ calculate_xor frame ∷ []) ≡ 0
unfolding xor_from
calculate_xor-append frame = xor_from-append 0 frame _ ∙ bit_xor_self (calculate_xor frame)

wrapped16_lt : (v : ℤ) → wrapped 16 v < 65536
wrapped16_lt (pos n) = omega arith
wrapped16_lt (negsuc n) = omega arith

wrapped32_lt : (v : ℤ) → wrapped 32 v < 4294967296
wrapped32_lt (pos n) = omega arith
wrapped32_lt (negsuc n) = omega arith

low_two : (v : ℕ) → v < 65536 → low 2 v ≡ v
low_two v h = omega arith

low_four : (v : ℕ) → v < 4294967296 → low 4 v ≡ v
low_four v h = omega arith

decode-encode-uint16 :
    (b : Bool) (v : ℤ) (rest : List ℕ)
    → decode_uint16 b (encode_uint16 b (wrapped 16 v) ++ rest) ≡ returns (wrapped 16 v)
unfolding decode_uint16 encode_uint16
decode-encode-uint16 b v rest =
    decode_uint-encode_uint 2 b (wrapped 16 v) rest
    ∙ ap returns (low_two (wrapped 16 v) (wrapped16_lt v))

decode-encode-uint32 :
    (b : Bool) (v : ℤ) (rest : List ℕ)
    → decode_uint32 b (encode_uint32 b (wrapped 32 v) ++ rest) ≡ returns (wrapped 32 v)
unfolding decode_uint32 encode_uint32
decode-encode-uint32 b v rest =
    decode_uint-encode_uint 4 b (wrapped 32 v) rest
    ∙ ap returns (low_four (wrapped 32 v) (wrapped32_lt v))

-- The types of field that hold an integer: their bits, and how the value is read.
pub data IsInteger : String → ℕ → (ℕ → Decoded) → Type 0 where
  a_int8 : IsInteger "int8" 8 (λ v. int8 (signed 8 v))
  a_uint8 : IsInteger "uint8" 8 uint8
  a_int16 : IsInteger "int16" 16 (λ v. int16 (signed 16 v))
  a_uint16 : IsInteger "uint16" 16 uint16
  a_int32 : IsInteger "int32" 32 (λ v. int32 (signed 32 v))
  a_uint32 : IsInteger "uint32" 32 uint32

module _ (utf8 : String → List ℕ) (from_utf8 : List ℕ → String)
    (float_to_uint32 float_to_uint64 : Float64 → ℕ) (float_of_uint32 float_of_uint64 : ℕ → Float64)
    (big_endian : Bool) where
  bits_uint16 : (v : ℤ) → length (encode_uint16 big_endian (wrapped 16 v)) * 8 ≡ 16
  unfolding encode_uint16
  bits_uint16 v = omega (arith, length-encode_uint 2 big_endian (wrapped 16 v))

  bits_uint32 : (v : ℤ) → length (encode_uint32 big_endian (wrapped 32 v)) * 8 ≡ 32
  unfolding encode_uint32
  bits_uint32 v = omega (arith, length-encode_uint 4 big_endian (wrapped 32 v))

  -- An integer field, in either byte order, is encoded into as many bytes as its type has; decoding
  -- them, whatever bytes follow, gives the value that was encoded, wrapped to the bits of the type.
  pub decode_field_value-encode_field_value :
      (kind : String) (w : ℕ) (read : ℕ → Decoded) (v : ℤ) (rest : List ℕ)
      → IsInteger kind w read
      → (data_ : List ℕ) × (encode_field_value utf8 from_utf8 float_to_uint32 float_to_uint64
            float_of_uint32 float_of_uint64 big_endian kind
            (int v)
          ≡ inr data_)
        × (length data_ * 8 ≡ w)
        × (decode_field_value utf8 from_utf8 float_to_uint32 float_to_uint64 float_of_uint32
              float_of_uint64 big_endian kind
              (data_ ++ rest)
            ≡ returns (inr (read (wrapped w v))))
  unfolding encode_field_value decode_field_value
  decode_field_value-encode_field_value _ _ _ v rest a_int8 = (_, refl, refl, refl)
  decode_field_value-encode_field_value _ _ _ v rest a_uint8 = (_, refl, refl, refl)
  decode_field_value-encode_field_value _ _ _ v rest a_int16 =
      (_, refl, bits_uint16 v, rw (decode-encode-uint16 big_endian v rest) refl)
  decode_field_value-encode_field_value _ _ _ v rest a_uint16 =
      (_, refl, bits_uint16 v, rw (decode-encode-uint16 big_endian v rest) refl)
  decode_field_value-encode_field_value _ _ _ v rest a_int32 =
      (_, refl, bits_uint32 v, rw (decode-encode-uint32 big_endian v rest) refl)
  decode_field_value-encode_field_value _ _ _ v rest a_uint32 =
      (_, refl, bits_uint32 v, rw (decode-encode-uint32 big_endian v rest) refl)
