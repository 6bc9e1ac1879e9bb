-- ===== src/CustomProtocol/Encoding.antt =====
-- internal/hardware/protocols/custom/custom.go: integers and fields as bytes, in either byte order.
use go_control.Prelude.{
  ℕ, zero, suc, ◌+◌, ◌-◌, ◌*◌, ◌/◌, ◌%◌, ◌^◌, String, Bool, true, false, List, [], ◌∷◌, ◌++◌, ◌⊎◌,
  inl, inr, str_eq, ltb, if◌then◌else◌,
}
use go_control.Outcome.{Outcome, returns, panics, and_then}
use go_control.Types.{Float64}
use go_control.Nodes.{ℤ, pos, negsuc}
use go_control.CustomProtocol.{Param, int, float, text, raw, Error, unsupported_type}

-- The conversion of an `int` to an unsigned type of `w` bits.
abbrev pub wrapped : ℕ → ℤ → ℕ
wrapped w (pos n) = n % 2 ^ w
wrapped w (negsuc n) = (2 ^ w - 1) - n % 2 ^ w

-- The lowest `n` bytes, lowest first: binary.LittleEndian.PutUint of `8 * n` bits.
unfoldable pub little : ℕ → ℕ → List ℕ
little zero v = []
little (suc n) v = v % 256 ∷ little n (v / 256)

-- And highest first: binary.BigEndian.PutUint.
unfoldable pub big : ℕ → ℕ → List ℕ
big zero v = []
big (suc n) v = big n (v / 256) ++ v % 256 ∷ []

-- Uint of the first `n` bytes, which panics on fewer.
unfoldable pub from_little : ℕ → List ℕ → Outcome ℕ
from_little zero bytes = returns 0
from_little (suc n) [] = panics
from_little (suc n) (b ∷ bytes) = and_then (from_little n bytes) λ v. returns (b + v * 256)

-- The same, highest byte first; `high` is what has been read so far.
unfoldable pub from_big : ℕ → ℕ → List ℕ → Outcome ℕ
from_big zero high bytes = returns high
from_big (suc n) high [] = panics
from_big (suc n) high (b ∷ bytes) = from_big n (high * 256 + b) bytes

abbrev pub encode_uint : ℕ → Bool → ℕ → List ℕ
encode_uint n true v = big n v
encode_uint n false v = little n v

abbrev pub decode_uint : ℕ → Bool → List ℕ → Outcome ℕ
decode_uint n true bytes = from_big n 0 bytes
decode_uint n false bytes = from_little n bytes

unfoldable pub encode_uint16 : Bool → ℕ → List ℕ
encode_uint16 big_endian v = encode_uint 2 big_endian v

unfoldable pub encode_uint32 : Bool → ℕ → List ℕ
encode_uint32 big_endian v = encode_uint 4 big_endian v

unfoldable pub encode_uint64 : Bool → ℕ → List ℕ
encode_uint64 big_endian v = encode_uint 8 big_endian v

unfoldable pub decode_uint16 : Bool → List ℕ → Outcome ℕ
decode_uint16 big_endian bytes = decode_uint 2 big_endian bytes

unfoldable pub decode_uint32 : Bool → List ℕ → Outcome ℕ
decode_uint32 big_endian bytes = decode_uint 4 big_endian bytes

unfoldable pub decode_uint64 : Bool → List ℕ → Outcome ℕ
decode_uint64 big_endian bytes = decode_uint 8 big_endian bytes

-- What decodeFieldValue returns: the type that the `interface{}` holds.
pub data Decoded : Type 0 where
  int8 int16 int32 : ℤ → Decoded
  uint8 uint16 uint32 : ℕ → Decoded
  float32 float64 : Float64 → Decoded
  string : String → Decoded
  bytes : List ℕ → Decoded

-- The conversion of an unsigned number of `w` bits to the signed type.
abbrev pub signed : ℕ → ℕ → ℤ
signed w v = if ltb v (2 ^ (w - 1)) then pos v else negsuc (2 ^ w - 1 - v)

abbrev pub first_byte : List ℕ → Outcome ℕ
first_byte [] = panics
first_byte (b ∷ rest) = returns b

module _ (utf8 : String → List ℕ) (from_utf8 : List ℕ → String)
    (float_to_uint32 float_to_uint64 : Float64 → ℕ) (float_of_uint32 float_of_uint64 : ℕ → Float64)
    (big_endian : Bool) where
  abbrev pub encoded_int : String → (ℤ → List ℕ) → Param → Error ⊎ List ℕ
  encoded_int kind f (int v) = inr (f v)
  encoded_int kind f _ = inl (unsupported_type kind)

  abbrev pub encoded_float : String → (Float64 → List ℕ) → Param → Error ⊎ List ℕ
  encoded_float kind f (float x) = inr (f x)
  encoded_float kind f _ = inl (unsupported_type kind)

  abbrev pub encoded_text : String → Param → Error ⊎ List ℕ
  encoded_text kind (text s) = inr (utf8 s)
  encoded_text kind _ = inl (unsupported_type kind)

  abbrev pub encoded_raw : String → Param → Error ⊎ List ℕ
  encoded_raw kind (raw bs) = inr bs
  encoded_raw kind _ = inl (unsupported_type kind)

  unfoldable pub encode_field_value : String → Param → Error ⊎ List ℕ
  encode_field_value kind v =
      if str_eq kind "int8"
      then encoded_int kind (λ n. wrapped 8 n ∷ []) v
      else if str_eq kind "uint8"
      then encoded_int kind (λ n. wrapped 8 n ∷ []) v
      else if str_eq kind "int16"
      then encoded_int kind (λ n. encode_uint16 big_endian (wrapped 16 n)) v
      else if str_eq kind "uint16"
      then encoded_int kind (λ n. encode_uint16 big_endian (wrapped 16 n)) v
      else if str_eq kind "int32"
      then encoded_int kind (λ n. encode_uint32 big_endian (wrapped 32 n)) v
      else if str_eq kind "uint32"
      then encoded_int kind (λ n. encode_uint32 big_endian (wrapped 32 n)) v
      else if str_eq kind "float32"
      then encoded_float kind (λ x. encode_uint32 big_endian (float_to_uint32 x)) v
      else if str_eq kind "float64"
      then encoded_float kind (λ x. encode_uint64 big_endian (float_to_uint64 x)) v
      else if str_eq kind "string"
      then encoded_text kind v
      else if str_eq kind "bytes"
      then encoded_raw kind v
      else inl (unsupported_type kind)

  abbrev pub decoded : {A : Type 0} → (A → Decoded) → Outcome A → Outcome (Error ⊎ Decoded)
  decoded f o = and_then o λ a. returns (inr (f a))

  unfoldable pub decode_field_value : String → List ℕ → Outcome (Error ⊎ Decoded)
  decode_field_value kind data_ =
      if str_eq kind "int8"
      then decoded (λ v. int8 (signed 8 v)) (first_byte data_)
      else if str_eq kind "uint8"
      then decoded uint8 (first_byte data_)
      else if str_eq kind "int16"
      then decoded (λ v. int16 (signed 16 v)) (decode_uint16 big_endian data_)
      else if str_eq kind "uint16"
      then decoded uint16 (decode_uint16 big_endian data_)
      else if str_eq kind "int32"
      then decoded (λ v. int32 (signed 32 v)) (decode_uint32 big_endian data_)
      else if str_eq kind "uint32"
      then decoded uint32 (decode_uint32 big_endian data_)
      else if str_eq kind "float32"
      then decoded (λ v. float32 (float_of_uint32 v)) (decode_uint32 big_endian data_)
      else if str_eq kind "float64"
      then decoded (λ v. float64 (float_of_uint64 v)) (decode_uint64 big_endian data_)
      else if str_eq kind "string"
      then returns (inr (string (from_utf8 data_)))
      else if str_eq kind "bytes"
      then returns (inr (bytes data_))
      else returns (inl (unsupported_type kind))
