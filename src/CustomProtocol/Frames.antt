-- ===== src/CustomProtocol/Frames.antt =====
-- internal/hardware/protocols/custom/custom.go: checksums and command frames. decode_hex is
-- hex.DecodeString, with an error for an odd length or a character that is no digit.
use Prim.Native.Char.{code}
use Prim.Native.Nat.{bit_xor, bit_and}
use go_control.Prelude.{
  ℕ, zero, suc, ◌+◌, ◌-◌, ◌*◌, ◌/◌, ◌%◌, String, not, ◌&&◌, Option, none, some, List, [], ◌∷◌, ◌++◌,
  ◌⊎◌, inl, inr, str_eq, if◌then◌else◌, leb, ◌==◌,
}
use go_control.GoMap
use go_control.GoMap.{GoMap}
use go_control.Types.{Float64}
use go_control.CustomProtocol.{
  Param, FieldDefinition, CommandDefinition, CustomProtocolConfig, Error, invalid_header,
  invalid_code, invalid_trailer,
}
use go_control.CustomProtocol.Encoding.{encode_field_value}

abbrev pub hex_digit : ℕ → Option ℕ
hex_digit c =
    if leb 48 c && leb c 57
    then some (c - 48)
    else if leb 97 c && leb c 102
    then some (c - 87)
    else if leb 65 c && leb c 70
    then some (c - 55)
    else none

abbrev pub byte_of : Option ℕ → Option ℕ → Option (List ℕ) → Option (List ℕ)
byte_of (some a) (some b) (some rest) = some ((a * 16 + b) ∷ rest)
byte_of _ _ _ = none

unfoldable pub decode_hex : String → Option (List ℕ)
decode_hex String.[] = some []
decode_hex (String.◌∷◌ a String.[]) = none
decode_hex (String.◌∷◌ a (String.◌∷◌ b rest)) =
    byte_of (hex_digit (code a)) (hex_digit (code b)) (decode_hex rest)

-- The loop of calculateCRC8 and of calculateXOR, which are the same.
unfoldable pub xor_from : ℕ → List ℕ → ℕ
xor_from r [] = r
xor_from r (b ∷ bytes) = xor_from (bit_xor r b) bytes

abbrev pub calculate_crc8 : List ℕ → ℕ
calculate_crc8 bytes = xor_from 0 bytes

abbrev pub calculate_xor : List ℕ → ℕ
calculate_xor bytes = xor_from 0 bytes

-- One round of the inner loop, and `n` rounds.
abbrev pub crc16_round : ℕ → ℕ
crc16_round crc = if not (bit_and crc 1 == 0) then bit_xor (crc / 2) 0xA001 else crc / 2

unfoldable pub crc16_rounds : ℕ → ℕ → ℕ
crc16_rounds zero crc = crc
crc16_rounds (suc n) crc = crc16_rounds n (crc16_round crc)

unfoldable pub crc16_from : ℕ → List ℕ → ℕ
crc16_from crc [] = crc
crc16_from crc (b ∷ bytes) = crc16_from (crc16_rounds 8 (bit_xor crc b)) bytes

abbrev pub calculate_crc16 : List ℕ → ℕ
calculate_crc16 bytes = crc16_from 0xFFFF bytes

unfoldable pub calculate_checksum : String → List ℕ → List ℕ
calculate_checksum method bytes =
    if str_eq method "crc8"
    then calculate_crc8 bytes ∷ []
    else if str_eq method "crc16"
    then calculate_crc16 bytes / 256 % 256 ∷ calculate_crc16 bytes % 256 ∷ []
    else if str_eq method "xor"
    then calculate_xor bytes ∷ []
    else []

-- A part of a frame that is left out if its text is empty.
abbrev pub optional_hex : Error → String → Error ⊎ List ℕ
optional_hex e s =
    if str_eq s "" then inr [] else elim (decode_hex s) [ none ↦ inl e | some bytes ↦ inr bytes ]

abbrev pub or_error : {A : Type 0} → Error → Option A → Error ⊎ A
or_error e none = inl e
or_error e (some a) = inr a

abbrev pub bind : {A B : Type 0} → Error ⊎ A → (A → Error ⊎ B) → Error ⊎ B
bind (inl e) f = inl e
bind (inr a) f = f a

module _ (utf8 : String → List ℕ) (from_utf8 : List ℕ → String)
    (float_to_uint32 float_to_uint64 : Float64 → ℕ) (float_of_uint32 float_of_uint64 : ℕ → Float64)
    (config : CustomProtocolConfig) where
  -- A field with no parameter of its name is passed over.
  unfoldable pub encode_parameters : List FieldDefinition → GoMap Param → Error ⊎ List ℕ
  encode_parameters [] params = inr []
  encode_parameters (f ∷ fields) params =
      let rest = encode_parameters fields params in
      elim (GoMap.get params f.name) [
        | none ↦ rest
        | some v ↦
            bind
              (encode_field_value utf8 from_utf8 float_to_uint32 float_to_uint64 float_of_uint32
                float_of_uint64 config.big_endian f.kind v)
              λ bytes. bind rest λ more. inr (bytes ++ more)
      ]

  abbrev pub checked : List ℕ → List ℕ
  checked frame =
      if str_eq config.checksum_method "none"
      then frame
      else frame ++ calculate_checksum config.checksum_method frame

  unfoldable pub build_command_frame : CommandDefinition → GoMap Param → Error ⊎ List ℕ
  build_command_frame cmd params = bind (optional_hex invalid_header config.header) λ header.
      bind (or_error invalid_code (decode_hex cmd.command_code)) λ code_.
        bind (encode_parameters cmd.fields params) λ bytes.
          let frame = checked (header ++ (code_ ++ bytes)) in
          bind (optional_hex invalid_trailer config.trailer) λ trailer. inr (frame ++ trailer)
