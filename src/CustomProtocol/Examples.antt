-- ===== src/CustomProtocol/Examples.antt =====
-- internal/hardware/protocols/custom/custom.go: a field of two bytes, a frame, and a client that is
-- connected and has a command to read, with the theorems at them.
use go_control.Prelude.{length, ◌*◌, ◌++◌, ℕ, String, ◌≡◌, true, false, List, [], ◌∷◌, inr}
use go_control.Outcome.{returns}
use go_control.Types.{Float64}
use go_control.Nodes.{negsuc}
use go_control.CustomProtocol.{
  CustomProtocolClient, int, new_custom_protocol_client, register_command,
}
use go_control.CustomProtocol.Encoding.{
  encode_field_value, decode_field_value, int16, signed, wrapped,
}
use go_control.CustomProtocol.Checks.{a_int16, decode_field_value-encode_field_value}
use go_control.CustomProtocol.Answers.{connect, read, write, IsRefused, read_write-IsRefused}

abbrev utf8 : String → List ℕ
utf8 s = []

abbrev from_utf8 : List ℕ → String
from_utf8 bs = ""

abbrev to_bits : Float64 → ℕ
to_bits x = x.bits

abbrev of_bits : ℕ → Float64
of_bits n = record { bits = n }

abbrev client : CustomProtocolClient
client = connect (
    register_command (record { name = "read"; command_code = "0A"; fields = [] })
      (new_custom_protocol_client (record {
        connection = record {
          timeout = 5;
          retry_count = 3;
          retry_interval = 1;
          keep_alive = false;
        };
        header = "AA55";
        trailer = "";
        checksum_method = "crc16";
        big_endian = true;
      })))

-- Minus three.
decode_field_value-encode_field_value_example :
    (data_ : List ℕ) × (encode_field_value utf8 from_utf8 to_bits to_bits of_bits of_bits true
        "int16"
        (int (negsuc 2))
      ≡ inr data_)
    × (length data_ * 8 ≡ 16)
    × (decode_field_value utf8 from_utf8 to_bits to_bits of_bits of_bits true "int16"
          (data_ ++ 5 ∷ [])
        ≡ returns (inr (int16 (signed 16 (wrapped 16 (negsuc 2))))))
decode_field_value-encode_field_value_example =
    decode_field_value-encode_field_value utf8 from_utf8 to_bits to_bits of_bits of_bits true
      "int16" 16 (λ v. int16 (signed 16 v)) (negsuc 2) (5 ∷ []) a_int16

read_write-IsRefused_example :
    IsRefused utf8 from_utf8 to_bits to_bits of_bits of_bits [] client
      (read utf8 from_utf8 to_bits to_bits of_bits of_bits [] false "40001" 2 client)
    × IsRefused utf8 from_utf8 to_bits to_bits of_bits of_bits [] client
        (write utf8 from_utf8 to_bits to_bits of_bits of_bits [] false "40001" (1 ∷ []) client)
read_write-IsRefused_example =
    read_write-IsRefused utf8 from_utf8 to_bits to_bits of_bits of_bits [] false "40001" 2 (1 ∷ [])
      client
