-- ===== src/CustomProtocol/Answers.antt =====
-- internal/hardware/protocols/custom/custom.go: Connect, Read, Write and the wait for a response. The
-- response channel of a call is new and nothing sends to it: listenForData is empty, and no other
-- method reads `responseChannels`. `over` is whether the context ends within the five seconds of the
-- wait. The order in which `range` visits a map is a parameter.
use go_control.Prelude.{
  ℕ, zero, suc, ◌+◌, String, length, ◌≡◌, refl, Bool, true, false, not, Option, none, some, List,
  [], ◌∷◌, ◌⊎◌, inl, inr, if◌then◌else◌, ltb, Option-cases, Bool-cases,
}
use go_control.GoMap
use go_control.GoMap.{GoMap}
use go_control.Channel.{Channel, make, receive}
use go_control.Outcome.{Outcome, returns, and_then}
use go_control.Types.{Float64}
use go_control.Nodes.{pos}
use go_control.Comm
use go_control.Comm.{
  connecting, connected, disconnected, set_status, is_connected, emit_event, on_connected,
  on_disconnected, on_data_received, on_data_written,
}
use go_control.CustomProtocol.{
  Param, int, text, raw, FieldDefinition, CommandDefinition, CustomProtocolClient, Error,
  not_connected, timed_out, context_done, not_defined,
}
use go_control.CustomProtocol.Encoding.{Decoded, bytes, decode_field_value}
use go_control.CustomProtocol.Frames.{build_command_frame}

-- `data[offset : offset+size]`
unfoldable pub dropped : ℕ → List ℕ → List ℕ
dropped zero bs = bs
dropped (suc n) [] = []
dropped (suc n) (b ∷ bs) = dropped n bs

unfoldable pub taken : ℕ → List ℕ → List ℕ
taken zero bs = []
taken (suc n) [] = []
taken (suc n) (b ∷ bs) = b ∷ taken n bs

-- connectNetwork and connectSerial both set the connection and return nil.
unfoldable pub connect : CustomProtocolClient → CustomProtocolClient
connect c =
    let started = set_status connecting c.base in
    record c { connected = true; base = emit_event on_connected (set_status connected started) }

unfoldable pub disconnect : CustomProtocolClient → CustomProtocolClient
disconnect c = record c {
  connected = false;
  base = emit_event on_disconnected (set_status disconnected c.base);
}

unfoldable pub reconnect : CustomProtocolClient → CustomProtocolClient
reconnect c = connect (disconnect c)

module _ (utf8 : String → List ℕ) (from_utf8 : List ℕ → String)
    (float_to_uint32 float_to_uint64 : Float64 → ℕ) (float_of_uint32 float_of_uint64 : ℕ → Float64)
    (order : List String) where
  -- The entries of the result: a field that goes beyond the data, or cannot be decoded, is passed over.
  abbrev pub recorded : String → Error ⊎ Decoded → GoMap Decoded → GoMap Decoded
  recorded name (inl e) m = m
  recorded name (inr v) m = GoMap.put m name v

  unfoldable pub decode_fields :
      Bool → List FieldDefinition → List ℕ → GoMap Decoded → Outcome (GoMap Decoded)
  decode_fields big_endian [] data_ m = returns m
  decode_fields big_endian (f ∷ fields) data_ m =
      if ltb (length data_) (f.offset + f.size)
      then decode_fields big_endian fields data_ m
      else and_then
          (decode_field_value utf8 from_utf8 float_to_uint32 float_to_uint64 float_of_uint32
            float_of_uint64 big_endian f.kind (taken f.size (dropped f.offset data_)))
          (λ r. decode_fields big_endian fields data_ (recorded f.name r m))

  -- The first value of bytes that `range` meets.
  abbrev pub or_bytes : Option Decoded → List ℕ → List ℕ
  or_bytes (some (bytes bs)) rest = bs
  or_bytes _ rest = rest

  unfoldable pub first_bytes : List String → GoMap Decoded → List ℕ → List ℕ
  first_bytes [] m data_ = data_
  first_bytes (name ∷ names) m data_ = or_bytes (GoMap.get m name) (first_bytes names m data_)

  unfoldable pub parse_response : String → List ℕ → CustomProtocolClient → Outcome (List ℕ)
  parse_response code_ data_ c = elim (GoMap.get c.responses code_) [
    | none ↦ returns data_
    | some resp ↦
        and_then (decode_fields c.config.big_endian resp.fields data_ GoMap.empty)
          (λ m. returns (first_bytes order m data_))
  ]

  abbrev pub Answer : Type 0
  Answer = Outcome (Error ⊎ List ℕ)

  -- The `select` at the end of sendCommandAndWaitForResponse.
  unfoldable pub wait : Bool → String → Channel (List ℕ) → CustomProtocolClient → Answer
  wait over code_ chan c = elim (receive chan) [
    | some (data_, rest) ↦ and_then (parse_response code_ data_ c) λ bs. returns (inr bs)
    | none ↦ returns (inl (if over then context_done else timed_out))
  ]

  abbrev pub sent : Bool → String → CustomProtocolClient → Error ⊎ List ℕ → Answer
  sent over code_ c (inl e) = returns (inl e)
  sent over code_ c (inr frame) = wait over code_ (make 1) c

  -- sendRawData sends nothing and returns nil.
  unfoldable pub send_command_and_wait_for_response :
      Bool → CommandDefinition → GoMap Param → CustomProtocolClient → Answer
  send_command_and_wait_for_response over cmd params c = sent over cmd.command_code c (
      build_command_frame utf8 from_utf8 float_to_uint32 float_to_uint64 float_of_uint32
        float_of_uint64 c.config cmd params)

  -- The client and the answer behind a call; the event is emitted on success.
  abbrev pub Done : Type 0
  Done = Outcome (CustomProtocolClient × (Error ⊎ List ℕ))

  abbrev pub received :
      (List ℕ → Comm.CommEvent)
      → CustomProtocolClient
      → Error ⊎ List ℕ
      → CustomProtocolClient × (Error ⊎ List ℕ)
  received event c (inl e) = (c, inl e)
  received event c (inr bs) = (record c { base = emit_event (event bs) c.base }, inr bs)

  abbrev pub request :
      Bool → String → GoMap Param → (List ℕ → Comm.CommEvent) → CustomProtocolClient → Done
  request over name params event c =
      if not (is_connected c.base)
      then returns (c, inl not_connected)
      else elim (GoMap.get c.commands name) [
        | none ↦ returns (c, inl (not_defined name))
        | some cmd ↦
            and_then (send_command_and_wait_for_response over cmd params c)
              λ r. returns (received event c r)
      ]

  unfoldable pub read : Bool → String → ℕ → CustomProtocolClient → Done
  read over address n c =
      request over "read"
        (GoMap.put (GoMap.put GoMap.empty "address" (text address)) "length" (int (pos n)))
        (on_data_received address) c

  unfoldable pub write : Bool → String → List ℕ → CustomProtocolClient → Done
  write over address data_ c =
      request over "write"
        (GoMap.put (GoMap.put GoMap.empty "address" (text address)) "data" (raw data_))
        (λ bs. on_data_written address data_) c

  -- The answer is an error, and the client is as it was before.
  abbrev pub IsRefused : CustomProtocolClient → Done → Type 0
  IsRefused c o = (e : Error) × (o ≡ returns (c, inl e))

  sent-error :
      (over : Bool) (code_ : String) (c : CustomProtocolClient) (f : Error ⊎ List ℕ)
      → (e : Error) × (sent over code_ c f ≡ returns (inl e))
  unfolding wait receive
  sent-error over code_ c (inl e) = (e, refl)
  sent-error over code_ c (inr frame) = (_, refl)

  request-IsRefused :
      (over : Bool) (name : String) (params : GoMap Param) (event : List ℕ → Comm.CommEvent)
      → (c : CustomProtocolClient) → IsRefused c (request over name params event c)
  unfolding send_command_and_wait_for_response
  request-IsRefused over name params event c = elim (Bool-cases (is_connected c.base)) [
    | inr off ↦ (not_connected, rw off refl)
    | inl on ↦ elim (Option-cases (GoMap.get c.commands name)) [
      | inl e ↦ (not_defined name, rw (on, e) refl)
      | inr (cmd, e) ↦
          let (x, f) = sent-error over cmd.command_code c (
            build_command_frame utf8 from_utf8 float_to_uint32 float_to_uint64 float_of_uint32
              float_of_uint64 c.config cmd params) in
          (x, rw (on, e) (rw f refl))
    ]
  ]

  -- Read and Write of any client, connected or not, return an error and leave the client as it was.
  pub read_write-IsRefused :
      (over : Bool) (address : String) (n : ℕ) (data_ : List ℕ) (c : CustomProtocolClient)
      → IsRefused c (read over address n c) × IsRefused c (write over address data_ c)
  unfolding read write
  read_write-IsRefused over address n data_ c =
      (request-IsRefused over "read" _ _ c, request-IsRefused over "write" _ _ c)
