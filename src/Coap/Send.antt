-- ===== src/Coap/Send.antt =====
-- coap_client.c: coapClientSendRequest, and packetAddOption as it uses it.
pub mod Request
use edge_pdl.Prelude.{
  ℕ, zero, suc, ◌+◌, ◌-◌, ◌*◌, ◌/◌, ◌%◌, ◌^◌, bit_or, Option, none, some, ◌>>=◌, Bool, true, false,
}
use edge_pdl.Prelude.{if◌then◌else◌, ltb, leb, ◌==◌, List, [], ◌∷◌, ◌++◌, length, take}
use edge_pdl.Buffer.{Writer, put_all, read_bytes}
use edge_pdl.Coap.{
  CoapHeader, version, type_confirmable, opt_uri_path, payload_marker, buf_max_size, header_size,
}

-- `coap_option_st`; `ptr` is the memory at the pointer.
pub record SendOption : Type 0 where
  pub option : ℕ
  pub len : ℕ
  pub ptr : List ℕ

-- What the loops of the function change: the buffer with `p`, and `packetSize`.
pub record Sender : Type 0 where
  pub out : Writer
  pub packet_size : ℕ

-- The header's bits in memory: the bit fields stand in a byte from its lowest bit on.
abbrev pub header_bytes : CoapHeader → List ℕ
header_bytes h =
    (h.token_len + 2 ^ 4 * h.type + 2 ^ 6 * h.version) ∷ h.code ∷ h.msg_id_h ∷ h.msg_id_l ∷ []

-- COAP_OPTION_DELTA
pub option_delta : ℕ → ℕ
option_delta v = if ltb v 13 then v % 256 else if leb v (0xff + 13) then 13 else 14

-- packetAddOption over the options that the packet has.
pub packet_add_option : List SendOption → ℕ → ℕ → List ℕ → List SendOption
packet_add_option options opt_number len payload =
    options ++ record { option = opt_number % 256; len = len % 256; ptr = payload } ∷ []

-- The bytes behind the first one of an option, for its delta or its length: one, two or none, of
-- which the first of two is `high`.
pub extension : ℕ → ℕ → ℕ → List ℕ
extension nibble value high =
    if nibble == 13
    then ((value - 13) % 256) ∷ []
    else if nibble == 14
    then high ∷ ((value - 269) % 256) ∷ []
    else []

-- The writes of one option, from its two digits of four bits and their extensions.
pub write_option : SendOption → ℕ → ℕ → List ℕ → List ℕ → Writer → Option Writer
write_option o delta len delta_ext len_ext w = do
  w ← put_all ((bit_or (delta * 2 ^ 4) len % 256) ∷ []) w
  w ← put_all delta_ext w
  w ← put_all len_ext w
  bytes ← read_bytes o.len o.ptr
  put_all bytes w

-- The loop that writes the options. The test stands before each; `some none` is `return false`.
pub options_loop : List SendOption → ℕ → Sender → Option (Option Sender)
options_loop [] running_delta s = some (some s)
options_loop (o ∷ options) running_delta s =
    let opt_delta = (o.option + 2 ^ 32 - running_delta) % 2 ^ 32 in
    let delta = option_delta opt_delta in
    let len = option_delta o.len in
    let delta_ext = extension delta opt_delta ((opt_delta - 269) / 2 ^ 8 % 256) in
    let len_ext = extension len o.len (o.len / 2 ^ 8) in
    let rest = λ (w : Writer). options_loop options o.option (record {
      out = w;
      packet_size = (s.packet_size + length delta_ext + length len_ext + (o.len + 1)) % 2 ^ 16;
    }) in
    if leb buf_max_size (s.packet_size + 5 + o.len)
    then some none
    else write_option o delta len delta_ext len_ext s.out >>= rest

-- The payload behind the options; `some none` is `return false`.
pub add_payload : List ℕ → ℕ → Sender → Option (Option Sender)
add_payload payload payload_len s =
    if ltb 0 payload_len
    then if leb buf_max_size (s.packet_size + 1 + payload_len)
      then some none
      else put_all (payload_marker ∷ []) s.out >>= (λ w. read_bytes payload_len payload >>= λ bytes.
          put_all bytes w >>= λ w.
          some
            (some (record { out = w; packet_size = (s.packet_size + (1 + payload_len)) % 2 ^ 16 })))
    else some (some s)

-- What the caller and the send handler see: the packet that the handler gets, if it is called, and
-- the result.
pub record Sent : Type 0 where
  pub packet : Option (List ℕ)
  pub result : Bool

-- The end of the function, or its early return.
pub hand_over : Bool → Option Sender → Option Sent
hand_over handler none = some (record { packet = none; result = false })
hand_over handler (some s) =
    if handler
    then read_bytes s.packet_size s.out.buf
      >>= (λ packet. some (record { packet = some packet; result = true }))
    else some (record { packet = none; result = true })

-- What follows the options.
pub send_payload : Bool → List ℕ → ℕ → Option Sender → Option Sent
send_payload handler payload payload_len none = hand_over handler none
send_payload handler payload payload_len (some s) =
    add_payload payload payload_len s >>= hand_over handler

-- coapClientSendRequest; `buffer` is the context's, `handler` says whether its send handler is
-- set, and `path` is the string without its end. `none` is an access out of range.
pub send_request : List ℕ → Bool → ℕ → ℕ → List ℕ → List ℕ → ℕ → Option Sent
send_request buffer handler method msg_id path payload payload_len =
    let header : CoapHeader = record {
      token_len = 0;
      type = type_confirmable;
      version = version;
      code = method % 256;
      msg_id_h = msg_id / 2 ^ 8 % 256;
      msg_id_l = msg_id % 256;
    } in
    let options = packet_add_option [] opt_uri_path (length path) path in
    put_all (header_bytes header) (record { buf = buffer; end = 0 }) >>= λ w.
    options_loop options 0 (record { out = w; packet_size = header_size })
    >>= send_payload handler payload payload_len
