-- ===== src/Coap/Receive.antt =====
-- coap_client.c: parseOption and coapClientHandleMsg. `msg` is the memory at `pui8_msg`, in which
-- a pointer is a position; it may be longer than the message.
pub mod Roundtrip
pub mod Safety
use edge_pdl.Prelude.{
  ℕ, zero, suc, ◌+◌, ◌-◌, ◌*◌, ◌/◌, ◌%◌, ◌^◌, Option, none, some, ◌>>=◌, Bool, true, false, ◌||◌,
  ◌&&◌, not,
}
use edge_pdl.Prelude.{if◌then◌else◌, ltb, leb, ◌==◌, List, [], ◌∷◌, length, get_elem?, set}
use edge_pdl.Coap.{CoapHeader, version, payload_marker, max_option_num, header_size}

-- `coap_option_st`
pub record CoapOption : Type 0 where
  pub option : ℕ
  pub len : ℕ
  pub ptr : ℕ

-- `coap_packet_st`; a pointer is `none` where it is NULL.
pub record Packet : Type 0 where
  pub header : CoapHeader
  pub option_count : ℕ
  pub options : List CoapOption
  pub token : Option ℕ
  pub payload : Option ℕ
  pub payload_len : ℕ

-- `p` and `headlen` of parseOption.
pub record Head : Type 0 where
  pub p : ℕ
  pub head_len : ℕ

-- One of its two tests of four bits, with the bytes that it reads behind `p`. In this file `none` is
-- a read out of range, and `some none` is `return -1`.
pub extended : List ℕ → ℕ → ℕ → Head → Option (Option (ℕ × Head))
extended msg buf_len nibble h =
    if nibble == 13
    then if ltb buf_len (h.head_len + 1)
      then some none
      else get_elem? msg (h.p + 1)
        >>= (λ b. some (some (b + 13, record { p = h.p + 1; head_len = h.head_len + 1 })))
    else if nibble == 14
    then if ltb buf_len (h.head_len + 2)
      then some none
      else get_elem? msg (h.p + 1) >>= (λ b. get_elem? msg (h.p + 2) >>= λ c. some (
          some ((b * 2 ^ 8 + c + 269) % 2 ^ 16, record { p = h.p + 2; head_len = h.head_len + 2 })))
    else if nibble == 15
    then some none
    else some (some (nibble, h))

-- The option, `*buf` and `*running_delta` that it leaves.
pub record Parsed : Type 0 where
  pub option : CoapOption
  pub buf : ℕ
  pub running_delta : ℕ

-- Its end, once the length is known.
pub take_option : ℕ → ℕ → ℕ → ℕ → ℕ × Head → Option (Option Parsed)
take_option running_delta buf buf_len delta (len, h) =
    if ltb (buf + buf_len) (h.p + 1 + len)
    then some none
    else some (
        some (record {
          option = record {
            option = (delta + running_delta) % 256;
            len = len % 256;
            ptr = h.p + 1;
          };
          buf = h.p + 1 + len;
          running_delta = (running_delta + delta) % 2 ^ 16;
        }))

-- A test that returns -1 ends the function.
pub ◌>>?◌ : {A B : Type 0} → Option (Option A) → (A → Option (Option B)) → Option (Option B)

infixl 20 ◌>>?◌
none >>? f = none
some none >>? f = some none
some (some x) >>? f = f x

-- parseOption
pub parse_option : List ℕ → ℕ → ℕ → ℕ → Option (Option Parsed)
parse_option msg running_delta buf buf_len =
    if ltb buf_len 1
    then some none
    else get_elem? msg buf >>= (λ b.
      extended msg buf_len (b / 2 ^ 4 % 2 ^ 4) (record { p = buf; head_len = 1 }) >>? λ (delta, h).
      extended msg buf_len (b % 2 ^ 4) h >>? take_option running_delta buf buf_len delta)

-- The loop of coapClientHandleMsg: the options, their number, and where it stopped.
pub record Options : Type 0 where
  pub options : List CoapOption
  pub count : ℕ
  pub p : ℕ

-- The first argument is how many more options the packet takes. `*p` is read before `p < end` is
-- tested.
pub handle_options : ℕ → List ℕ → ℕ → ℕ → Options → Option (Option Options)
handle_options zero msg end delta s = some (some s)
handle_options (suc room) msg end delta s =
    let next = λ (r : Parsed).
      handle_options room msg end r.running_delta
        (record { options = set s.options s.count r.option; count = s.count + 1; p = r.buf }) in
    get_elem? msg s.p >>= λ b.
    if not (b == 0xff) && ltb s.p end
    then parse_option msg delta s.p (end - s.p) >>? next
    else some (some s)

-- The payload behind them.
pub handle_payload : List ℕ → ℕ → Packet → Options → Option (Option Packet)
handle_payload msg end packet s =
    let found = record packet { options = s.options; option_count = s.count } in
    let empty = record found { payload = none; payload_len = 0 } in
    if ltb (s.p + 1) end
    then get_elem? msg s.p >>= (λ b.
      if b == payload_marker
      then some (
          some
            (record found { payload = some (s.p + 1); payload_len = (end - (s.p + 1)) % 2 ^ 16 }))
      else some (some empty))
    else some (some empty)

-- The header's bits in memory.
pub read_header : List ℕ → Option CoapHeader
read_header msg = get_elem? msg 0 >>= λ b. get_elem? msg 1 >>= λ code. get_elem? msg 2 >>= λ h.
    get_elem? msg 3 >>= λ l. some (record {
      token_len = b % 2 ^ 4;
      type = b / 2 ^ 4 % 2 ^ 2;
      version = b / 2 ^ 6 % 2 ^ 2;
      code = code;
      msg_id_h = h;
      msg_id_l = l;
    })

-- The token, and then the options and the payload where there is room for them; `junk` is what the
-- packet on the stack holds before.
pub handle_body : Packet → List ℕ → ℕ → CoapHeader → Option (Option Packet)
handle_body junk msg msg_len header =
    let token = if header.token_len == 0 then none else some 4 in
    let packet = record junk { header = header; token = token } in
    let p = header_size + header.token_len in
    if leb header.token_len 8
    then if ltb p msg_len
      then handle_options max_option_num msg msg_len 0
          (record { options = packet.options; count = 0; p = p })
        >>? handle_payload msg msg_len packet
      else some (some packet)
    else some none

-- coapClientHandleMsg: the packet that the response handler gets, or `some none` where the
-- function returns false.
pub handle_msg : Packet → List ℕ → ℕ → Option (Option Packet)
handle_msg junk msg msg_len = read_header msg >>= λ header.
    if ltb msg_len header_size || not (header.version == version)
    then some none
    else handle_body junk msg msg_len header
