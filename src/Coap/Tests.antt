-- ===== src/Coap/Tests.antt =====
-- A request and messages at concrete inputs.
use edge_pdl.Prelude.{
  ℕ, none, some, true, List, [], ◌∷◌, ◌++◌, take, drop, replicate, ◌≡◌, refl, arith,
}
use edge_pdl.Coap.Send.{send_request}
use edge_pdl.Coap.Send.Request.{send_request_lem}
use edge_pdl.Coap.Receive.{Packet, handle_msg}
use edge_pdl.Coap.Receive.Roundtrip.{received, request_roundtrip}
use edge_pdl.Coap.Receive.Safety.{Safe, Delivered, handle_msg_inside}

-- "t/x"
abbrev path : List ℕ
path = 116 ∷ 47 ∷ 120 ∷ []

abbrev request : List ℕ
request = 0x40 ∷ 3 ∷ 1 ∷ 2 ∷ 0xb3 ∷ 116 ∷ 47 ∷ 120 ∷ 0xff ∷ 7 ∷ 8 ∷ []

send_request_lem_example :
    send_request (replicate 512 0) true 3 258 path (7 ∷ 8 ∷ []) 2
    ≡ some (record { packet = some request; result = true })
send_request_lem_example =
    send_request_lem (replicate 512 0) path (7 ∷ 8 ∷ []) 3 258 2 refl (omega arith) (omega arith)

abbrev junk : Packet
junk = record {
  header = record { token_len = 0; type = 0; version = 0; code = 0; msg_id_h = 0; msg_id_l = 0 };
  option_count = 0xee;
  options = replicate 4 (record { option = 0xee; len = 0xee; ptr = 0xee });
  token = none;
  payload = some 0xee;
  payload_len = 0xee;
}

request_roundtrip_example :
    (handle_msg junk (request ++ 0xff ∷ []) 11 ≡ some (some (received junk 3 258 path 2)))
    × (take 3 (drop 5 request) ≡ path)
    × (take 2 (drop 9 request) ≡ (7 ∷ 8 ∷ []))
request_roundtrip_example =
    request_roundtrip junk 3 258 2 0xff path (7 ∷ 8 ∷ []) [] (omega arith) (omega arith)
      (omega arith)

-- A response with a token of two bytes, an option and a payload.
abbrev response : List ℕ
response = 0x62 ∷ 0x45 ∷ 1 ∷ 2 ∷ 9 ∷ 9 ∷ 0xc1 ∷ 0x2a ∷ 0xff ∷ 5 ∷ []

handle_msg_inside_example : Safe (Delivered junk 10) (handle_msg junk (response ++ 0 ∷ []) 10)
handle_msg_inside_example =
    handle_msg_inside junk (response ++ 0 ∷ []) 10 (omega arith) (omega arith) refl
