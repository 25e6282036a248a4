-- ===== src/MeshPayload/Roundtrip.antt =====
-- The header that meshCommsSend puts before the data, and onLoraData, which gets it.
use edge_pdl.Prelude.{
  ℕ, zero, suc, ◌+◌, ◌*◌, ◌/◌, ◌%◌, ◌^◌, ◌<◌, some, List, [], ◌∷◌, ◌++◌, get_or, ◌≡◌, ◌∙◌, ap, refl,
  arith,
}
use edge_pdl.MeshComms.{Request, payload_header}
use edge_pdl.MeshComms.Send.{payload_header-eq}
use edge_pdl.MeshPayload.{
  Header, read_payload, handlers_of, on_lora_data, Handler, current_time, handle_request,
  cloud_server_response, command_server_response, update_server_response, cloud_response_ack,
  cloud_sync_response, cloud_report_ack, command_request_ack, update_request_ack,
  process_client_request, process_server_response, process_local_message,
}

-- The header that a request has on the other side.
abbrev pub header_of : ℕ → Request → Header
header_of msg_id r = record {
  msg_id = msg_id;
  len = r.len;
  method = r.method;
  endpoint = r.endpoint;
  idx = r.idx;
  partial = r.partial;
}

-- Who is handed what, as a table: by the endpoint for the requests, and by the method.
abbrev pub request_table : List (List Handler)
request_table =
    []
    ∷ (current_time ∷ [])
    ∷ (handle_request ∷ [])
    ∷ (handle_request ∷ [])
    ∷ (handle_request ∷ [])
    ∷ []
    ∷ (handle_request ∷ [])
    ∷ []
    ∷ []

abbrev pub method_table : ℕ → List (List Handler)
method_table endpoint =
    (cloud_response_ack ∷ cloud_sync_response ∷ cloud_report_ack ∷ command_request_ack
      ∷ update_request_ack ∷ [])
    ∷ get_or request_table endpoint []
    ∷ get_or request_table endpoint []
    ∷ (cloud_server_response ∷ command_server_response ∷ update_server_response ∷ [])
    ∷ []

request_lem : (endpoint : ℕ) → process_client_request endpoint ≡ get_or request_table endpoint []
unfolding process_client_request
request_lem zero = refl
request_lem (suc zero) = refl
request_lem (suc (suc zero)) = refl
request_lem (suc (suc (suc zero))) = refl
request_lem (suc (suc (suc (suc zero)))) = refl
request_lem (suc (suc (suc (suc (suc zero))))) = refl
request_lem (suc (suc (suc (suc (suc (suc zero)))))) = refl
request_lem (suc (suc (suc (suc (suc (suc (suc zero))))))) = refl
request_lem (suc (suc (suc (suc (suc (suc (suc (suc n)))))))) = ground arith

handlers_lem :
    (h : Header) (method endpoint : ℕ)
    → h.method ≡ method
    → h.endpoint ≡ endpoint
    → method < 4
    → handlers_of h ≡ get_or (method_table endpoint) method []
unfolding handlers_of process_server_response process_local_message
handlers_lem h zero endpoint e k p = rw e refl
handlers_lem h (suc zero) endpoint e k p = rw (e, k) (request_lem endpoint)
handlers_lem h (suc (suc zero)) endpoint e k p = rw (e, k) (request_lem endpoint)
handlers_lem h (suc (suc (suc zero))) endpoint e k p = rw e refl
handlers_lem h (suc (suc (suc (suc n)))) endpoint e k p = absurd (omega (arith, p))

-- The payload of a message with fields that fit their bits, whatever stands behind its data: onLoraData
-- reads the fields and the data. It hands them, by the method, in turn to the five functions for local
-- messages (0), to the three for the server's responses (3), or (1 and 2) by the endpoint: 1 to
-- meshCloudCurrentTime, 2, 3, 4 and 6 to meshCloudHandleRequest, and the others to none.
pub payload_roundtrip :
    (msg_id : ℕ) (r : Request) (content : List ℕ)
    → msg_id < 2 ^ 16
    → r.method < 4
    → r.endpoint < 8
    → r.idx < 4
    → r.partial < 2
    → on_lora_data (payload_header msg_id r ++ content)
      ≡ some (
        get_or (method_table r.endpoint) r.method [],
        record { hdr = header_of msg_id r; content = content },
      )
unfolding on_lora_data read_payload
payload_roundtrip msg_id r content p m e i q = rw (payload_header-eq msg_id r) (
    (λ k. some (handlers_of (read k), record { hdr = read k; content = content }))
    ∙ ap (λ t. some (t, record { hdr = header_of msg_id r; content = content }))
        (handlers_lem (header_of msg_id r) r.method r.endpoint refl refl m))
  where
    fields : ℕ
    fields = r.method % 4 + 4 * (r.endpoint % 8) + 32 * (r.idx % 4) + 128 * (r.partial % 2)

    id-eq : msg_id % 256 + 256 * (msg_id / 2 ^ 8 % 256) ≡ msg_id
    id-eq = omega (arith, p)

    method-eq : fields % 4 ≡ r.method
    method-eq = omega (arith, m)

    endpoint-eq : fields / 4 % 8 ≡ r.endpoint
    endpoint-eq = omega (arith, e)

    idx-eq : fields / 32 % 4 ≡ r.idx
    idx-eq = omega (arith, i)

    partial-eq : fields / 128 % 2 ≡ r.partial
    partial-eq = omega (arith, i, q)

    read :
        ◌≡◌ {A = Header}
          (record {
            msg_id = msg_id % 256 + 256 * (msg_id / 2 ^ 8 % 256);
            len = r.len;
            method = fields % 4;
            endpoint = fields / 4 % 8;
            idx = fields / 32 % 4;
            partial = fields / 128 % 2;
          })
          (header_of msg_id r)
    read = λ k. record {
      msg_id = id-eq k;
      len = r.len;
      method = method-eq k;
      endpoint = endpoint-eq k;
      idx = idx-eq k;
      partial = partial-eq k;
    }
