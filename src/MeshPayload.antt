-- ===== src/MeshPayload.antt =====
-- mesh_comms.h and mesh_comms.c: the payload of a message, and onLoraData, which hands it to the
-- functions that parse it. The functions are named, not run: CloudMesh and MeshCloud have theirs.
-- `none` is a read out of range.
pub mod Roundtrip
mod Tests
use edge_pdl.Prelude.{
  ℕ, ◌+◌, ◌*◌, ◌/◌, ◌%◌, Option, none, some, ◌>>=◌, Bool, true, false, ◌&&◌, ◌||◌,
}
use edge_pdl.Prelude.{if◌then◌else◌, ◌==◌, List, [], ◌∷◌, drop}

-- `mesh_comms_payload_header_st`
pub record Header : Type 0 where
  pub msg_id : ℕ
  pub len : ℕ
  pub method : ℕ
  pub endpoint : ℕ
  pub idx : ℕ
  pub partial : ℕ

abbrev pub no_header : Header
no_header = record { msg_id = 0; len = 0; method = 0; endpoint = 0; idx = 0; partial = 0 }

-- `mesh_comms_payload_st` in a buffer: the header, and the buffer from the data on.
pub record Payload : Type 0 where
  pub hdr : Header
  pub content : List ℕ

-- The header is read by its bytes; the last one holds four fields.
pub read_payload : List ℕ → Option Payload
read_payload (id_low ∷ id_high ∷ len ∷ fields ∷ content) = some (record {
  hdr = record {
    msg_id = id_low + 256 * id_high;
    len = len;
    method = fields % 4;
    endpoint = fields / 4 % 8;
    idx = fields / 32 % 4;
    partial = fields / 128 % 2;
  };
  content = content;
})
read_payload _ = none

-- MESH_COMMS_REQUEST_GET, _PUT and MESH_COMMS_RESPONSE
abbrev pub request_get : ℕ
request_get = 1

abbrev pub request_put : ℕ
request_put = 2

abbrev pub response : ℕ
response = 3

-- The functions that are handed a payload.
pub data Handler : Type 0 where
  current_time : Handler
  handle_request : Handler
  cloud_server_response : Handler
  command_server_response : Handler
  update_server_response : Handler
  cloud_response_ack : Handler
  cloud_sync_response : Handler
  cloud_report_ack : Handler
  command_request_ack : Handler
  update_request_ack : Handler

-- processClientRequest, by the endpoint
pub process_client_request : ℕ → List Handler
process_client_request endpoint =
    if endpoint == 1
    then current_time ∷ []
    else if endpoint == 2 || (endpoint == 3 || (endpoint == 4 || endpoint == 6))
    then handle_request ∷ []
    else []

-- processServerResponse and processLocalMessage, in the order of their calls
pub process_server_response : List Handler
process_server_response =
    cloud_server_response ∷ command_server_response ∷ update_server_response ∷ []

pub process_local_message : List Handler
process_local_message =
    cloud_response_ack ∷ cloud_sync_response ∷ cloud_report_ack ∷ command_request_ack
    ∷ update_request_ack ∷ []

-- onLoraData
pub handlers_of : Header → List Handler
handlers_of h =
    if h.method == request_get || h.method == request_put
    then process_client_request h.endpoint
    else if h.method == response
    then process_server_response
    else process_local_message

pub on_lora_data : List ℕ → Option (List Handler × Payload)
on_lora_data rx_payload = read_payload rx_payload >>= λ p. some (handlers_of p.hdr, p)
