-- ===== src/Coap.antt =====
-- coap_client.c and coap_client.h: the packets, the request that the client sends and the message
-- that it handles. The children of Send and Receive have what the code does.
pub mod Send
pub mod Receive
mod Tests
use edge_pdl.Prelude.{ℕ, ◌+◌, ◌*◌, List}

-- COAP_VERSION, COAP_TYPE_CONFIRMABLE, COAP_OPT_URI_PATH, COAP_PAYLOAD_MARKER,
-- COAP_BUF_MAX_SIZE, COAP_MAX_OPTION_NUM and COAP_HEADER_SIZE
abbrev pub version : ℕ
version = 1

abbrev pub type_confirmable : ℕ
type_confirmable = 0

abbrev pub opt_uri_path : ℕ
opt_uri_path = 11

abbrev pub payload_marker : ℕ
payload_marker = 0xff

abbrev pub buf_max_size : ℕ
buf_max_size = 512

abbrev pub max_option_num : ℕ
max_option_num = 4

abbrev pub header_size : ℕ
header_size = 4

-- `coap_header_st`; the first three fields have 4, 2 and 2 bits.
pub record CoapHeader : Type 0 where
  pub token_len : ℕ
  pub type : ℕ
  pub version : ℕ
  pub code : ℕ
  pub msg_id_h : ℕ
  pub msg_id_l : ℕ
