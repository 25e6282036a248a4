-- ===== src/EdgePayload/UpdateGet.antt =====
-- edge_payload.c: edgePayloadInitUpdateGet, edgePayloadSetUpdateGetContent and
-- edgePayloadUpdateGet2Buf.
use edge_pdl.Prelude.{ℕ, ◌+◌, ◌≤◌, Option, some, List, ◌++◌, length}
use edge_pdl.Prelude.{length-append, ◌≡◌, refl, arith}
use edge_pdl.Buffer.{put_all}
use edge_pdl.EdgePayload.Header.{ComHeader, Encoded, with_header, with_header_lem, header_len}
use edge_pdl.EdgePayload.Header.{header_bytes, length-header_bytes, encoded, le_bytes16, le_bytes32}

-- `ep_update_get_payload_st`
pub record UpdateGet : Type 0 where
  pub header : ComHeader
  pub chunk_offset : ℕ
  pub chunk_length : ℕ

-- edgePayloadInitUpdateGet copies as many bytes as the payload has, and so also what stands in
-- memory behind the header that it is given: the first two arguments.
pub init_update_get : ℕ → ℕ → ComHeader → UpdateGet
init_update_get offset_behind length_behind header = record {
  header = header;
  chunk_offset = offset_behind;
  chunk_length = length_behind;
}

-- edgePayloadSetUpdateGetContent
pub set_update_get_content : UpdateGet → ℕ → ℕ → UpdateGet
set_update_get_content p chunk_offset chunk_length = record p {
  chunk_offset = chunk_offset;
  chunk_length = chunk_length;
}

-- edgePayloadUpdateGet2Buf; `none` is an access out of range.
pub update_get_to_buf : List ℕ → ℕ → UpdateGet → Option Encoded
update_get_to_buf buf buf_len p =
    with_header buf buf_len (header_len p.header + (4 + 2)) p.header
      (put_all (le_bytes32 p.chunk_offset ++ le_bytes16 p.chunk_length))

abbrev pub update_get_bytes : UpdateGet → List ℕ
update_get_bytes p =
    header_bytes p.header ++ (le_bytes32 p.chunk_offset ++ le_bytes16 p.chunk_length)

pub update_get_to_buf_lem :
    (buf : List ℕ) (buf_len : ℕ) (p : UpdateGet)
    → buf_len ≤ length buf
    → p.header.dev_id.len ≤ length p.header.dev_id.id
    → update_get_to_buf buf buf_len p ≡ some (encoded buf buf_len (update_get_bytes p))
unfolding update_get_to_buf
update_get_to_buf_lem buf buf_len p room fits =
    with_header_lem buf buf_len p.header room fits body _ (put_all body) (λ w. refl)
      (omega (arith, length-header_bytes p.header fits, length-append (header_bytes p.header) body))
  where
    body : List ℕ
    body = le_bytes32 p.chunk_offset ++ le_bytes16 p.chunk_length
