-- ===== src/MeshUpdate.antt =====
-- mesh_update.c: the download of a file of the firmware over the mesh, in chunks (processDownload,
-- parseFileChunks, prepareGetUpdateFilePayload), and what the child takes from its parent. The file
-- system and SHA-256 are not modelled: the file is the list of the bytes written to it, and whether a
-- write, a rename and the test of the whole file succeed is an argument. `none` is an access out of
-- range.
pub mod Complete
pub mod Cycle
pub mod Download
pub mod Request
mod Tests
use edge_pdl.Prelude.{
  ℕ, zero, suc, ◌+◌, ◌-◌, ◌*◌, ◌/◌, ◌%◌, ◌^◌, Option, none, some, ◌>>=◌, Bool, true, false, ◌&&◌,
  not,
}
use edge_pdl.Prelude.{
  if◌then◌else◌, ltb, leb, ◌==◌, List, [], ◌∷◌, ◌++◌, length, take, drop, replicate,
}
use edge_pdl.Buffer.{put_all, read_bytes}
use edge_pdl.Crc16.{calc_block}
use edge_pdl.EdgePayload.Header.{ComHeader, Encoded}
use edge_pdl.EdgePayload.UpdateGet.{update_get_to_buf}
use edge_pdl.MeshComms.{elapsed, payload_max_size}
use edge_pdl.MeshPayload.{Payload}
use edge_pdl.MeshReceive.{load16, load32}

-- The states of `s_mesh_update`, its results, and the states of `s_download`
pub data UpdateState : Type 0 where
  update_idle : UpdateState
  get_info : UpdateState
  wait_info : UpdateState
  download_file : UpdateState
  send_result : UpdateState
  wait_response : UpdateState
  update_retry_delay : UpdateState

pub data UpdateResult : Type 0 where
  unknown : UpdateResult
  internal_error : UpdateResult
  update_info_error : UpdateResult
  download_error : UpdateResult
  hash_mismatch_error : UpdateResult
  update_started : UpdateResult

pub data DownloadState : Type 0 where
  download_idle : DownloadState
  get_chunk : DownloadState
  wait_chunk : DownloadState
  verify : DownloadState
  download_retry_delay : DownloadState

-- `s_mesh_update`, but for the details that are neither the hash nor the size, and `s_download`
pub record Update : Type 0 where
  pub state : UpdateState
  pub result : UpdateResult
  pub hash : List ℕ
  pub size : ℕ
  pub buf : List ℕ
  pub len : ℕ
  pub msg_id : ℕ
  pub timeout : ℕ
  pub num_retries : ℕ
  pub requested : Bool
  pub processed : Bool
  pub ack_received : Bool
  pub ack_status : Bool
  pub download : DownloadState
  pub file : List ℕ
  pub chunk_offset : ℕ
  pub chunk_len : ℕ
  pub chunk_err : ℕ

-- meshUpdateInit: all is zero.
abbrev pub init : Update
init = record {
  state = update_idle;
  result = unknown;
  hash = [];
  size = 0;
  buf = replicate payload_max_size 0;
  len = 0;
  msg_id = 0;
  timeout = 0;
  num_retries = 0;
  requested = false;
  processed = false;
  ack_received = false;
  ack_status = false;
  download = download_idle;
  file = [];
  chunk_offset = 0;
  chunk_len = 0;
  chunk_err = 0;
}

-- What processDownload is answered: K_CLOUD_UPDATE_CHUNK_SIZE, the header of a payload where the clock
-- and the device id give one, millis(), what meshCommsSend returns, whether f_write succeeds and how
-- many bytes it writes, whether the file has its hash, what the test of that leaves in the buffer, and
-- whether f_rename succeeds.
pub record DownloadAnswers : Type 0 where
  pub chunk_size : ℕ
  pub header : Option ComHeader
  pub now : ℕ
  pub sent_id : ℕ
  pub write_ok : Bool
  pub bytes_written : ℕ
  pub verified : Bool
  pub scratch : List ℕ
  pub renamed : Bool

-- prepareGetUpdateFilePayload: the length of the next chunk, and the payload that asks for it.
pub next_chunk_len : ℕ → Update → ℕ
next_chunk_len chunk_size s =
    let remaining = (s.size + 2 ^ 32 - s.chunk_offset) % 2 ^ 32 in
    if leb chunk_size remaining then chunk_size else remaining % 2 ^ 16

pub take_encoded : Option ℕ → List ℕ → Update → Bool × Update
take_encoded none buf s = (false, record s { buf = buf })
take_encoded (some len) buf s = (true, record s { buf = buf; len = len })

pub encode_request : Option ComHeader → Update → Option (Bool × Update)
encode_request none s = some (false, s)
encode_request (some h) s =
    update_get_to_buf s.buf payload_max_size
      (record { header = h; chunk_offset = s.chunk_offset; chunk_length = s.chunk_len })
    >>= λ encoded. some (take_encoded encoded.res_len encoded.buf s)

pub prepare_file_payload : DownloadAnswers → Update → Option (Bool × Update)
prepare_file_payload a s =
    encode_request a.header (record s { chunk_len = next_chunk_len a.chunk_size s })

-- parseFileChunks: the three words of a chunk's header, and the chunk.
pub record Chunk : Type 0 where
  pub offset : ℕ
  pub len : ℕ
  pub crc : ℕ

pub read_chunk : List ℕ → Option Chunk
read_chunk buf = load32 buf 0 >>= λ offset. load16 buf 4 >>= λ len.
    load16 buf 6 >>= λ crc. some (record { offset = offset; len = len; crc = crc })

-- The chunk goes to the end of the file; `none` of the write is a failure.
pub write_chunk : DownloadAnswers → Chunk → List ℕ → Update → Option (Bool × Update)
write_chunk a c bytes s = read_bytes c.len bytes >>= λ content.
    if a.write_ok && c.len == a.bytes_written
    then some (
      true,
      record s {
        file = s.file ++ content;
        chunk_offset = (s.chunk_offset + c.len) % 2 ^ 32;
        chunk_err = 0;
      },
    )
    else some
        (false, record s { file = s.file ++ take a.bytes_written content; result = internal_error })

pub accept_chunk : DownloadAnswers → Chunk → Update → Option (Bool × Update)
accept_chunk a c s =
    if not (s.len == 8 + c.len)
    then some (false, s)
    else if not (s.chunk_offset == c.offset)
    then some (false, s)
    else if not (s.chunk_len == c.len)
    then some (false, s)
    else calc_block (drop 8 s.buf) c.len >>= λ calc_crc.
        if c.crc == calc_crc then write_chunk a c (drop 8 s.buf) s else some (false, s)

pub parse_file_chunks : DownloadAnswers → Update → Option (Bool × Update)
parse_file_chunks a s = read_chunk s.buf >>= λ c. accept_chunk a c s

-- processDownload: what it returns, the payload that it sends, and the state.
abbrev pub Downloaded : Type 0
Downloaded = Bool × List (List ℕ) × Update

abbrev pub moved_to : DownloadState → Update → Downloaded
moved_to state s = (true, [], record s { download = state })

abbrev pub delayed : ℕ → Update → Downloaded
delayed now s = (true, [], record s { download = download_retry_delay; timeout = now })

pub download_idle_step : DownloadAnswers → Update → Option Downloaded
download_idle_step a s =
    if leb s.size s.chunk_offset
    then some (true, [], s)
    else prepare_file_payload a s >>= λ prepared.
        some (if prepared.0 then moved_to get_chunk prepared.1 else (false, [], prepared.1))

pub get_chunk_step : DownloadAnswers → Update → Option Downloaded
get_chunk_step a s = read_bytes s.len s.buf >>= λ payload.
    let sent : Update = record s { timeout = a.now; msg_id = a.sent_id } in
    some (
      true,
      payload ∷ [],
      if ltb 0 a.sent_id
          then record sent { buf = replicate payload_max_size 0; len = 0; download = wait_chunk }
          else record sent { download = download_retry_delay },
    )

pub wait_chunk_step : DownloadAnswers → Update → Option Downloaded
wait_chunk_step a s =
    if ltb 0 s.len
    then parse_file_chunks a s >>= (λ parsed.
      let t = parsed.1 in
      some (
        if parsed.0
        then moved_to (if leb t.size t.chunk_offset then verify else download_idle) t
        else delayed a.now t))
    else if ltb 10000 (elapsed a.now s.timeout)
    then some (delayed a.now s)
    else some (true, [], s)

pub verify_step : DownloadAnswers → Update → Downloaded
verify_step a s =
    let read : Update = record s { chunk_offset = s.size; buf = a.scratch } in
    if a.verified
    then moved_to download_idle
        (record read { result = if a.renamed then update_started else internal_error })
    else moved_to download_idle (record read { result = hash_mismatch_error })

pub is_unknown : UpdateResult → Bool
is_unknown unknown = true
is_unknown result = false

pub download_retry_step : DownloadAnswers → Update → Downloaded
download_retry_step a s =
    let errors = (s.chunk_err + 1) % 2 ^ 16 in
    let counted : Update = record s { chunk_err = errors } in
    if ltb 5000 (elapsed a.now s.timeout)
    then if not (is_unknown s.result)
      then (false, [], record s { download = download_idle })
      else if leb 20 errors
      then (false, [], record counted { result = download_error; download = download_idle })
      else moved_to download_idle counted
    else (true, [], s)

pub process_at : DownloadState → DownloadAnswers → Update → Option Downloaded
process_at download_idle a s = download_idle_step a s
process_at get_chunk a s = get_chunk_step a s
process_at wait_chunk a s = wait_chunk_step a s
process_at verify a s = some (verify_step a s)
process_at download_retry_delay a s = some (download_retry_step a s)

pub process_download : DownloadAnswers → Update → Option Downloaded
process_download a s = process_at s.download a s

-- meshUpdateParseRequestAck
pub is_ack : List ℕ → Bool
is_ack (a ∷ b ∷ c ∷ _) = a == 65 && (b == 67 && c == 75)
is_ack _ = false

pub parse_request_ack : Payload → Update → Bool × Update
parse_request_ack p s =
    let acked : Update = record s { ack_received = true; ack_status = is_ack p.content } in
    let t = if p.hdr.msg_id == s.msg_id then acked else s in (t.ack_status, t)

-- meshUpdateParseServerResponse: a request for an update, by EP_SERVER_RESP_UPDATE_REQ; or the details
-- or a chunk.
pub is_update_idle : UpdateState → Bool
is_update_idle update_idle = true
is_update_idle state = false

pub take_request_byte : List ℕ → Update → Option Update
take_request_byte [] s = none
take_request_byte (byte ∷ _) s =
    if byte == 0x51 && is_update_idle s.state
    then some (record s { requested = true; num_retries = 0 })
    else some s

pub take_content : Payload → Update → Option Update
take_content p s =
    let len = if ltb payload_max_size p.hdr.len then payload_max_size else p.hdr.len in
    read_bytes len p.content >>= λ content.
    put_all content (record { buf = s.buf; end = 0 }) >>= λ w.
    some (record s { msg_id = 0; len = len; buf = w.buf })

pub parse_server_response : Payload → Update → Option Update
parse_server_response p s =
    if p.hdr.len == 1
    then take_request_byte p.content s
    else if p.hdr.msg_id == s.msg_id
    then take_content p s
    else some s
