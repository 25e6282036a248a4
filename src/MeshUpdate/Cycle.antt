-- ===== src/MeshUpdate/Cycle.antt =====
-- The machine around the download (meshUpdateCycle of mesh_update.c): the details of the file before
-- it, and the result that is sent after it. What sscanf reads of the details, whether f_open succeeds,
-- the parent and the answers to processDownload are arguments. `none` is an access out of range.
pub mod Restart
mod Tests
use edge_pdl.Prelude.{
  ℕ, ◌+◌, ◌*◌, ◌%◌, ◌^◌, Option, none, some, ◌>>=◌, Bool, true, false, ◌&&◌, ◌||◌, not,
}
use edge_pdl.Prelude.{if◌then◌else◌, ltb, leb, ◌==◌, List, [], ◌∷◌, ◌++◌, length, take, replicate}
use edge_pdl.Buffer.{put_all, read_bytes}
use edge_pdl.EdgePayload.Header.{ComHeader, com_header_to_buf}
use edge_pdl.EdgePayload.Status.{StatusPayload, init_status, add_status_tag, status_to_buf}
use edge_pdl.MeshComms.{elapsed, payload_max_size}
use edge_pdl.CloudCycle.{request_response_timeout}
use edge_pdl.MeshCloud.{report_ack_timeout}
use edge_pdl.MeshUpdate.{
  Update, UpdateState, UpdateResult, DownloadAnswers, update_idle, get_info, wait_info,
  download_file, send_result, wait_response, update_retry_delay, unknown, internal_error,
  update_info_error, download_error, hash_mismatch_error, update_started, download_idle,
  take_encoded, is_unknown, process_download,
}

-- What the two calls of sscanf make of the buffer: whether one of them reads all its items, and the
-- name, the hash and the size that they leave.
pub record Scan : Type 0 where
  pub matched : Bool
  pub name : List ℕ
  pub hash : List ℕ
  pub size : ℕ

pub record CycleAnswers : Type 0 where
  pub parent : ℕ
  pub scan : Scan
  pub opened : Bool
  pub download : DownloadAnswers

-- What meshUpdateCycle returns, the payload that it sends, whether it asks for the restart of the
-- device into the update, and the state.
pub record Cycled : Type 0 where
  pub ok : Bool
  pub sent : List (List ℕ)
  pub restart : Bool
  pub update : Update

abbrev pub quiet : Bool → Update → Cycled
quiet ok s = record { ok = ok; sent = []; restart = false; update = s }

-- prepareGetUpdateInfoPayload: a common header and EP_SERVER_RESP_UPDATE_REQ.
pub add_request_byte : Option ℕ → List ℕ → Update → Option (Bool × Update)
add_request_byte none buf s = some (false, record s { buf = buf })
add_request_byte (some len) buf s = put_all (0x51 ∷ []) (record { buf = buf; end = len }) >>= λ w.
    some (true, record s { buf = w.buf; len = w.end })

pub prepare_info_payload : Option ComHeader → Update → Option (Bool × Update)
prepare_info_payload none s = some (false, s)
prepare_info_payload (some h) s = com_header_to_buf s.buf payload_max_size h >>= λ encoded.
    add_request_byte encoded.res_len encoded.buf s

-- preparePutUpdateInfoPayload: the text `{"done":"update started","hash":"..."}`, or of an error.
pub result_text : UpdateResult → List ℕ
result_text update_info_error = 105 ∷ 110 ∷ 102 ∷ 111 ∷ 32 ∷ 101 ∷ 114 ∷ 114 ∷ 111 ∷ 114 ∷ []
result_text download_error =
    100 ∷ 111 ∷ 119 ∷ 110 ∷ 108 ∷ 111 ∷ 97 ∷ 100 ∷ 32 ∷ 101 ∷ 114 ∷ 114 ∷ 111 ∷ 114 ∷ []
result_text hash_mismatch_error = 104 ∷ 97 ∷ 115 ∷ 104 ∷ 32 ∷ 101 ∷ 114 ∷ 114 ∷ 111 ∷ 114 ∷ []
result_text update_started =
    117 ∷ 112 ∷ 100 ∷ 97 ∷ 116 ∷ 101 ∷ 32 ∷ 115 ∷ 116 ∷ 97 ∷ 114 ∷ 116 ∷ 101 ∷ 100 ∷ []
result_text result =
    105 ∷ 110 ∷ 116 ∷ 101 ∷ 114 ∷ 110 ∷ 97 ∷ 108 ∷ 32 ∷ 101 ∷ 114 ∷ 114 ∷ 111 ∷ 114 ∷ []

pub is_started : UpdateResult → Bool
is_started update_started = true
is_started result = false

pub result_json : UpdateResult → List ℕ → List ℕ
result_json result hash =
    (123 ∷ 34 ∷ [])
    ++ (if is_started result then 100 ∷ 111 ∷ 110 ∷ 101 ∷ [] else 101 ∷ 114 ∷ 114 ∷ 111 ∷ 114 ∷ [])
    ++ (34 ∷ 58 ∷ 34 ∷ [])
    ++ result_text result
    ++ (34 ∷ 44 ∷ 34 ∷ 104 ∷ 97 ∷ 115 ∷ 104 ∷ 34 ∷ 58 ∷ 34 ∷ [])
    ++ take 64 hash
    ++ (34 ∷ 125 ∷ [])

pub prepare_result_payload : Option ComHeader → Update → Option (Bool × Update)
prepare_result_payload none s = some (false, s)
prepare_result_payload (some h) s =
    let text = result_json s.result s.hash ++ 0 ∷ [] in
    let tagged = add_status_tag (init_status h) 0x7b text (length text % 256) in
    if tagged.1
    then status_to_buf s.buf payload_max_size tagged.0
      >>= (λ encoded. some (take_encoded encoded.res_len encoded.buf s))
    else some (false, s)

-- parseFileInfo: strrchr, as the string from the last place of the character on.
pub last_from : ℕ → List ℕ → Option (List ℕ)
last_from ch [] = none
last_from ch (x ∷ xs) = elim (last_from ch xs) [
  | none ↦ if x == ch then some (x ∷ xs) else none
  | some found ↦ some found
]

pub base_name : Option (List ℕ) → List ℕ → List ℕ
base_name (some (_ ∷ rest)) name = rest
base_name _ name = name

pub is_bin : Option (List ℕ) → Bool
is_bin (some (a ∷ b ∷ c ∷ d ∷ [])) = a == 46 && (b == 98 && (c == 105 && d == 110))
is_bin _ = false

pub parse_file_info : CycleAnswers → Update → Bool × Update
parse_file_info a s =
    let file_name = base_name (last_from 47 a.scan.name) a.scan.name in
    let cleared : Update = record s { hash = []; size = 0; result = update_info_error } in
    let scanned : Update = record cleared { hash = a.scan.hash; size = a.scan.size } in
    if a.scan.matched
    then if not (is_bin (last_from 46 file_name))
      then (false, scanned)
      else if not (length a.scan.hash == 64)
      then (false, scanned)
      else if ltb a.scan.size (32 * 1024) || ltb (512 * 1024) a.scan.size
      then (false, scanned)
      else if not a.opened
      then (false, record scanned { result = internal_error })
      else (
        true,
        record scanned {
          result = unknown;
          download = download_idle;
          file = [];
          chunk_offset = 0;
          chunk_len = 0;
          chunk_err = 0;
        },
      )
    else (false, scanned)

-- meshUpdateCycle, by its states.
pub idle_cycle : CycleAnswers → Update → Option Cycled
idle_cycle a s =
    if not s.requested
    then some (quiet true s)
    else if a.parent == 0
    then some (quiet false s)
    else prepare_info_payload a.download.header s >>= λ prepared. some (
        if prepared.0
        then quiet true (record prepared.1 { hash = []; size = 0; state = get_info })
        else quiet false prepared.1)

pub get_info_cycle : CycleAnswers → Update → Option Cycled
get_info_cycle a s = read_bytes s.len s.buf >>= λ payload.
    let id = a.download.sent_id in
    let called : Update = record s { timeout = a.download.now; msg_id = id } in
    some (record {
      ok = true;
      sent = payload ∷ [];
      restart = false;
      update =
          if ltb 0 id
          then record called { buf = replicate payload_max_size 0; len = 0; state = wait_info }
          else record called { state = update_retry_delay };
    })

pub wait_info_cycle : CycleAnswers → Update → Cycled
wait_info_cycle a s =
    let parsed = parse_file_info a (record s { requested = false }) in
    if ltb 0 s.len
    then quiet true (record parsed.1 { state = if parsed.0 then download_file else send_result })
    else if ltb request_response_timeout (elapsed a.download.now s.timeout)
    then quiet true (record s { timeout = a.download.now; state = update_retry_delay })
    else quiet true s

pub end_download : CycleAnswers → Bool → Update → Option (Bool × Update)
end_download a false s = some (true, record s { state = update_retry_delay })
end_download a true s =
    if is_unknown s.result
    then some (true, s)
    else prepare_result_payload a.download.header s >>= λ prepared.
        let t : Update = record prepared.1 { processed = prepared.0 } in
        some
          (if prepared.0 then (true, record t { msg_id = 0; state = send_result }) else (false, t))

pub download_cycle : CycleAnswers → Update → Option Cycled
download_cycle a s = process_download a.download s >>= λ processed.
    end_download a processed.0 processed.2 >>= λ ended.
    some (record { ok = ended.0; sent = processed.1; restart = false; update = ended.1 })

pub send_result_cycle : CycleAnswers → Update → Option Cycled
send_result_cycle a s = read_bytes s.len s.buf >>= λ payload.
    let id = a.download.sent_id in
    some (record {
      ok = true;
      sent = payload ∷ [];
      restart = false;
      update = record s {
        ack_received = false;
        ack_status = false;
        timeout = a.download.now;
        msg_id = id;
        state = if ltb 0 id then wait_response else update_retry_delay;
      };
    })

pub wait_response_cycle : CycleAnswers → Update → Cycled
wait_response_cycle a s =
    if s.ack_received
    then if s.ack_status
      then record (quiet true (record s { state = update_idle })) { restart = is_started s.result }
      else quiet true (record s { state = update_retry_delay })
    else if ltb report_ack_timeout (elapsed a.download.now s.timeout)
    then quiet true (record s { state = update_retry_delay })
    else quiet true s

pub retry_cycle : Update → Cycled
retry_cycle s =
    let retries = (s.num_retries + 1) % 2 ^ 16 in
    let counted : Update = record s { num_retries = retries } in
    if s.processed
    then if ltb retries 120
      then quiet true (record counted { state = send_result })
      else quiet false counted
    else quiet true (record s { state = update_idle })

pub cycle_at : UpdateState → CycleAnswers → Update → Option Cycled
cycle_at update_idle a s = idle_cycle a s
cycle_at get_info a s = get_info_cycle a s
cycle_at wait_info a s = some (wait_info_cycle a s)
cycle_at download_file a s = download_cycle a s
cycle_at send_result a s = send_result_cycle a s
cycle_at wait_response a s = some (wait_response_cycle a s)
cycle_at update_retry_delay a s = some (retry_cycle s)

pub cycle : CycleAnswers → Update → Option Cycled
cycle a s = cycle_at s.state a s
