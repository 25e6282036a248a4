-- ===== src/CloudCycle.antt =====
-- cloud_mesh.c, a node that is connected to the cloud: the machine that sends the requests of its children
-- to the cloud (cloudMeshCycle), one at a time, and what it takes from the cloud and the child. The
-- entries are those of CloudMesh. What the queue of FreeRTOS and other modules answer is an argument,
-- and a pointer in the queue is the number of an entry. `none` is an access out of range or through
-- a null pointer.
pub mod Liveness
pub mod Response
mod Tests
use edge_pdl.Prelude.{
  ℕ, zero, suc, ◌+◌, ◌-◌, ◌%◌, ◌^◌, Option, none, some, ◌>>=◌, Bool, true, false, ◌&&◌, ◌||◌, not,
  min,
}
use edge_pdl.Prelude.{if◌then◌else◌, ltb, leb, ◌==◌, List, [], ◌∷◌, get_elem?, set, replicate}
use edge_pdl.Buffer.{read_bytes}
use edge_pdl.CloudMesh.{
  Entry, no_entry, Children, ChildTimes, Layout, Reply, update_child, request_queue_size, no_child,
  max_num_child_nodes,
}
use edge_pdl.MeshComms.{elapsed, payload_max_size}
use edge_pdl.MeshPayload.{Header, Payload}
use edge_pdl.MeshRoute.{Routes, Node, get_route}

-- K_MESH_CLOUD_REQUEST_INCOMPLETE_TIMEOUT, _RESPONSE_TIMEOUT, _RETRY_DELAY and _MAX_RETRIES,
-- K_MESH_CLOUD_RESPONSE_ACK_TIMEOUT and _FWD_MAX_RETRIES
abbrev pub incomplete_timeout : ℕ
incomplete_timeout = 60000

abbrev pub request_response_timeout : ℕ
request_response_timeout = 10000

abbrev pub retry_delay : ℕ
retry_delay = 5000

abbrev pub max_retries : ℕ
max_retries = 720

abbrev pub response_ack_timeout : ℕ
response_ack_timeout = 3000

abbrev pub fwd_max_retries : ℕ
fwd_max_retries = 5

-- `request_state`
pub data RequestState : Type 0 where
  at_idle : RequestState
  at_send_req : RequestState
  at_wait_resp : RequestState
  at_wait_ack : RequestState
  at_retry_delay : RequestState

-- `s_cloud_request` without its queue; a null `ps_req` is `none`.
pub record CloudRequest : Type 0 where
  pub state : RequestState
  pub msg_id : ℕ
  pub req : Option ℕ
  pub timeout : ℕ
  pub num_retries : ℕ
  pub resp_len : ℕ
  pub resp_byte : ℕ
  pub num_fwd_resp : ℕ
  pub ack_received : Bool

-- With `as_cloud_payload`.
pub record Gateway : Type 0 where
  pub request : CloudRequest
  pub entries : List Entry

-- cloudMeshInit
pub init : Gateway × Children
init = (
  record {
    request = record {
      state = at_idle;
      msg_id = 0;
      req = none;
      timeout = 0;
      num_retries = 0;
      resp_len = 0;
      resp_byte = 0;
      num_fwd_resp = 0;
      ack_received = false;
    };
    entries = replicate request_queue_size no_entry;
  },
  record { nodes = replicate max_num_child_nodes no_child; count = 0 },
)

-- The paths of the cloud, and the calls that the functions make.
pub data CloudPath : Type 0 where
  monitor_path : CloudPath
  status_path : CloudPath
  event_path : CloudPath
  update_path : CloudPath

pub data GatewayCall : Type 0 where
  cloud_get : CloudPath → ℕ → List ℕ → GatewayCall
  cloud_put : CloudPath → ℕ → List ℕ → GatewayCall
  child_send : Reply → GatewayCall

-- What a cycle is answered: by cloudNetInterfaceAvailable(), xQueuePeek and xQueueReceive (`none` where
-- they fail, and `some none` a null pointer), cloudNetNewMessageId(), the sending of the request, and
-- millis().
pub record GatewayAnswers : Type 0 where
  pub available : Bool
  pub peeked : Option (Option ℕ)
  pub received : Option (Option ℕ)
  pub new_id : ℕ
  pub sent : Bool
  pub now : ℕ

-- The memset of an entry.
pub clear_entry : ℕ → List Entry → Option (List Entry)
clear_entry idx entries = get_elem? entries idx >>= λ e. some (set entries idx no_entry)

-- cbRequestSent
pub clear_received : Option (Option ℕ) → List Entry → Option (List Entry)
clear_received none entries = some entries
clear_received (some none) entries = some entries
clear_received (some (some idx)) entries = clear_entry idx entries

pub request_sent : Option (Option ℕ) → Gateway → Option Gateway
request_sent received s = clear_received received s.entries >>= λ entries. some (record s {
  entries = entries;
  request = record s.request { state = at_idle; num_retries = 0; num_fwd_resp = 0 };
})

-- getQueuedRequest: an incomplete request is discarded where it is old, and moved to the back of the
-- queue or left where it is not.
pub discard : ℕ → Option (Option ℕ) → List Entry → Option (List Entry)
discard peeked none entries = clear_entry peeked entries
discard peeked (some none) entries = none
discard peeked (some (some idx)) entries = clear_entry idx entries

pub check_queued : ℕ → GatewayAnswers → Entry → Gateway → Option (Bool × Gateway)
check_queued idx a e s =
    if e.hdr.partial == 1
    then if ltb incomplete_timeout (elapsed a.now e.updated)
      then discard idx a.received s.entries
        >>= (λ entries. some (false, record s { entries = entries }))
      else some (false, s)
    else some (true, record s { request = record s.request { req = some idx } })

pub queued_request : Option (Option ℕ) → GatewayAnswers → Gateway → Option (Bool × Gateway)
queued_request none a s = some (false, s)
queued_request (some none) a s = some (false, s)
queued_request (some (some idx)) a s = get_elem? s.entries idx >>= λ e. check_queued idx a e s

pub get_queued_request : GatewayAnswers → Gateway → Option (Bool × Gateway)
get_queued_request a s = queued_request a.peeked a s

-- The entry that `ps_req` points to.
pub pointed : Option ℕ → List Entry → Option Entry
pointed none entries = none
pointed (some idx) entries = get_elem? entries idx

abbrev pub current : Gateway → Option Entry
current s = pointed s.request.req s.entries

-- cloudMeshCycle, by the state.
abbrev pub Stepped : Type 0
Stepped = List GatewayCall × Gateway

abbrev pub quiet : Gateway → Option Stepped
quiet s = some ([], s)

abbrev pub done : Option (Option ℕ) → Gateway → Option Stepped
done received s = request_sent received s >>= λ t. some ([], t)

abbrev pub with_request : CloudRequest → Gateway → Gateway
with_request r s = record s { request = r }

pub idle_step : GatewayAnswers → Gateway → Option Stepped
idle_step a s =
    if a.available
    then get_queued_request a s >>= (λ got.
      quiet (
        if got.0 then with_request (record got.1.request { state = at_send_req }) got.1 else got.1))
    else quiet s

-- The request by its endpoint and method.
pub request_call : ℕ → Entry → List ℕ → List GatewayCall
request_call id e content =
    let endpoint = e.hdr.endpoint in
    if endpoint == 2
    then cloud_put monitor_path id content ∷ []
    else if endpoint == 3
    then if e.hdr.method == 1
      then cloud_get status_path id content ∷ []
      else if e.hdr.method == 2
      then cloud_put status_path id content ∷ []
      else []
    else if endpoint == 4
    then cloud_put event_path id content ∷ []
    else if endpoint == 6
    then cloud_get update_path id content ∷ []
    else []

pub is_sent : List GatewayCall → Bool → Bool
is_sent [] sent = false
is_sent (call ∷ calls) sent = sent

pub send_step : GatewayAnswers → Gateway → Option Stepped
send_step a s = current s >>= λ e. read_bytes e.len e.buf >>= λ content.
    let calls = request_call a.new_id e content in
    some (
      calls,
      with_request
          (record s.request {
            msg_id = a.new_id;
            state = if is_sent calls a.sent then at_wait_resp else at_retry_delay;
            resp_len = 0;
            resp_byte = 0;
            ack_received = false;
            timeout = a.now;
          })
          s,
    )

-- The response byte for the child.
pub forward_response : GatewayAnswers → Entry → Gateway → Option Stepped
forward_response a e s =
    let call = child_send (record {
      dest = e.child_id;
      msg_id = e.hdr.msg_id;
      content = s.request.resp_byte ∷ [];
      method = 3;
      endpoint = e.hdr.endpoint;
    }) in
    if e.hdr.msg_id == 0
    then request_sent a.received s >>= (λ t. some (call ∷ [], t))
    else some (
      call ∷ [],
      with_request
          (record s.request {
            num_fwd_resp = (s.request.num_fwd_resp + 1) % 2 ^ 16;
            timeout = a.now;
            state = at_wait_ack;
          })
          s,
    )

pub wait_resp_step : GatewayAnswers → Gateway → Option Stepped
wait_resp_step a s =
    if ltb 1 s.request.resp_len
    then done a.received s
    else if not (s.request.resp_byte == 0)
    then current s >>= (λ e. forward_response a e s)
    else if leb request_response_timeout (elapsed a.now s.request.timeout)
    then quiet (with_request (record s.request { timeout = a.now; state = at_retry_delay }) s)
    else quiet s

pub wait_ack_step : GatewayAnswers → Gateway → Option Stepped
wait_ack_step a s =
    if s.request.ack_received
    then done a.received s
    else if ltb response_ack_timeout (elapsed a.now s.request.timeout)
    then if ltb fwd_max_retries s.request.num_fwd_resp
      then done a.received s
      else quiet (with_request (record s.request { state = at_wait_resp }) s)
    else quiet s

pub retry_step : GatewayAnswers → Gateway → Option Stepped
retry_step a s =
    let retried : Gateway =
      with_request
        (record s.request { state = at_idle; num_retries = (s.request.num_retries + 1) % 2 ^ 16 })
        s in
    if ltb retry_delay (elapsed a.now s.request.timeout)
    then if leb max_retries retried.request.num_retries
      then done a.received retried
      else quiet retried
    else quiet s

-- cloudMeshCycle
pub cycle_at : RequestState → GatewayAnswers → Gateway → Option Stepped
cycle_at at_idle a s = idle_step a s
cycle_at at_send_req a s = send_step a s
cycle_at at_wait_resp a s = wait_resp_step a s
cycle_at at_wait_ack a s = wait_ack_step a s
cycle_at at_retry_delay a s = retry_step a s

pub cycle : GatewayAnswers → Gateway → Option Stepped
cycle a s = cycle_at s.request.state a s

-- cloudMeshParseResponse
pub response_details : ℕ → List ℕ → Option Entry → Gateway → Option Stepped
response_details len buf none s = quiet s
response_details len buf (some e) s =
    let size = if ltb payload_max_size len then payload_max_size else len in
    if len == 0
    then quiet s
    else if len == 1
    then read_bytes 1 buf >>= (λ bytes. elim bytes [
      | [] ↦ none
      | byte ∷ _ ↦ quiet (with_request (record s.request { resp_byte = byte; resp_len = 1 }) s)
    ])
    else read_bytes size buf >>= (λ content. some (
      child_send (record {
        dest = e.child_id;
        msg_id = e.hdr.msg_id;
        content = content;
        method = 3;
        endpoint = e.hdr.endpoint;
      })
          ∷ [],
      with_request (record s.request { resp_len = size }) s,
    ))

pub parse_response : ℕ → List ℕ → ℕ → Gateway → Option Stepped
parse_response msg_id buf len s =
    if msg_id == s.request.msg_id then response_details len buf (current s) s else quiet s

-- meshCloudParseResponseAck
pub is_ack : List ℕ → Bool
is_ack (a ∷ b ∷ c ∷ _) = a == 65 && (b == 67 && c == 75)
is_ack _ = false

pub take_ack : ℕ → Payload → Option Entry → CloudRequest → CloudRequest
take_ack id_from p none r = r
take_ack id_from p (some e) r =
    if id_from == e.child_id && (p.hdr.msg_id == e.hdr.msg_id && p.hdr.endpoint == e.hdr.endpoint)
    then record r { ack_received = is_ack p.content }
    else r

pub parse_response_ack : ℕ → Payload → Gateway → Bool × Gateway
parse_response_ack id_from p s =
    let r = take_ack id_from p (current s) s.request in (r.ack_received, with_request r s)

-- meshCloudCurrentTime: `synced` is what getTimeSyncStatus says, `time` the text of the time, where the
-- clock and its print give one, and `accepted` whether meshCommsSend takes the message.
pub send_time : ℕ → Payload → Option (List ℕ) → Bool → Bool × List Reply
send_time dst p none accepted = (false, [])
send_time dst p (some text) accepted = (
  accepted,
  record { dest = dst; msg_id = p.hdr.msg_id; content = text; method = 0; endpoint = 1 } ∷ [],
)

pub serve_time :
    Layout
    → ℕ
    → Payload
    → ChildTimes
    → Option (List ℕ)
    → Bool
    → Option Node
    → Children
    → Option (Bool × List Reply × Children)
serve_time layout dst p t time accepted none s = some (false, [], s)
serve_time layout dst p t time accepted (some n) s =
    update_child layout dst (some p) t s >>= λ served.
    let answer = send_time dst p time accepted in
    some (if served.0 then (answer.0, answer.1, served.1) else (false, [], served.1))

pub current_time :
    Layout
    → Bool
    → ℕ
    → Payload
    → ChildTimes
    → Option (List ℕ)
    → Bool
    → Routes
    → Children
    → Option (Bool × List Reply × Children)
current_time layout synced dst p t time accepted routes s =
    if synced
    then serve_time layout dst p t time accepted (get_route dst routes) s
    else some (false, [], s)
