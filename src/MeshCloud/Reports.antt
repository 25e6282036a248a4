-- ===== src/MeshCloud/Reports.antt =====
-- mesh_cloud.c: the machine that sends the reports (meshCloudCycle), what it takes from the messages of
-- its parent, and getQueuedData.
pub mod Inside
mod Tests
use edge_pdl.Prelude.{
  ℕ, zero, suc, ◌+◌, ◌-◌, ◌%◌, ◌^◌, Option, none, some, ◌>>=◌, Bool, true, false, ◌&&◌, ◌||◌, not,
}
use edge_pdl.Prelude.{if◌then◌else◌, ltb, leb, ◌==◌, List, [], ◌∷◌, ◌++◌, length}
use edge_pdl.Buffer.{put_all}
use edge_pdl.MeshComms.{elapsed}
use edge_pdl.MeshPayload.{Header, Payload, no_header}
use edge_pdl.MeshReceive.{load32}
use edge_pdl.MeshRoute.{Node, Routes, get_route}
use edge_pdl.MeshCloud.{
  ReportType, no_report, monitor, status, event, ReportState, at_idle, at_data, at_send_req,
  at_wait_ack, at_wait_resp, at_retry_delay, Report, Outgoing, nothing_out, Cloud, CloudCall,
  set_conn_status, mesh_send, report_ack_timeout, response_timeout, sync_retries, max_resp_errors,
  queue_next_parent, send_report_data, data_sent,
}

-- getQueuedData: the report that is pending, or the next one that the logging has; `queued` are the
-- bytes that getQueuedMonitorData and its kin give.
pub is_pending : ReportType → ℕ → Bool
is_pending no_report len = false
is_pending type len = not (len == 0)

pub following_type : ReportType → ReportType
following_type no_report = monitor
following_type monitor = status
following_type status = event
following_type event = monitor

pub load_report : ReportType → Option (List ℕ) → Cloud → Option (Bool × Cloud)
load_report type none s =
    some (false, record s { out = nothing_out; report = record s.report { type = no_report } })
load_report type (some bytes) s = put_all bytes (record { buf = nothing_out.buf; end = 0 }) >>= λ w.
    load32 w.buf 9 >>= λ epoch. some (
      true,
      record s {
        out = record { hdr = no_header; buf = w.buf; len = length bytes; epoch = epoch };
        report = record s.report { type = type };
      },
    )

pub queued_of : ReportType → (ReportType → Option (List ℕ)) → Option (List ℕ)
queued_of no_report queued = none
queued_of type queued = queued type

pub get_queued_data : (ReportType → Option (List ℕ)) → Cloud → Option (Bool × Cloud)
get_queued_data queued s =
    if is_pending s.report.type s.out.len
    then some (true, s)
    else load_report s.next_type (queued_of s.next_type queued)
        (record s { next_type = following_type s.next_type })

-- What a cycle of meshCloudCycle is answered: by the routes, millis(), the logging and meshCommsSend.
pub record CycleAnswers : Type 0 where
  pub routes : Routes
  pub now : ℕ
  pub queued : ReportType → Option (List ℕ)
  pub sent_id : ℕ

-- What it returns, the calls that it makes, and the state.
abbrev pub Cycled : Type 0
Cycled = Bool × List CloudCall × Cloud

abbrev pub to_state : ReportState → Cloud → Cloud
to_state state s = record s { report = record s.report { state = state } }

abbrev pub to_state_at : ReportState → ℕ → Cloud → Cloud
to_state_at state now s = record s { report = record s.report { state = state; timeout = now } }

abbrev pub count_ack_error : Cloud → Cloud
count_ack_error s = record s { ack_error = (s.ack_error + 1) % 2 ^ 32 }

abbrev pub count_rsp_error : Cloud → Cloud
count_rsp_error s = record s { rsp_error = (s.rsp_error + 1) % 2 ^ 32 }

pub check_route : Option Node → Cloud → Cycled
check_route none s = (
  false,
  [],
  record s { sync = queue_next_parent s.sync; sync_error = (s.sync_error + 1) % 2 ^ 32 },
)
check_route (some n) s = (true, [], to_state at_data s)

pub idle_cycle : CycleAnswers → Cloud → Cycled
idle_cycle a s =
    if s.sync.parent.id == 0
    then (false, [], s)
    else check_route (get_route s.sync.parent.id a.routes) s

pub data_cycle : CycleAnswers → Cloud → Option Cycled
data_cycle a s = get_queued_data a.queued s >>= λ got.
    let t = got.1 in
    some (
      true,
      [],
      if got.0
          then to_state at_send_req t
          else record t { report = record t.report { type = no_report; state = at_idle } },
    )

pub send_req_cycle : CycleAnswers → Cloud → Option Cycled
send_req_cycle a s =
    let reset : Cloud = record s {
      report = record s.report { ack_received = false; ack_status = false; resp_byte = 0 };
    } in
    send_report_data s.report.type s.sync.parent.id a.sent_id s.out >>= λ sent.
    let t : Cloud = record reset { out = sent.2 } in
    some (true, sent.1, to_state_at (if sent.0 then at_wait_ack else at_retry_delay) a.now t)

pub ack_cycle : Bool → CycleAnswers → Cloud → Option Cycled
ack_cycle true a s =
    if s.out.hdr.partial == 0
    then some (true, [], to_state_at at_wait_resp a.now s)
    else data_sent s >>= λ sent. some (true, sent.0, sent.1)
ack_cycle false a s =
    let t : Cloud = record (count_ack_error s) {
      out = nothing_out;
      report = record s.report { type = no_report };
    } in
    some (false, set_conn_status false ∷ [], to_state_at at_retry_delay a.now t)

pub late_ack : CycleAnswers → Cloud → Option Cycled
late_ack a s =
    if ltb report_ack_timeout (elapsed a.now s.report.timeout)
    then some
        (true, set_conn_status false ∷ [], to_state_at at_retry_delay a.now (count_ack_error s))
    else some (true, [], s)

pub wait_ack_cycle : CycleAnswers → Cloud → Option Cycled
wait_ack_cycle a s =
    if s.report.ack_received then ack_cycle s.report.ack_status a s else late_ack a s

-- The acknowledgement of a response, "ACK".
pub response_ack : Cloud → CloudCall
response_ack s =
    mesh_send s.sync.parent.id
      (record no_header { msg_id = s.out.hdr.msg_id; len = 3; endpoint = s.out.hdr.endpoint })
      (65 ∷ 67 ∷ 75 ∷ [])

pub respond : CycleAnswers → Cloud → Option (List CloudCall × Cloud)
respond a s =
    let failed : Cloud = record (count_rsp_error s) {
      report = record s.report { num_errors = (s.report.num_errors + 1) % 256 };
    } in
    if leb 0x50 s.report.resp_byte && leb s.report.resp_byte 0x54
    then data_sent s
    else if leb max_resp_errors failed.report.num_errors
    then data_sent failed
    else some ([], to_state_at at_retry_delay a.now failed)

pub wait_resp_cycle : CycleAnswers → Cloud → Option Cycled
wait_resp_cycle a s =
    let acked : Cloud = record s { report = record s.report { prev_msg_id = s.out.hdr.msg_id } } in
    if not (s.report.resp_byte == 0)
    then respond a acked
      >>= (λ done. some (true, set_conn_status true ∷ response_ack s ∷ done.0, done.1))
    else if ltb response_timeout (elapsed a.now s.report.timeout)
    then some
        (true, set_conn_status false ∷ [], to_state_at at_retry_delay a.now (count_rsp_error s))
    else some (true, [], s)

pub retry_cycle : CycleAnswers → Cloud → Cycled
retry_cycle a s =
    let num_retries = (s.report.num_retries + 1) % 2 ^ 16 in
    let retried : Cloud = record s {
      report = record s.report { state = at_idle; num_retries = num_retries };
    } in
    if ltb response_timeout (elapsed a.now s.report.timeout)
    then (if ltb sync_retries num_retries
        then (false, [], record retried { sync = queue_next_parent s.sync })
        else (true, [], retried))
    else (true, [], s)

-- meshCloudCycle
pub cycle_at : ReportState → CycleAnswers → Cloud → Option Cycled
cycle_at at_idle a s = some (idle_cycle a s)
cycle_at at_data a s = data_cycle a s
cycle_at at_send_req a s = send_req_cycle a s
cycle_at at_wait_ack a s = wait_ack_cycle a s
cycle_at at_wait_resp a s = wait_resp_cycle a s
cycle_at at_retry_delay a s = some (retry_cycle a s)

pub cycle : CycleAnswers → Cloud → Option Cycled
cycle a s = cycle_at s.report.state a s

-- meshCloudParseReportAck
pub is_ack : List ℕ → Bool
is_ack (a ∷ b ∷ c ∷ _) = a == 65 && (b == 67 && c == 75)
is_ack _ = false

pub parse_report_ack : Payload → Cloud → Bool × Cloud
parse_report_ack p s =
    let acked : Cloud = record s {
      report = record s.report { ack_received = true; ack_status = is_ack p.content };
    } in
    let t = if p.hdr.msg_id == s.out.hdr.msg_id then acked else s in (t.report.ack_status, t)

-- meshCloudParseServerResponse
pub take_response : ReportState → ℕ → Report → Report
take_response at_wait_ack byte r = record r {
  resp_byte = byte;
  state = at_wait_resp;
  ack_received = true;
  ack_status = true;
}
take_response at_retry_delay byte r = record r {
  resp_byte = byte;
  state = at_wait_resp;
  ack_received = true;
  ack_status = true;
}
take_response _ byte r = record r { resp_byte = byte }

pub response_byte : List ℕ → Report → Option Report
response_byte [] r = none
response_byte (byte ∷ _) r = some (take_response r.state byte r)

pub parse_server_response : Payload → Cloud → Option (List CloudCall × Cloud)
parse_server_response p s =
    let again =
      mesh_send s.sync.parent.id
        (record no_header { msg_id = s.report.prev_msg_id; len = 3; endpoint = p.hdr.endpoint })
        (65 ∷ 67 ∷ 75 ∷ []) in
    if p.hdr.msg_id == s.out.hdr.msg_id
    then (if p.hdr.len == 1
        then response_byte p.content s.report
          >>= (λ report. some ([], record s { report = report }))
        else some ([], s))
    else some (if p.hdr.msg_id == s.report.prev_msg_id then (again ∷ [], s) else ([], s))

-- meshCloudGetParentId, meshCloudGetLastSync and meshCloudGetInfo: the id, the first hop and the
-- signal strength of the parent
pub get_parent_id : Cloud → ℕ
get_parent_id s = s.sync.parent.id

pub get_last_sync : Cloud → ℕ
get_last_sync s = s.sync.start

pub get_info : Cloud → Option (ℕ × ℕ × ℕ) × Cloud
get_info s =
    if s.sync.info_ready && s.sync.status_ok
    then (
      some (s.sync.parent.id, s.sync.parent.first_hop, s.sync.parent.rssi),
      record s { sync = record s.sync { info_ready = false } },
    )
    else (none, s)
