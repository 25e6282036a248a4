-- ===== src/MeshCloud.antt =====
-- mesh_cloud.c, a node that is not connected to the cloud: how it sends its reports over a parent node.
-- Reports is the machine of meshCloudCycle, ParentSync that of meshCloudSync. What other modules answer is
-- an argument, but for getRoute and getCloudNode, which are those of MeshRoute. `none` is an access
-- out of range.
pub mod Segments
pub mod Buffers
pub mod Reports
pub mod ParentSync
use edge_pdl.Prelude.{
  ℕ, zero, suc, ◌+◌, ◌-◌, ◌%◌, ◌^◌, Option, none, some, ◌>>=◌, Bool, true, false, ◌&&◌, ◌||◌, not,
}
use edge_pdl.Prelude.{
  if◌then◌else◌, ltb, leb, ◌==◌, List, [], ◌∷◌, ◌++◌, length, take, drop, replicate,
}
use edge_pdl.Buffer.{put_all, read_bytes}
use edge_pdl.MeshComms.{elapsed}
use edge_pdl.MeshPayload.{Header, Payload, no_header, request_put}
use edge_pdl.MeshReceive.{load32}
use edge_pdl.MeshRoute.{Node, Routes, no_node, get_route}

-- K_MESH_CLOUD_REPORT_PAYLOAD_MAXIMUM_SIZE and _SEGMENT_SIZE, K_MESH_CLOUD_REPORT_ACK_TIMEOUT,
-- K_MESH_CLOUD_REQUEST_RESPONSE_TIMEOUT, K_MESH_CLOUD_REPORT_SYNC_RETRIES and
-- K_MESH_CLOUD_REPORT_MAX_RESP_ERRORS
abbrev pub maximum_size : ℕ
maximum_size = 320

abbrev pub segment_size : ℕ
segment_size = 224

abbrev pub report_ack_timeout : ℕ
report_ack_timeout = 5000

abbrev pub response_timeout : ℕ
response_timeout = 10000

abbrev pub sync_retries : ℕ
sync_retries = 16

abbrev pub max_resp_errors : ℕ
max_resp_errors = 5

-- `report_type`, `report_state` and `sync_state`
pub data ReportType : Type 0 where
  no_report : ReportType
  monitor : ReportType
  status : ReportType
  event : ReportType

pub data ReportState : Type 0 where
  at_idle : ReportState
  at_data : ReportState
  at_send_req : ReportState
  at_wait_ack : ReportState
  at_wait_resp : ReportState
  at_retry_delay : ReportState

pub data SyncState : Type 0 where
  sync_idle : SyncState
  sync_send_req : SyncState
  sync_wait_resp : SyncState
  sync_retry_delay : SyncState

-- `s_mesh_sync`, `s_mesh_report` and `s_mesh_payload`
pub record Sync : Type 0 where
  pub state : SyncState
  pub parent : Node
  pub ignore_id : ℕ
  pub start : ℕ
  pub msg_id : ℕ
  pub num_retries : ℕ
  pub status_ok : Bool
  pub info_ready : Bool

pub record Report : Type 0 where
  pub type : ReportType
  pub state : ReportState
  pub timeout : ℕ
  pub num_retries : ℕ
  pub ack_received : Bool
  pub ack_status : Bool
  pub resp_byte : ℕ
  pub num_errors : ℕ
  pub prev_msg_id : ℕ

pub record Outgoing : Type 0 where
  pub hdr : Header
  pub buf : List ℕ
  pub len : ℕ
  pub epoch : ℕ

abbrev pub nothing_out : Outgoing
nothing_out = record { hdr = no_header; buf = replicate maximum_size 0; len = 0; epoch = 0 }

-- The three, `next_type`, and the counters of errors.
pub record Cloud : Type 0 where
  pub sync : Sync
  pub report : Report
  pub out : Outgoing
  pub next_type : ReportType
  pub sync_error : ℕ
  pub ack_error : ℕ
  pub rsp_error : ℕ

-- The calls that the functions make: setMeshConnStatus, meshCommsSend, and that a report was sent.
pub data CloudCall : Type 0 where
  set_conn_status : Bool → CloudCall
  mesh_send : ℕ → Header → List ℕ → CloudCall
  report_sent : ReportType → CloudCall

-- meshCloudInit
pub init : Bool → Cloud → List CloudCall × Cloud
init full s =
    let states : Cloud = record s {
      out = nothing_out;
      sync = record s.sync { state = sync_idle };
      report = record s.report { type = no_report; state = at_idle };
    } in
    let cleared : Cloud = record s {
      out = nothing_out;
      sync = record {
        state = sync_idle;
        parent = no_node;
        ignore_id = 0;
        start = 0;
        msg_id = 0;
        num_retries = 0;
        status_ok = false;
        info_ready = false;
      };
      report = record {
        type = no_report;
        state = at_idle;
        timeout = 0;
        num_retries = 0;
        ack_received = false;
        ack_status = false;
        resp_byte = 0;
        num_errors = 0;
        prev_msg_id = 0;
      };
    } in
    (set_conn_status false ∷ [], if full then cleared else states)

-- queueNextParent
pub queue_next_parent : Sync → Sync
queue_next_parent s = record s {
  ignore_id = s.parent.id;
  parent = record s.parent { id = 0 };
  num_retries = 0;
  status_ok = false;
}

-- sendReportData: the endpoint of a report, and the header of the next segment of it.
pub endpoint_of : ReportType → Option ℕ
endpoint_of no_report = none
endpoint_of monitor = some 2
endpoint_of status = some 3
endpoint_of event = some 4

pub segment_header : ℕ → Outgoing → Header
segment_header endpoint o =
    let hdr : Header = record o.hdr { method = request_put; endpoint = endpoint } in
    if ltb segment_size o.len
    then record hdr { len = segment_size; partial = 1 }
    else record hdr { len = o.len % 256; partial = 0 }

-- `sent_id` is what meshCommsSend returns.
pub send_segment : Option ℕ → ℕ → ℕ → Outgoing → Option (Bool × List CloudCall × Outgoing)
send_segment none dest sent_id o =
    some (false, [], record o { hdr = record o.hdr { method = request_put } })
send_segment (some endpoint) dest sent_id o =
    let hdr = segment_header endpoint o in
    read_bytes hdr.len o.buf >>= λ content. some (
      ltb 0 sent_id,
      mesh_send dest hdr content ∷ [],
      record o { hdr = record hdr { msg_id = sent_id } },
    )

pub send_report_data : ReportType → ℕ → ℕ → Outgoing → Option (Bool × List CloudCall × Outgoing)
send_report_data type dest sent_id o = send_segment (endpoint_of type) dest sent_id o

-- cbDataSent: the data that are left move to the start of the buffer.
pub move_buffer : Outgoing → Option Outgoing
move_buffer o =
    (if ltb o.len o.hdr.len then none else read_bytes (o.len - o.hdr.len) (drop o.hdr.len o.buf))
    >>= λ left. put_all left (record { buf = o.buf; end = 0 }) >>= λ w. some (record o {
      buf = w.buf;
      len = o.len - o.hdr.len;
      hdr = record o.hdr { idx = (o.hdr.idx + 1) % 4 };
    })

abbrev pub end_report : Cloud → Cloud
end_report s = record s {
  out = record s.out { hdr = record s.out.hdr { msg_id = 0 } };
  report = record s.report { num_retries = 0; num_errors = 0; state = at_idle };
}

pub sent_calls : ReportType → List CloudCall
sent_calls no_report = []
sent_calls type = report_sent type ∷ []

pub data_sent : Cloud → Option (List CloudCall × Cloud)
data_sent s =
    if s.out.hdr.partial == 0
    then some (
      sent_calls s.report.type,
      end_report (record s { report = record s.report { type = no_report } }),
    )
    else move_buffer s.out >>= λ out. some ([], end_report (record s { out = out }))
