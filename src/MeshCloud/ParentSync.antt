-- ===== src/MeshCloud/ParentSync.antt =====
-- mesh_cloud.c: the machine that finds a parent and takes the time from it (meshCloudSync), and
-- parseTimePayload. What the time and the flags of the system say is an argument.
mod Tests
use edge_pdl.Prelude.{
  ℕ, ◌+◌, ◌-◌, ◌/◌, ◌%◌, ◌^◌, Option, none, some, ◌>>=◌, Bool, true, false, ◌&&◌, ◌||◌, not,
}
use edge_pdl.Prelude.{if◌then◌else◌, ltb, ◌==◌, List, [], ◌∷◌}
use edge_pdl.MeshComms.{SyncResult, in_progress, success, error, elapsed}
use edge_pdl.MeshPayload.{Header, Payload, no_header}
use edge_pdl.MeshRoute.{Node, Routes, get_cloud_node}
use edge_pdl.MeshCloud.{
  SyncState, sync_idle, sync_send_req, sync_wait_resp, sync_retry_delay, Sync, Cloud, CloudCall,
  set_conn_status, mesh_send, report_ack_timeout, queue_next_parent,
}

-- What a call of meshCloudSync is answered: the routes and the node's own id, millis(), the bytes of the
-- header that edgePayloadInitComHeader makes, and what meshCommsSend returns.
pub record SyncAnswers : Type 0 where
  pub node_id : ℕ
  pub routes : Routes
  pub now : ℕ
  pub comms : List ℕ
  pub comms_size : ℕ
  pub sent_id : ℕ

abbrev pub Synced : Type 0
Synced = SyncResult × List CloudCall × Cloud

abbrev pub with_sync : Sync → Cloud → Cloud
with_sync sync s = record s { sync = sync }

abbrev pub count_sync_error : Cloud → Cloud
count_sync_error s = record s { sync_error = (s.sync_error + 1) % 2 ^ 32 }

pub choose_parent : Option Node → Cloud → Synced
choose_parent none s = (error, [], s)
choose_parent (some n) s = (
  in_progress,
  set_conn_status false ∷ [],
  with_sync (record s.sync { parent = n; state = sync_send_req }) s,
)

pub sync_idle_step : Bool → SyncAnswers → Cloud → Option Synced
sync_idle_step forced a s =
    if not forced && (not (s.sync.parent.id == 0) && s.sync.status_ok)
    then some (success, [], s)
    else get_cloud_node a.node_id s.sync.ignore_id a.routes >>= λ found.
        some (choose_parent found s)

-- A request for the time: method 1 and endpoint 1, with a new id.
pub sync_send_step : SyncAnswers → Cloud → Synced
sync_send_step a s = (
  in_progress,
  mesh_send s.sync.parent.id (record no_header { len = a.comms_size; method = 1; endpoint = 1 })
        a.comms
      ∷ [],
  with_sync
      (record s.sync {
        msg_id = a.sent_id;
        start = a.now;
        status_ok = false;
        state = if ltb 0 a.sent_id then sync_wait_resp else sync_retry_delay;
      })
      s,
)

pub sync_wait_step : SyncAnswers → Cloud → Synced
sync_wait_step a s =
    let delayed : Cloud = with_sync (record s.sync { start = a.now; state = sync_retry_delay }) s in
    if s.sync.msg_id == 0
    then if s.sync.status_ok
      then (success, [], with_sync (record s.sync { state = sync_idle; info_ready = true }) s)
      else (error, [], count_sync_error delayed)
    else if ltb report_ack_timeout (elapsed a.now s.sync.start)
    then (in_progress, [], count_sync_error delayed)
    else (in_progress, [], s)

pub sync_retry_step : SyncAnswers → Cloud → Synced
sync_retry_step a s =
    let num_retries = (s.sync.num_retries + 1) % 2 ^ 16 in
    let retried : Sync = record s.sync { state = sync_idle; num_retries = num_retries } in
    if ltb report_ack_timeout (elapsed a.now s.sync.start)
    then if ltb 4 num_retries
      then (error, [], with_sync (queue_next_parent retried) s)
      else (in_progress, [], with_sync retried s)
    else (in_progress, [], s)

-- meshCloudSync
pub sync_at : SyncState → Bool → SyncAnswers → Cloud → Option Synced
sync_at sync_idle forced a s = sync_idle_step forced a s
sync_at sync_send_req forced a s = some (sync_send_step a s)
sync_at sync_wait_resp forced a s = some (sync_wait_step a s)
sync_at sync_retry_delay forced a s = some (sync_retry_step a s)

pub sync : Bool → SyncAnswers → Cloud → Option Synced
sync forced a s = sync_at s.sync.state forced a s

-- What parseTimePayload is answered: by get4gTimeSyncStatus, getLoraTimeSyncStatus, timeUtilStringToEpoch
-- of the text, millis(), timeUtilEpochToRtcDateTime and syncTime of a time.
pub record TimeAnswers : Type 0 where
  pub synced_4g : Bool
  pub synced_lora : Bool
  pub parse : List ℕ → ℕ → Option ℕ
  pub now : ℕ
  pub to_date : ℕ → Bool
  pub sync_time : ℕ → Bool

-- The result, and the time to which setLoraTimeSyncStatus follows.
pub parse_epoch : TimeAnswers → ℕ → Option ℕ → Bool × Option ℕ
parse_epoch a start none = (false, none)
parse_epoch a start (some timestamp) =
    let rtt = elapsed a.now start in
    let time = (timestamp + rtt / 2 / 1000) % 2 ^ 32 in
    if ltb rtt 5000
    then if a.to_date time then (a.sync_time time, some time) else (false, none)
    else (a.synced_4g, none)

pub parse_time_payload : TimeAnswers → ℕ → List ℕ → ℕ → Bool × Option ℕ
parse_time_payload a start text len =
    if a.synced_4g || a.synced_lora then (true, none) else parse_epoch a start (a.parse text len)

-- meshCloudParseSyncResponse: what it returns, the time that is set, and the state.
pub parse_sync_response : TimeAnswers → Payload → Cloud → Bool × Option ℕ × Cloud
parse_sync_response a p s =
    let parsed = parse_time_payload a s.sync.start p.content p.hdr.len in
    if p.hdr.msg_id == s.sync.msg_id
    then (parsed.0, parsed.1, with_sync (record s.sync { status_ok = parsed.0; msg_id = 0 }) s)
    else (s.sync.status_ok, none, s)
