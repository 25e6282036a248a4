-- ===== src/MeshComms.antt =====
-- mesh_comms.c: meshCommsInit, meshCommsCycle and meshCommsSend. What the modules that they call
-- answer is an argument, but for getRoute and meshSendRequest, which are those of MeshRoute and
-- MeshSend.
pub mod Cycle
pub mod Send
mod Tests
use edge_pdl.Prelude.{
  ℕ, zero, suc, ◌+◌, ◌-◌, ◌*◌, ◌/◌, ◌%◌, ◌^◌, Option, none, some, ◌>>=◌, Bool, true, false,
}
use edge_pdl.Prelude.{if◌then◌else◌, ltb, leb, ◌==◌, List, [], ◌∷◌, ◌++◌}
use edge_pdl.Buffer.{read_bytes}
use edge_pdl.EdgePayload.Header.{le_bytes16, le_bytes32}
use edge_pdl.MeshRoute.{Node, Routes, get_route}
use edge_pdl.MeshSend.{Mesh, send_request}

-- MESH_CLOUD_OFFLINE_TIMEOUT, and the time after which the clock is synchronised again
abbrev pub cloud_offline_timeout : ℕ
cloud_offline_timeout = 120000

abbrev pub sync_interval : ℕ
sync_interval = 10800000

-- `mesh_comms_state_et`
pub data CommsState : Type 0 where
  at_init : CommsState
  at_sync : CommsState
  at_cloud : CommsState
  at_idle : CommsState

-- The variables of the file.
pub record Comms : Type 0 where
  pub state : CommsState
  pub force_sync : Bool
  pub last_cloud_connected : ℕ
  pub message_counter : ℕ

-- meshCommsInit leaves `b_force_sync` as it is.
pub init : Comms → Comms
init s = record s { state = at_init; last_cloud_connected = 0; message_counter = 0 }

-- What meshCloudSync returns: 0, a positive or a negative number.
pub data SyncResult : Type 0 where
  in_progress : SyncResult
  success : SyncResult
  error : SyncResult

-- What a cycle is answered: by cloudNetInterfaceAvailable(), millis(), meshCloudSync(),
-- meshCloudGetLastSync() and the cycles of the cloud, the commands and the updates.
pub record Answers : Type 0 where
  pub available : Bool
  pub now : ℕ
  pub sync_result : SyncResult
  pub last_sync : ℕ
  pub cloud_ok : Bool
  pub command_ok : Bool
  pub update_ok : Bool

-- The calls that a cycle makes, in order.
pub data Call : Type 0 where
  cloud_init : Call
  cloud_sync : Bool → Call
  reset_time_sync : Call
  cloud_cycle : Call
  command_cycle : Call
  update_cycle : Call

-- `a - b` on 32 bits
abbrev pub elapsed : ℕ → ℕ → ℕ
elapsed a b = (a + 2 ^ 32 - b) % 2 ^ 32

-- meshCommsCycle, by the state.
pub init_cycle : Answers → Comms → List Call × Comms
init_cycle a s =
    if a.available
    then ([], record s { last_cloud_connected = a.now })
    else if ltb cloud_offline_timeout (elapsed a.now s.last_cloud_connected)
    then (cloud_init ∷ [], record s { state = at_sync })
    else ([], s)

pub sync_cycle : SyncResult → Answers → Comms → List Call × Comms
sync_cycle in_progress a s = (cloud_sync s.force_sync ∷ [], s)
sync_cycle success a s = (
  cloud_sync s.force_sync ∷ [],
  record s { force_sync = false; state = at_cloud; last_cloud_connected = a.now },
)
sync_cycle error a s = (cloud_sync s.force_sync ∷ [], record s { state = at_init })

pub work_cycle : Answers → Comms → List Call × Comms
work_cycle a s =
    let failed : Comms = record s { state = at_sync } in
    if a.cloud_ok
    then if a.command_ok
      then (cloud_cycle ∷ command_cycle ∷ update_cycle ∷ [], if a.update_ok then s else failed)
      else (cloud_cycle ∷ command_cycle ∷ [], failed)
    else (cloud_cycle ∷ [], failed)

pub cloud_state_cycle : Answers → Comms → List Call × Comms
cloud_state_cycle a s =
    if a.available
    then ([], record s { force_sync = true; state = at_init })
    else if ltb sync_interval (elapsed a.now a.last_sync)
    then (reset_time_sync ∷ [], record s { force_sync = true; state = at_sync })
    else work_cycle a s

pub cycle_at : CommsState → Answers → Comms → List Call × Comms
cycle_at at_init a s = init_cycle a s
cycle_at at_sync a s = sync_cycle a.sync_result a s
cycle_at at_cloud a s = cloud_state_cycle a s
cycle_at at_idle a s = ([], record s { state = at_init })

pub cycle : Answers → Comms → List Call × Comms
cycle a s = cycle_at s.state a s

-- What meshCommsSend is told of a message: the header's four fields after the length, and the data.
pub record Request : Type 0 where
  pub method : ℕ
  pub endpoint : ℕ
  pub idx : ℕ
  pub partial : ℕ
  pub content : List ℕ
  pub len : ℕ

-- `mesh_comms_payload_header_st`
pub payload_header : ℕ → Request → List ℕ
payload_header msg_id r =
    le_bytes16 msg_id
    ++ r.len ∷ (r.method % 4 + 4 * (r.endpoint % 8) + 32 * (r.idx % 4) + 128 * (r.partial % 2)) ∷ []

-- The header of the mesh message: over another node, or straight to the destination.
pub mesh_header : ℕ → ℕ → ℕ → List ℕ
mesh_header node_id dest first_hop =
    if first_hop == 0
    then 76 ∷ 82 ∷ 77 ∷ 1 ∷ (le_bytes32 node_id ++ le_bytes32 dest)
    else 76 ∷ 82 ∷ 77 ∷ 2 ∷ (le_bytes32 dest ++ le_bytes32 first_hop)

-- `++u16_message_counter`, which skips 0.
pub next_id : ℕ → ℕ
next_id counter = if (counter + 1) % 2 ^ 16 == 0 then 1 else (counter + 1) % 2 ^ 16

-- MESH_COMMS_PAYLOAD_MAX_SIZE
abbrev pub payload_max_size : ℕ
payload_max_size = 233

-- The message, and the id that is returned. The data are copied into an array without a test.
pub hand_in : ℕ → ℕ → ℕ → ℕ → Request → Bool → Comms → Mesh → Option (ℕ × Comms × Mesh)
hand_in node_id dest first_hop msg_id r queued s mesh =
    (if leb r.len payload_max_size then read_bytes r.len r.content else none) >>= λ content.
    send_request
      (mesh_header node_id dest first_hop
        ++ (le_bytes32 node_id ++ (payload_header msg_id r ++ content)))
      (r.len + 4 + 16) queued mesh
    >>= λ m. some (if m.0 then msg_id else 0, s, m.1)

-- A message to a destination with a new id, or with one that is given.
pub send_new : ℕ → ℕ → Option Node → Request → Bool → Comms → Mesh → Option (ℕ × Comms × Mesh)
send_new node_id dest none r queued s mesh = some (0, s, mesh)
send_new node_id dest (some n) r queued s mesh =
    hand_in node_id n.id n.first_hop (next_id s.message_counter) r queued
      (record s { message_counter = next_id s.message_counter }) mesh

pub send_reply : ℕ → ℕ → ℕ → Option Node → Request → Bool → Comms → Mesh → Option (ℕ × Comms × Mesh)
send_reply node_id dest msg_id none r queued s mesh = hand_in node_id dest 0 msg_id r queued s mesh
send_reply node_id dest msg_id (some n) r queued s mesh =
    hand_in node_id n.id n.first_hop msg_id r queued s mesh

-- meshCommsSend; `queued` is for meshSendRequest. The result is what it returns, 0 where it fails.
pub comms_send : ℕ → ℕ → ℕ → Request → Bool → Routes → Comms → Mesh → Option (ℕ × Comms × Mesh)
comms_send node_id dest msg_id r queued routes s mesh =
    if msg_id == 0
    then send_new node_id dest (get_route dest routes) r queued s mesh
    else send_reply node_id dest msg_id (get_route dest routes) r queued s mesh
