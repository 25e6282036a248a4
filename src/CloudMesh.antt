-- ===== src/CloudMesh.antt =====
-- cloud_mesh.c, a node that is connected to the cloud: the child nodes that it serves (updateChild) and
-- the requests that it takes from them (meshCloudHandleRequest). The queue of FreeRTOS is not
-- modelled: what it answers is an argument, and a pointer in it is the number of an entry. `none` is
-- an access out of range.
pub mod Requests
pub mod Reassembly
mod Tests
use edge_pdl.Prelude.{
  ℕ, zero, suc, ◌+◌, ◌-◌, ◌%◌, ◌^◌, Option, none, some, ◌>>=◌, Bool, true, false, ◌&&◌, ◌||◌, not,
}
use edge_pdl.Prelude.{
  if◌then◌else◌, ltb, leb, ◌==◌, List, [], ◌∷◌, ◌++◌, length, get_elem?, set, take, drop, replicate,
}
use edge_pdl.Buffer.{Writer, put_all, read_bytes}
use edge_pdl.EdgePayload.Header.{ComHeader, DevId}
use edge_pdl.MeshPayload.{Header, Payload, no_header}

-- K_MESH_CLOUD_MAX_NUM_CHILD_NODES, K_MESH_CLOUD_REQUEST_QUEUE_SIZE,
-- K_MESH_CLOUD_REPORT_PAYLOAD_MAXIMUM_SIZE and MESH_NODE_INACTIVE_TIMEOUT
abbrev pub max_num_child_nodes : ℕ
max_num_child_nodes = 16

abbrev pub request_queue_size : ℕ
request_queue_size = 16

abbrev pub report_maximum_size : ℕ
report_maximum_size = 320

abbrev pub inactive_timeout : ℕ
inactive_timeout = 300000

-- An element of `s_nodes`, and `s_child_nodes`
pub record Child : Type 0 where
  pub id : ℕ
  pub comms : ComHeader

abbrev pub no_comms : ComHeader
no_comms = record {
  protocol_ver = 0;
  dev_type = 0;
  dev_id = record { len = 0; id = replicate 8 0 };
  timestamp = 0;
}

abbrev pub no_child : Child
no_child = record { id = 0; comms = no_comms }

pub record Children : Type 0 where
  pub nodes : List Child
  pub count : ℕ

-- `cloud_payload_st`
pub record Entry : Type 0 where
  pub hdr : Header
  pub child_id : ℕ
  pub updated : ℕ
  pub buf : List ℕ
  pub len : ℕ
  pub idx : ℕ

abbrev pub no_entry : Entry
no_entry = record {
  hdr = no_header;
  child_id = 0;
  updated = 0;
  buf = replicate report_maximum_size 0;
  len = 0;
  idx = 0;
}

-- How the compiler lays out `ep_com_header_st`: its size, and the header that bytes are.
pub record Layout : Type 0 where
  pub size : ℕ
  pub decode : List ℕ → ComHeader

-- The readings of millis(): for a child that is known, by the loop over the children, and for a new
-- one.
pub record ChildTimes : Type 0 where
  pub refreshed : ℕ
  pub checked : ℕ → ℕ
  pub added : ℕ

-- updateChild: its first loop, over the children in use.
pub find_child : ℕ → List Child → ℕ → ℕ → Option ℕ
find_child id nodes zero idx = none
find_child id [] (suc n) idx = none
find_child id (c ∷ nodes) (suc n) idx =
    let rest = find_child id nodes n (idx + 1) in if id == c.id then some idx else rest

-- The child that is refreshed: the time goes into its device type.
abbrev pub refresh : ℕ → Child → Child
refresh now c = record c { comms = record c.comms { dev_type = now } }

-- Its second loop: the first child that was not added within the last 5 minutes.
pub find_inactive : (ℕ → ℕ) → List Child → ℕ → ℕ → Option ℕ
find_inactive checked nodes zero idx = none
find_inactive checked [] (suc n) idx = none
find_inactive checked (c ∷ nodes) (suc n) idx =
    let rest = find_inactive checked nodes n (idx + 1) in
    if ltb inactive_timeout ((checked idx + 2 ^ 32 - c.comms.timestamp) % 2 ^ 32)
    then some idx
    else rest

-- The memmove keeps the last element where it is.
pub remove_child : Option ℕ → Children → Option Children
remove_child none s = some s
remove_child (some idx) s =
    let nodes =
      take idx s.nodes ++ (drop (idx + 1) s.nodes ++ drop (max_num_child_nodes - 1) s.nodes) in
    let count = (s.count + 255) % 256 in
    get_elem? nodes count >>= λ c. some (record {
      nodes = set nodes count (record c { id = 0; comms = record c.comms { timestamp = 0 } });
      count = count;
    })

-- The device information of a request to synchronise.
pub store_info : Layout → Option Payload → ComHeader → Option ComHeader
store_info layout none comms = some comms
store_info layout (some p) comms =
    if p.hdr.endpoint == 1 && layout.size == p.hdr.len
    then read_bytes layout.size p.content >>= (λ bytes. some (layout.decode bytes))
    else some comms

pub add_child : Layout → ℕ → Option Payload → ℕ → Children → Option (Bool × Children)
add_child layout id payload now s =
    if ltb s.count max_num_child_nodes
    then get_elem? s.nodes s.count >>= (λ c. store_info layout payload c.comms >>= (λ comms. some (
      true,
      record {
        nodes = set s.nodes s.count (record { id = id; comms = record comms { timestamp = now } });
        count = (s.count + 1) % 256;
      },
    )))
    else some (false, s)

-- updateChild
pub update_found_child :
    Layout → ℕ → Option Payload → ChildTimes → Option ℕ → Children → Option (Bool × Children)
update_found_child layout id payload t (some idx) s = get_elem? s.nodes idx >>= λ c.
    some (true, record s { nodes = set s.nodes idx (refresh t.refreshed c) })
update_found_child layout id payload t none s =
    remove_child (find_inactive t.checked s.nodes s.count 0) s
    >>= add_child layout id payload t.added

pub update_child : Layout → ℕ → Option Payload → ChildTimes → Children → Option (Bool × Children)
update_child layout id payload t s =
    update_found_child layout id payload t (find_child id s.nodes s.count 0) s

-- memcmp of two headers
pub same_header : Header → Header → Bool
same_header a b =
    a.msg_id == b.msg_id
    && (a.len == b.len
        && (a.method == b.method
            && (a.endpoint == b.endpoint && (a.idx == b.idx && a.partial == b.partial))))

-- meshCloudHandleRequest: its first loop.
pub is_duplicate : ℕ → Header → List Entry → Bool
is_duplicate id_from hdr [] = false
is_duplicate id_from hdr (e ∷ entries) =
    let rest = is_duplicate id_from hdr entries in
    if id_from == e.child_id && same_header e.hdr hdr then true else rest

-- Its second loop: for a new request an empty entry, for one that goes on the entry of its start.
pub is_place : ℕ → Header → Entry → Bool
is_place id_from hdr e =
    if hdr.idx == 0
    then e.len == 0
    else id_from == e.child_id
      && (not (e.hdr.partial == 0)
          && (hdr.method == e.hdr.method
              && (hdr.endpoint == e.hdr.endpoint && hdr.idx == e.hdr.idx + 1)))

pub find_place : ℕ → Header → List Entry → ℕ → Option ℕ
find_place id_from hdr [] idx = none
find_place id_from hdr (e ∷ entries) idx =
    let rest = find_place id_from hdr entries (idx + 1) in
    if is_place id_from hdr e then some idx else rest

-- The data copied behind those that the entry has, and its information.
pub append_data : ℕ → Payload → ℕ → ℕ → Entry → Option Entry
append_data id_from p now idx e = read_bytes p.hdr.len p.content >>= λ bytes.
    put_all bytes (record { buf = e.buf; end = e.len }) >>= λ w. some (record {
      hdr = p.hdr;
      child_id = id_from;
      updated = now;
      buf = w.buf;
      len = (e.len + p.hdr.len) % 2 ^ 16;
      idx = idx;
    })

-- What follows the loops where it is no duplicate: `queued` says whether xQueueSend takes the pointer.
pub store_request : ℕ → Payload → ℕ → Bool → Option ℕ → List Entry → Option (Bool × List Entry)
store_request id_from p now queued none entries = some (false, entries)
store_request id_from p now queued (some idx) entries = get_elem? entries idx >>= λ e.
    if ltb report_maximum_size (e.len + p.hdr.len)
    then some (false, entries)
    else append_data id_from p now idx e >>= λ filled.
        if not (p.hdr.idx == 0) || queued
        then some (true, set entries idx filled)
        else some (false, set entries idx no_entry)

-- `s_child_nodes` and `as_cloud_payload`
pub record Parent : Type 0 where
  pub children : Children
  pub entries : List Entry

-- A call of meshCommsSend: the destination, the id, the data, the method and the endpoint.
pub record Reply : Type 0 where
  pub dest : ℕ
  pub msg_id : ℕ
  pub content : List ℕ
  pub method : ℕ
  pub endpoint : ℕ

-- "ACK\0" and "NACK"
pub acknowledge : ℕ → Header → Bool → Reply
acknowledge id_from hdr status = record {
  dest = id_from;
  msg_id = hdr.msg_id;
  content = if status then 65 ∷ 67 ∷ 75 ∷ 0 ∷ [] else 78 ∷ 65 ∷ 67 ∷ 75 ∷ [];
  method = 0;
  endpoint = hdr.endpoint;
}

-- What the function is answered: by cloudNetInterfaceAvailable(), millis() and xQueueSend.
pub record Intake : Type 0 where
  pub available : Bool
  pub times : ChildTimes
  pub now : ℕ
  pub queued : Bool

pub take_request : ℕ → Payload → Intake → List Entry → Option (Bool × List Entry)
take_request id_from p a entries =
    if is_duplicate id_from p.hdr entries
    then some (true, entries)
    else store_request id_from p a.now a.queued (find_place id_from p.hdr entries 0) entries

-- meshCloudHandleRequest: what it returns, and the acknowledgement that it sends.
pub handle_request : Layout → ℕ → Payload → Intake → Parent → Option (Bool × List Reply × Parent)
handle_request layout id_from p a s =
    update_child layout id_from none a.times s.children >>= λ served.
    let known : Parent = record s { children = served.1 } in
    if served.0 && a.available
    then take_request id_from p a s.entries >>= (λ taken.
      some (taken.0, acknowledge id_from p.hdr taken.0 ∷ [], record known { entries = taken.1 }))
    else some (false, [], known)
