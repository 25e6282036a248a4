-- ===== src/MeshReceive.antt =====
-- lora_mesh.c: OnRxDone, with the map of nodes and the broadcasts of MeshRoute and the sending of
-- MeshSend. `none` is an access out of range, and that the fuel of clearSubs is used up. The radio's
-- packets have at most 255 bytes, so that the two words behind the 256 bytes of a message hold
-- nothing of a packet; a longer one is cut, as in the source.
pub mod Packet
pub mod Handlers
pub mod Journey
pub mod Broadcast
pub mod NodesMap
mod Tests
use edge_pdl.Prelude.{
  ℕ, zero, suc, ◌+◌, ◌-◌, ◌*◌, ◌/◌, ◌%◌, ◌^◌, bit_and, Option, none, some, ◌>>=◌, Bool, true, false,
  ◌&&◌, ◌||◌, not,
}
use edge_pdl.Prelude.{
  if◌then◌else◌, ltb, ◌==◌, List, [], ◌∷◌, ◌++◌, length, get_elem?, set, drop, take, replicate,
}
use edge_pdl.Buffer.{read_bytes}
use edge_pdl.Crc16.{calc_block}
use edge_pdl.MeshRoute.{
  Node, Routes, Times, Broadcasts, clear_subs, add_node, get_route, is_old_broadcast,
}
use edge_pdl.MeshSend.{Mesh, idle, Command, listen, send_request}

-- sizeof(mesh_data_msg_st), and the places of `u16_len` and `u16_crc` in it
abbrev pub buffer_size : ℕ
buffer_size = 260

abbrev pub len_at : ℕ
len_at = 256

abbrev pub crc_at : ℕ
crc_at = 258

-- The words of a packet, low byte first.
pub load16 : List ℕ → ℕ → Option ℕ
load16 buf at = get_elem? buf at >>= λ lo. get_elem? buf (at + 1) >>= λ hi. some (lo + 256 * hi)

pub load32 : List ℕ → ℕ → Option ℕ
load32 buf at = load16 buf at >>= λ lo. load16 buf (at + 2) >>= λ hi. some (lo + 2 ^ 16 * hi)

pub store16 : List ℕ → ℕ → ℕ → List ℕ
store16 buf at word = set (set buf at (word % 256)) (at + 1) (word / 2 ^ 8 % 256)

pub store32 : List ℕ → ℕ → ℕ → List ℕ
store32 buf at word = store16 (store16 buf at (word % 2 ^ 16)) (at + 2) (word / 2 ^ 16)

-- The fields of the header, by their places in the buffer.
abbrev pub type_at : ℕ
type_at = 3

abbrev pub src_at : ℕ
src_at = 4

abbrev pub dst_at : ℕ
dst_at = 8

abbrev pub orig_at : ℕ
orig_at = 12

-- The state that OnRxDone changes: that of the sending, the map, the broadcasts, and its counters.
pub record Station : Type 0 where
  pub mesh : Mesh
  pub routes : Routes
  pub broadcasts : Broadcasts
  pub nodes_changed : Bool
  pub msg_invalid : ℕ
  pub msg_crc : ℕ
  pub route_fail : ℕ

-- What a reception is told: the packet, and what xSemaphoreTake, xQueueSend and millis() answer
-- (for the entries of a map of nodes, in their order).
pub record Reception : Type 0 where
  pub packet : List ℕ
  pub size : ℕ
  pub rssi : ℕ
  pub snr : ℕ
  pub taken : Bool
  pub queued : Bool
  pub times : ℕ → Times

-- A call of DataAvailable: the sender, the buffer from the data on, and the length of the data.
pub record Delivery : Type 0 where
  pub from : ℕ
  pub data_from : List ℕ
  pub size : ℕ

abbrev count_route_fail : Station → Station
count_route_fail s = record s { route_fail = (s.route_fail + 1) % 2 ^ 32 }

-- A map of nodes: one entry of it. INT8_MIN and INT16_MIN are 128 and 32768 by their bits.
pub add_sub : ℕ → ℕ → Reception → List ℕ → ℕ → Station → Option Station
add_sub node_id src r buf idx s = load32 buf (12 + 5 * idx) >>= λ sub_id.
    if sub_id == node_id
    then some s
    else get_elem? buf (16 + 5 * idx) >>= λ info.
        let hops = bit_and info 0x1f in
        let flags = bit_and info 0xe0 / 2 ^ 5 in
        (if sub_id == src
          then add_node sub_id 0 0 flags r.snr r.rssi (r.times idx) s.routes
          else add_node sub_id src (hops + 1) flags 128 32768 (r.times idx) s.routes)
        >>= λ added. some (record s { routes = added.0; nodes_changed = true })

-- The entries from `idx` on; the first argument is how many are left.
pub add_subs : ℕ → ℕ → ℕ → Reception → List ℕ → ℕ → Station → Option Station
add_subs zero node_id src r buf idx s = some s
add_subs (suc n) node_id src r buf idx s =
    add_sub node_id src r buf idx s >>= add_subs n node_id src r buf (idx + 1)

-- The handlers, by the type of the message. They are told the fuel for clearSubs, the node's id, the
-- reception, the buffer and the length of the message.
pub on_nodes_map : ℕ → ℕ → Reception → List ℕ → ℕ → Station → Option Station
on_nodes_map fuel node_id r buf len s =
    let subs_size = (len - 12) % 256 in
    if r.taken
    then load32 buf src_at >>= (λ src.
      clear_subs fuel src s.routes
      >>= (λ routes. add_subs (subs_size / 5) node_id src r buf 0 (record s { routes = routes })))
    else some (count_route_fail s)

pub on_direct : ℕ → List ℕ → ℕ → Station → Option (List Delivery × Station)
on_direct node_id buf len s = load32 buf dst_at >>= λ dst. load32 buf orig_at >>= λ orig.
    if dst == node_id
    then some (record { from = orig; data_from = drop 16 buf; size = len - 16 } ∷ [], s)
    else some ([], s)

-- The message with its header for the next node.
pub readdress : List ℕ → ℕ → ℕ → Node → List ℕ
readdress buf src orig n =
    if n.first_hop == 0
    then set (store32 (store32 buf dst_at src) src_at orig) type_at 1
    else set (store32 buf dst_at n.first_hop) type_at 2

-- meshSendRequest, with the counter of what it refuses.
abbrev pub pass_end : Station → Bool × Mesh → Option Station
pass_end s (true, mesh) = some (record s { mesh = mesh })
pass_end s (false, mesh) = some (count_route_fail (record s { mesh = mesh }))

pub pass_on : List ℕ → ℕ → Bool → Station → Option Station
pass_on buf len queued s = send_request buf len queued s.mesh >>= pass_end s

pub forward : List ℕ → ℕ → Bool → ℕ → ℕ → Option Node → Station → Option Station
forward buf len queued src orig none s = some (count_route_fail s)
forward buf len queued src orig (some n) s = pass_on (readdress buf src orig n) len queued s

pub on_forward : ℕ → Reception → List ℕ → ℕ → Station → Option Station
on_forward node_id r buf len s = load32 buf src_at >>= λ src. load32 buf dst_at >>= λ dst.
    load32 buf orig_at >>= λ orig.
    if dst == node_id
    then if r.taken
      then forward buf len r.queued src orig (get_route src s.routes) s
      else some (count_route_fail s)
    else some s

-- meshBroadcastID
abbrev pub broadcast_id : ℕ → ℕ
broadcast_id id = bit_and id 0xffffff00

pub on_broadcast : ℕ → Reception → List ℕ → ℕ → Station → Option (List Delivery × Station)
on_broadcast node_id r buf len s = load32 buf src_at >>= λ src. load32 buf dst_at >>= λ dst.
    if broadcast_id dst == broadcast_id node_id
    then some ([], s)
    else is_old_broadcast dst s.broadcasts >>= λ asked.
        let listed : Station = record s { broadcasts = asked.1 } in
        if asked.0
        then some ([], listed)
        else pass_on buf len r.queued listed >>= λ passed.
            some (record { from = src; data_from = drop 16 buf; size = len - 16 } ∷ [], passed)

abbrev silent : Station → List Delivery × Station
silent s = ([], s)

abbrev quietly : Option Station → Option (List Delivery × Station)
quietly m = m >>= λ s. some (silent s)

-- By the type: MESH_MSG_DIRECT, FORWARD, BROADCAST and NODEMAP.
pub on_message : ℕ → ℕ → Reception → List ℕ → ℕ → Station → Option (List Delivery × Station)
on_message fuel node_id r buf len s = get_elem? buf type_at >>= λ type.
    if type == 4
    then quietly (on_nodes_map fuel node_id r buf len s)
    else if type == 1
    then on_direct node_id buf len s
    else if type == 2
    then quietly (on_forward node_id r buf len s)
    else if type == 3
    then on_broadcast node_id r buf len s
    else some (silent (record s { msg_invalid = (s.msg_invalid + 1) % 2 ^ 32 }))

-- What follows the test of the mark, the length stored and the CRC compared.
pub on_marked : ℕ → ℕ → Reception → ℕ → List ℕ → Station → Option (List Delivery × Station)
on_marked fuel node_id r size buf s =
    let len = size - 2 in
    let stored = store16 buf len_at len in
    calc_block stored len >>= λ calc_crc. load16 stored len >>= λ crc.
    if crc == calc_crc
    then on_message fuel node_id r (store16 stored crc_at crc) len s
    else some (silent (record s { msg_crc = (s.msg_crc + 1) % 2 ^ 32 }))

-- memcmp with the mark, "LRM"
pub is_marked : List ℕ → Bool
is_marked (a ∷ b ∷ c ∷ _) = a == 76 && (b == 82 && c == 77)
is_marked _ = false

-- The packet in the buffer that is cleared before.
pub receive : List ℕ → ℕ → Option (List ℕ)
receive packet size =
    read_bytes size packet >>= λ bytes. some (bytes ++ replicate (buffer_size - size) 0)

-- OnRxDone. The radio listens again in every case; the list says what is delivered.
pub handle_packet : ℕ → ℕ → Reception → ℕ → Station → Option (List Delivery × Station)
handle_packet fuel node_id r size s = receive r.packet size >>= λ buf.
    let ready : Station = record s { mesh = record s.mesh { state = idle } } in
    if ltb size 18
    then some (silent ready)
    else if is_marked buf
    then on_marked fuel node_id r size buf ready
    else some (silent ready)

pub on_rx_done : ℕ → ℕ → Reception → Station → Option (List Command × List Delivery × Station)
on_rx_done fuel node_id r s =
    let cut : Station = record s {
      mesh = record s.mesh { rx_error = (s.mesh.rx_error + 1) % 2 ^ 32 };
    } in
    (if ltb buffer_size r.size
      then handle_packet fuel node_id r buffer_size cut
      else handle_packet fuel node_id r r.size s)
    >>= λ done. some (listen ∷ [], done.0, done.1)
