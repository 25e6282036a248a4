-- ===== src/MeshRoute.antt =====
-- mesh_route.c and mesh_route.h: the map of the known nodes and the list of the last broadcasts.
-- `none` is an access out of range, and in the loops that delete nodes also that the fuel is used up.
-- A reading of millis() is an argument. The children have what the functions do.
pub mod Live
pub mod Clear
pub mod Map
pub mod Add
pub mod Cloud
pub mod Broadcast
mod Tests
use edge_pdl.Prelude.{
  ℕ, zero, suc, ◌+◌, ◌-◌, ◌*◌, ◌/◌, ◌%◌, ◌^◌, bit_and, bit_or, Option, none, some, ◌>>=◌, Bool,
  true, false, ◌&&◌, ◌||◌, not,
}
use edge_pdl.Prelude.{
  if◌then◌else◌, ltb, leb, ◌==◌, List, [], ◌∷◌, ◌++◌, length, get_elem?, set, take, drop, replicate,
}

-- MESH_MAX_NUM_NODES, MESH_NODE_INACTIVE_TIMEOUT, NUM_NODES_PER_MSG, MESH_MAX_HOP_COUNT and
-- NUM_OF_LAST_BROADCASTS
abbrev pub max_num_nodes : ℕ
max_num_nodes = 240

abbrev pub node_inactive_timeout : ℕ
node_inactive_timeout = 300000

abbrev pub num_nodes_per_msg : ℕ
num_nodes_per_msg = 48

abbrev pub max_hop_count : ℕ
max_hop_count = 30

abbrev pub num_of_last_broadcasts : ℕ
num_of_last_broadcasts = 10

-- `mesh_node_st`; a signed field is the number with its bits.
pub record Node : Type 0 where
  pub id : ℕ
  pub flags : ℕ
  pub num_hops : ℕ
  pub snr : ℕ
  pub rssi : ℕ
  pub first_hop : ℕ
  pub timestamp : ℕ

abbrev pub no_node : Node
no_node = record {
  id = 0;
  flags = 0;
  num_hops = 0;
  snr = 0;
  rssi = 0;
  first_hop = 0;
  timestamp = 0;
}

-- `as_nodes_map` and `u16_nodes_count`
pub record Routes : Type 0 where
  pub nodes_map : List Node
  pub nodes_count : ℕ

-- meshRouteInit; the node's id is meshNodeID().
pub init : ℕ → Routes
init node_id = record {
  nodes_map = set (replicate max_num_nodes no_node) 0 (record no_node { id = node_id });
  nodes_count = 1;
}

-- deleteRoute: the memmove keeps the last entry where it is.
pub delete_route : ℕ → Routes → Option Routes
delete_route index s =
    let index = index % 256 in
    let nodes_map =
      take index s.nodes_map
      ++ (drop (index + 1) s.nodes_map ++ drop (max_num_nodes - 1) s.nodes_map) in
    let nodes_count = (s.nodes_count + 65535) % 65536 in
    if ltb index max_num_nodes
    then get_elem? nodes_map nodes_count >>= (λ n. some (record {
      nodes_map = set nodes_map nodes_count (record n { id = 0 });
      nodes_count = nodes_count;
    }))
    else none

-- getRoute: the node it copies, or `none` where it returns false.
pub get_route_loop : ℕ → List Node → Option Node
get_route_loop id [] = none
get_route_loop id (n ∷ nodes) =
    let rest = get_route_loop id nodes in
    if id == 0 || n.id == 0 then none else if n.id == id then some n else rest

pub get_route : ℕ → Routes → Option Node
get_route id s = get_route_loop id s.nodes_map

-- getCloudNode: its first loop, over the entries from the second one on.
pub find_offset : ℕ → List Node → ℕ → ℕ → Option ℕ
find_offset zero nodes_map id_ignore idx = some 0
find_offset (suc n) nodes_map id_ignore idx =
    let rest = find_offset n nodes_map id_ignore (idx + 1) in
    get_elem? nodes_map idx >>= λ node. if id_ignore == node.id then some idx else rest

-- `min_hop` and the node found.
pub record Found : Type 0 where
  pub min_hop : ℕ
  pub node : Option Node

-- One turn of its second loop.
pub consider : ℕ → ℕ → Node → Found → Found
consider node_id id_ignore n found =
    if n.id == 0 || (n.id == node_id || n.id == id_ignore)
    then found
    else if bit_and n.flags 1 == 0
    then found
    else if ltb n.num_hops found.min_hop
    then record { min_hop = n.num_hops; node = some n }
    else found

-- The first argument is how many turns are left.
pub cloud_loop : ℕ → ℕ → ℕ → ℕ → Routes → ℕ → Found → Option Found
cloud_loop zero node_id id_ignore offset s u16_idx found = some found
cloud_loop (suc n) node_id id_ignore offset s u16_idx found =
    let idx = (u16_idx + offset) % 65536 in
    let idx = if leb s.nodes_count idx then idx - s.nodes_count else idx in
    get_elem? s.nodes_map idx >>= λ node.
    cloud_loop n node_id id_ignore offset s (u16_idx + 1) (consider node_id id_ignore node found)

pub search : ℕ → ℕ → ℕ → Routes → Option (Option Node)
search node_id id_ignore offset s =
    cloud_loop s.nodes_count node_id id_ignore offset s 0 (record { min_hop = 255; node = none })
    >>= λ found. some found.node

-- Its retry without the node to be ignored.
pub or_retry : ℕ → ℕ → Routes → Option Node → Option (Option Node)
or_retry node_id id_ignore s (some n) = some (some n)
or_retry node_id id_ignore s none = if not (id_ignore == 0) then search node_id 0 0 s else some none

-- getCloudNode: `some none` is that it returns false.
pub get_cloud_node : ℕ → ℕ → Routes → Option (Option Node)
get_cloud_node node_id id_ignore s =
    (if not (id_ignore == 0)
      then find_offset (s.nodes_count - 1) s.nodes_map id_ignore 1
      else some 0)
    >>= λ offset. search node_id id_ignore offset s >>= or_retry node_id id_ignore s

-- addNode: the entry with the id.
pub find_id : ℕ → List Node → ℕ → Option (ℕ × Node)
find_id id [] idx = none
find_id id (n ∷ nodes) idx =
    let rest = find_id id nodes (idx + 1) in if n.id == id then some (idx, n) else rest

-- The readings of millis(): for the new entry, where the flags changed, and for a direct node.
pub record Times : Type 0 where
  pub created : ℕ
  pub changed : ℕ
  pub refreshed : ℕ

-- Its end: the entry is put behind the others, where the map is full in place of the second one.
pub place_node : Node → Routes → Option (Routes × Bool)
place_node new s =
    if ltb s.nodes_count (length s.nodes_map)
    then some (
      record {
        nodes_map = set s.nodes_map s.nodes_count new;
        nodes_count = (s.nodes_count + 1) % 65536;
      },
      true,
    )
    else none

pub append_node : Node → Routes → Option (Routes × Bool)
append_node new s =
    (if leb max_num_nodes s.nodes_count then delete_route 1 s else some s) >>= place_node new

-- What it does with an entry that has the id already, `n` with its flags set; `num_hops` is the
-- argument, of which the new entry keeps 5 bits.
pub update_found : Node → ℕ → Bool → Times → ℕ → Node → Routes → Option (Routes × Bool)
update_found new num_hops changed t idx n s =
    let kept : Routes = record s { nodes_map = set s.nodes_map idx n } in
    let direct : Node = record n { timestamp = t.refreshed; snr = new.snr; rssi = new.rssi } in
    if n.first_hop == 0
    then if new.first_hop == 0
      then some (record s { nodes_map = set s.nodes_map idx direct }, changed)
      else some (kept, changed)
    else if not (new.first_hop == 0) && ltb n.num_hops num_hops
    then some (kept, changed)
    else delete_route idx kept >>= append_node new

-- Its flags, of which the entry keeps 3 bits.
pub update_flags : Node → Bool → Times → Node → Node
update_flags new changed t n =
    if changed then record n { timestamp = t.changed; flags = new.flags } else n

pub update_node : Node → ℕ → ℕ → Times → ℕ × Node → Routes → Option (Routes × Bool)
update_node new num_hops flags t (idx, n) s =
    let changed = not (flags == n.flags) in
    update_found new num_hops changed t idx (update_flags new changed t n) s

pub add_found : Node → ℕ → ℕ → Times → Option (ℕ × Node) → Routes → Option (Routes × Bool)
add_found new num_hops flags t none s = append_node new s
add_found new num_hops flags t (some found) s = update_node new num_hops flags t found s

-- addNode
pub add_node : ℕ → ℕ → ℕ → ℕ → ℕ → ℕ → Times → Routes → Option (Routes × Bool)
add_node id hop num_hops flags snr rssi t s =
    let new : Node = record {
      id = id;
      flags = flags % 8;
      num_hops = num_hops % 32;
      snr = snr;
      rssi = rssi;
      first_hop = hop;
      timestamp = t.created;
    } in
    add_found new num_hops flags t (find_id id s.nodes_map 0) s

-- clearSubs: the loop from `idx` on.
pub clear_loop : ℕ → ℕ → ℕ → Routes → Option Routes
clear_loop zero id idx s = none
clear_loop (suc fuel) id idx s =
    let next = clear_loop fuel id (idx + 1) s in
    let again = λ (s : Routes). clear_loop fuel id idx s in
    if ltb idx max_num_nodes
    then get_elem? s.nodes_map idx
      >>= (λ n. if n.first_hop == id then delete_route idx s >>= again else next)
    else some s

pub clear_subs : ℕ → ℕ → Routes → Option Routes
clear_subs fuel id s = clear_loop fuel id 1 s

-- cleanMap: the loop from `idx` on; `now` are the readings of millis(), by the turns left.
pub clean_loop : ℕ → ℕ → (ℕ → ℕ) → ℕ → Bool → Routes → Option (Routes × Bool)
clean_loop zero subs_fuel now idx up_to_date s = none
clean_loop (suc fuel) subs_fuel now idx up_to_date s =
    let next = clean_loop fuel subs_fuel now (idx + 1) up_to_date s in
    let again = λ (s : Routes). clean_loop fuel subs_fuel now idx false s in
    let remove = λ (n : Node).
      (if n.first_hop == 0 then clear_subs subs_fuel n.id s else some s) >>= delete_route idx in
    if ltb idx max_num_nodes
    then get_elem? s.nodes_map idx >>= (λ n.
      if n.id == 0
      then some (s, up_to_date)
      else if ltb ((n.timestamp + node_inactive_timeout) % 2 ^ 32) (now fuel)
          || ltb max_hop_count n.num_hops
      then remove n >>= again
      else next)
    else some (s, up_to_date)

pub clean_map : ℕ → ℕ → (ℕ → ℕ) → Routes → Option (Routes × Bool)
clean_map fuel subs_fuel now s = clean_loop fuel subs_fuel now 1 true s

-- nodeMap: the five bytes of an entry.
pub node_info : Node → List ℕ
node_info n =
    (n.id % 256)
    ∷ (n.id / 2 ^ 8 % 256)
    ∷ (n.id / 2 ^ 16 % 256)
    ∷ (n.id / 2 ^ 24 % 256)
    ∷ bit_or (bit_and n.flags 7 * 2 ^ 5) (bit_and n.num_hops 0x1f)
    ∷ []

-- Its loop, by the entries that the message still takes.
pub map_loop : ℕ → List Node → List (List ℕ)
map_loop zero nodes = []
map_loop (suc room) [] = []
map_loop (suc room) (n ∷ nodes) =
    let rest = map_loop room nodes in if n.id == 0 then [] else node_info n ∷ rest

-- The first entry is the node itself: its flags are set, and it is listed whatever its id is.
pub own_entry : Bool → List Node → List (List ℕ) × List Node
own_entry available [] = ([], [])
own_entry available (n ∷ nodes) =
    let own = record n { flags = if available then 1 else 0 } in
    (node_info own ∷ map_loop (num_nodes_per_msg - 1) nodes, own ∷ nodes)

-- nodeMap; `available` is cloudNetInterfaceAvailable().
pub node_map : Bool → ℕ → Routes → List (List ℕ) × Routes
node_map available zero s = (
  (own_entry available s.nodes_map).0,
  record s { nodes_map = (own_entry available s.nodes_map).1 },
)
node_map available (suc offset) s = (map_loop num_nodes_per_msg (drop (suc offset) s.nodes_map), s)

-- numOfNodes and getNode, which returns false for `some none`.
pub num_of_nodes : Routes → ℕ
num_of_nodes s = s.nodes_count

pub get_node : ℕ → Routes → Option (Option (ℕ × ℕ × ℕ))
get_node node_num s =
    if leb (num_of_nodes s) node_num
    then some none
    else get_elem? s.nodes_map node_num >>= λ n. some (some (n.id, n.first_hop, n.num_hops))

-- `broadcastList` and `broadcastIndex`
pub record Broadcasts : Type 0 where
  pub broadcast_list : List ℕ
  pub broadcast_index : ℕ

pub is_listed : ℕ → List ℕ → Bool
is_listed id [] = false
is_listed id (b ∷ bs) = id == b || is_listed id bs

-- isOldBroadcast
pub is_old_broadcast : ℕ → Broadcasts → Option (Bool × Broadcasts)
is_old_broadcast id s =
    let next = (s.broadcast_index + 1) % 256 in
    if is_listed id s.broadcast_list
    then some (true, s)
    else if ltb s.broadcast_index (length s.broadcast_list)
    then some (
      false,
      record {
        broadcast_list = set s.broadcast_list s.broadcast_index id;
        broadcast_index = if next == num_of_last_broadcasts then 0 else next;
      },
    )
    else none
