-- ===== src/MeshRoute/Tests.antt =====
-- The map of nodes at concrete inputs.
use edge_pdl.Prelude.{
  get_elem?, ◌⊎◌, ◌≢◌, All, false, ℕ, Option, some, ◌>>=◌, true, List, [], ◌∷◌, ◌++◌, replicate,
  All-replicate, ◌≡◌, refl, arith,
}
use edge_pdl.MeshRoute.{
  Node, Routes, Times, no_node, delete_route, get_route, add_node, clear_subs, clear_loop,
  clean_map, clean_loop, node_map, own_entry, map_loop, node_info, get_node, num_of_nodes,
  get_cloud_node, Broadcasts, is_old_broadcast,
}
use edge_pdl.MeshRoute.Live.{Shows, HasId, IsFree, get_route_lem, delete_route_lem}
use edge_pdl.MeshRoute.Clear.{Tidy, IsElsewhere, clear_subs_lem}
use edge_pdl.MeshRoute.Add.{Adds, add_node-Adds, add_node_full}
use edge_pdl.MeshRoute.Cloud.{Parent, get_cloud_node-Parent}
use edge_pdl.MeshRoute.Broadcast.{IsBroadcasts, remembered, is_old_broadcast_lem}

abbrev node : ℕ → ℕ → Node
node id first_hop = record {
  id = id;
  flags = 1;
  num_hops = 1;
  snr = 0;
  rssi = 0;
  first_hop = first_hop;
  timestamp = 0;
}

abbrev routes : Routes
routes = record {
  nodes_map = node 7 0 ∷ node 8 0 ∷ node 9 8 ∷ replicate 237 no_node;
  nodes_count = 3;
}

abbrev live : List Node
live = node 7 0 ∷ node 8 0 ∷ node 9 8 ∷ []

routes-Shows : Shows routes live
routes-Shows = record {
  dead = replicate 237 no_node;
  map_eq = refl;
  count_eq = refl;
  map_length = refl;
  live_ids = (omega arith, (omega arith, (omega arith, tt)));
  dead_ids = All-replicate IsFree 237 no_node refl;
}

get_route_lem_example : get_route 9 routes ≡ some (node 9 8)
get_route_lem_example = get_route_lem 9 routes live routes-Shows (omega arith)

delete_route_lem_example :
    (s' : Routes) × (delete_route 1 routes ≡ some s') × Shows s' (node 7 0 ∷ node 9 8 ∷ [])
delete_route_lem_example =
    delete_route_lem routes (node 7 0 ∷ []) (node 9 8 ∷ []) (node 8 0) routes-Shows

times : Times
times = record { created = 5; changed = 6; refreshed = 7 }

-- Node 9, which was reached over node 8, is heard directly.
add_node-Adds_example : Adds 9 8 live (add_node 9 0 1 0 0 0 times routes)
add_node-Adds_example =
    add_node-Adds 9 0 1 0 0 0 8 times routes live routes-Shows (omega arith) (omega arith)
      (omega arith)

abbrev full : Routes
full = record { nodes_map = node 7 0 ∷ node 8 0 ∷ replicate 238 (node 9 8); nodes_count = 240 }

full-Shows : Shows full (node 7 0 ∷ node 8 0 ∷ replicate 238 (node 9 8))
full-Shows = record {
  dead = [];
  map_eq = refl;
  count_eq = refl;
  map_length = refl;
  live_ids = (omega arith, (omega arith, All-replicate HasId 238 (node 9 8) (omega arith)));
  dead_ids = tt;
}

add_node_full_example :
    (s' : Routes) × (add_node 10 8 2 1 0 0 (record { created = 5; changed = 6; refreshed = 7 }) full
      ≡ some (s', true))
    × Shows s' (
        node 7 0 ∷ replicate 238 (node 9 8)
        ++ record {
          id = 10;
          flags = 1;
          num_hops = 2;
          snr = 0;
          rssi = 0;
          first_hop = 8;
          timestamp = 5;
        }
          ∷ [])
add_node_full_example =
    add_node_full 10 8 2 1 0 0 (record { created = 5; changed = 6; refreshed = 7 }) full (node 7 0)
      (node 8 0) (replicate 238 (node 9 8)) full-Shows refl (omega arith) refl

get_cloud_node-Parent_example :
    (r : Option Node) × (get_cloud_node 7 8 routes ≡ some r) × Parent 7 r
get_cloud_node-Parent_example = get_cloud_node-Parent 7 8 routes live routes-Shows (omega arith)

abbrev ring : Broadcasts
ring = record { broadcast_list = replicate 10 0; broadcast_index = 9 }

is_old_broadcast_lem_example :
    ((i : ℕ) × (get_elem? ring.broadcast_list i ≡ some 3)
      × (is_old_broadcast 3 ring ≡ some (true, ring)))
    ⊎ All (λ b. b ≢ 3) ring.broadcast_list
      × (is_old_broadcast 3 ring ≡ some (false, remembered 3 ring))
      × IsBroadcasts (remembered 3 ring)
      × (is_old_broadcast 3 (remembered 3 ring) ≡ some (true, remembered 3 ring))
is_old_broadcast_lem_example =
    is_old_broadcast_lem 3 ring (record { list_length = refl; index_lt = omega arith })

get_node_test : get_node 2 routes ≡ some (some (9, 8, 1))
unfolding get_node num_of_nodes
get_node_test = refl

node_map_test :
    (node_map true 1 routes).0 ≡ (8 ∷ 0 ∷ 0 ∷ 0 ∷ 0x21 ∷ []) ∷ (9 ∷ 0 ∷ 0 ∷ 0 ∷ 0x21 ∷ []) ∷ []
unfolding node_map own_entry map_loop node_info
node_map_test = refl

-- Node 9 leaves with the node that it is reached over.
clear_subs_test : (clear_subs 300 8 routes >>= λ s. some s.nodes_count) ≡ some 2
unfolding clear_subs clear_loop delete_route
clear_subs_test = refl

-- Both nodes timed out: the second one leaves with the first.
clean_map_test : (clean_map 10 300 (λ turns. 300001) routes >>= λ r. some r.0.nodes_count) ≡ some 1
unfolding clean_map clean_loop clear_subs clear_loop delete_route
clean_map_test = refl

-- Node 9 is reached over node 8, and node 8 directly.
clear_subs_lem_example :
    (s' : Routes) × (clear_subs 480 8 routes ≡ some s') × Tidy 8 s' (node 7 0 ∷ node 8 0 ∷ [])
clear_subs_lem_example =
    clear_subs_lem 8 480 routes (node 7 0) (node 8 0 ∷ node 9 8 ∷ [])
      (record {
        shows = record {
          dead = replicate 237 no_node;
          map_eq = refl;
          count_eq = refl;
          map_length = refl;
          live_ids = (omega arith, (omega arith, (omega arith, tt)));
          dead_ids = All-replicate IsFree 237 no_node refl;
        };
        dead_elsewhere = All-replicate (IsElsewhere 8) 237 no_node refl;
        room = omega arith;
      })
      (omega arith)
