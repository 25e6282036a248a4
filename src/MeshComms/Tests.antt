-- ===== src/MeshComms/Tests.antt =====
-- The messages and the states at concrete inputs.
use edge_pdl.Prelude.{
  ℕ, ◌<◌, none, true, false, [], ◌∷◌, ◌⊎◌, ◌≡◌, refl, arith, some, List, ◌++◌, All, All-replicate,
  replicate,
}
use edge_pdl.MeshRoute.{Node, no_node, Routes, get_route}
use edge_pdl.MeshRoute.Live.{IsFree, get_route_lem}
use edge_pdl.MeshSend.{Message, no_message, Mesh, idle, is_empty}
use edge_pdl.MeshSend.Slots.{IsOccupied, filled}
use edge_pdl.MeshComms.{
  at_cloud, Comms, success, Answers, init, cycle, Request, comms_send, hand_in, mesh_header,
  payload_header,
}
use edge_pdl.MeshComms.Cycle.{started, cycled, IsGood, Reachable-IsGood}
use edge_pdl.MeshComms.Send.{message_of, comms_send_lem}

abbrev comms : Comms
comms = record {
  state = at_cloud;
  force_sync = true;
  last_cloud_connected = 5;
  message_counter = 9;
}

-- Offline for more than two minutes, and then a synchronisation that succeeds.
abbrev offline : Answers
offline = record {
  available = false;
  now = 120001;
  sync_result = success;
  last_sync = 0;
  cloud_ok = true;
  command_ok = true;
  update_ok = true;
}

Reachable-IsGood_example :
    IsGood
      (cycle offline (cycle offline (init comms)).1).1.state
      (cycle offline (cycle offline (init comms)).1).1.force_sync
Reachable-IsGood_example =
    Reachable-IsGood (cycle offline (cycle offline (init comms)).1).1
      (cycled offline (cycled offline (started comms)))

mesh_header_test : mesh_header 7 9 8 ≡ 76 ∷ 82 ∷ 77 ∷ 2 ∷ 9 ∷ 0 ∷ 0 ∷ 0 ∷ 8 ∷ 0 ∷ 0 ∷ 0 ∷ []
unfolding mesh_header
mesh_header_test = refl

abbrev request : Request
request = record { method = 2; endpoint = 2; idx = 1; partial = 0; content = []; len = 234 }

payload_header_test : payload_header 258 request ≡ 2 ∷ 1 ∷ 234 ∷ 42 ∷ []
unfolding payload_header
payload_header_test = refl

-- More than 233 bytes do not fit the array that they are copied into.
hand_in_test : (mesh : Mesh) → hand_in 7 9 8 258 request true comms mesh ≡ none
unfolding hand_in
hand_in_test mesh = refl

-- Node 7 sends node 9 two bytes over node 8.
abbrev over : Node
over = record no_node { id = 9; first_hop = 8 }

abbrev two_bytes : Request
two_bytes = record { method = 2; endpoint = 2; idx = 0; partial = 0; content = 5 ∷ 6 ∷ []; len = 2 }

abbrev empty_mesh : Mesh
empty_mesh = record {
  messages = no_message ∷ [];
  state = idle;
  channel_detect = 0;
  retry_num = 0;
  tx_timeout = 0;
  tx_error = 0;
  rx_error = 0;
  cad_busy = 0;
}

abbrev live : List Node
live = record no_node { id = 7 } ∷ over ∷ []

abbrev known_routes : Routes
known_routes = record { nodes_map = live ++ replicate 238 no_node; nodes_count = 2 }

route_found : get_route 9 known_routes ≡ some over
route_found =
    get_route_lem 9 known_routes live
      (record {
        dead = replicate 238 no_node;
        map_eq = refl;
        count_eq = refl;
        map_length = refl;
        live_ids = (omega arith, (omega arith, tt));
        dead_ids = All-replicate IsFree 238 no_node refl;
      })
      (omega arith)

comms_send_lem_example :
    (id : ℕ) × ((9 < 65535) × (id ≡ 10) ⊎ (◌≡◌ {A = ℕ} 9 65535) × (id ≡ 1))
    × (((true ≡ false) ⊎ All IsOccupied (no_message ∷ []))
          × ((mesh' : Mesh) × (comms_send 7 9 0 two_bytes true known_routes comms empty_mesh
                ≡ some (0, record comms { message_counter = id }, mesh')))
        ⊎ (true ≡ true)
          × ((xs : List Message) × (m : Message) × (ys : List Message) × (no_message ∷ []
                ≡ xs ++ m ∷ ys)
              × All IsOccupied xs
              × (is_empty m ≡ true)
              × (comms_send 7 9 0 two_bytes true known_routes comms empty_mesh
                  ≡ some (
                    id,
                    record comms { message_counter = id },
                    record empty_mesh {
                      messages = xs ++ filled (message_of 7 over id two_bytes) 22 m ∷ ys;
                    },
                  ))))
comms_send_lem_example =
    comms_send_lem 7 9 two_bytes true known_routes comms empty_mesh over route_found (omega arith)
      (omega arith) (refl, tt) (omega arith)
