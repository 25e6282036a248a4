-- ===== src/MeshReceive/Tests.antt =====
-- Received packets at concrete inputs.
use edge_pdl.Prelude.{
  ◌≢◌, ◌^◌, ◌%◌, ℕ, ◌>>=◌, some, true, false, List, [], ◌∷◌, ◌++◌, length, take, replicate,
  all_bytes-AllBytes, All-replicate, ◌≡◌, refl, arith,
}
use edge_pdl.MeshRoute.{Node, no_node, get_route}
use edge_pdl.MeshRoute.Live.{IsFree, get_route_lem}
use edge_pdl.MeshSend.{
  Message, no_message, Mesh, idle, listen, start_cad, send, process_send_queue, on_cad_done,
}
use edge_pdl.MeshSend.Slots.{IsWhole}
use edge_pdl.MeshSend.Transmit.{crc_of, crc_bytes, queued_message}
use edge_pdl.MeshReceive.{Station, Reception, on_rx_done, pass_on, silent}
use edge_pdl.MeshReceive.Packet.{ready, count_crc, on_rx_done_damaged}
use edge_pdl.MeshReceive.Handlers.{message}
use edge_pdl.MeshReceive.Journey.{framed, reception_of, sent-delivered, on_rx_done-forwards}
use edge_pdl.MeshReceive.NodesMap.{rows, map_message, hear, on_rx_done-hears}
use edge_pdl.MeshReceive.Broadcast.{Heard, hear_broadcast, hear_broadcasts, broadcast_once}

abbrev mesh : List Message → Mesh
mesh messages = record {
  messages = messages;
  state = idle;
  channel_detect = 0;
  retry_num = 0;
  tx_timeout = 0;
  tx_error = 0;
  rx_error = 0;
  cad_busy = 0;
}

abbrev neighbour : Node
neighbour = record {
  id = 9;
  flags = 1;
  num_hops = 0;
  snr = 0;
  rssi = 0;
  first_hop = 0;
  timestamp = 0;
}

abbrev station : Station
station = record {
  mesh = mesh (replicate 8 no_message);
  routes = record {
    nodes_map = record no_node { id = 8 } ∷ neighbour ∷ replicate 238 no_node;
    nodes_count = 2;
  };
  broadcasts = record { broadcast_list = replicate 10 0; broadcast_index = 0 };
  nodes_changed = false;
  msg_invalid = 0;
  msg_crc = 0;
  route_fail = 0;
}

abbrev reception : List ℕ → Reception
reception packet = record {
  packet = packet;
  size = length packet;
  rssi = 5;
  snr = 6;
  taken = true;
  queued = true;
  times = λ idx. record { created = 1; changed = 2; refreshed = 3 };
}

-- A message from node 7 to node 9, straight or over node 8.
abbrev body : List ℕ
body = 1 ∷ 7 ∷ 0 ∷ 0 ∷ 0 ∷ 9 ∷ 0 ∷ 0 ∷ 0 ∷ 7 ∷ 0 ∷ 0 ∷ 0 ∷ 5 ∷ []

-- The same with 6 in place of its last byte.
abbrev damaged : List ℕ
damaged = 76 ∷ 82 ∷ 77 ∷ ((take 13 body ++ 6 ∷ []) ++ crc_bytes (crc_of (76 ∷ 82 ∷ 77 ∷ body)))

on_rx_done_damaged_example :
    on_rx_done 480 9 (reception damaged) station ≡ some (listen ∷ [], [], count_crc (ready station))
on_rx_done_damaged_example =
    on_rx_done_damaged 480 9 (reception damaged) station (take 13 body) [] 5 6 refl refl
      (all_bytes-AllBytes (take 13 body) refl) tt (omega arith) (omega arith) (omega arith)
      (omega arith) (omega arith)

sent-delivered_example :
    (s₁ : Mesh) × (process_send_queue 100
        (some 0)
        (mesh (queued_message (message 1 7 9 7 (5 ∷ [])) (replicate 239 0) 0 ∷ []))
      ≡ some (start_cad ∷ [], s₁))
    × ((packet : List ℕ) × (s₂ : Mesh) × (on_cad_done false 120 7 (some 0) s₁
          ≡ some (send packet ∷ [], s₂))
        × ((rest : List ℕ) × (on_rx_done 480 9 (reception_of (reception []) packet) station
              ≡ some (
                listen ∷ [],
                record { from = 7; data_from = 5 ∷ rest; size = 1 } ∷ [],
                ready station,
              ))))
sent-delivered_example =
    sent-delivered (mesh (queued_message (message 1 7 9 7 (5 ∷ [])) (replicate 239 0) 0 ∷ [])) [] []
      (replicate 239 0) 0 7 9 7 (5 ∷ []) 480 100 120 7 (reception []) station refl refl refl
      (omega arith, tt) (omega arith) (omega arith) (omega arith) (omega arith)

neighbour_found : get_route 9 station.routes ≡ some neighbour
neighbour_found =
    get_route_lem 9 station.routes (record no_node { id = 8 } ∷ neighbour ∷ [])
      (record {
        dead = replicate 238 no_node;
        map_eq = refl;
        count_eq = refl;
        map_length = refl;
        live_ids = (omega arith, (omega arith, tt));
        dead_ids = All-replicate IsFree 238 no_node refl;
      })
      (omega arith)

on_rx_done-forwards_example :
    (rest : List ℕ) × (on_rx_done 480 8 (reception (framed (message 2 9 8 7 (5 ∷ [])))) station
      ≡ pass_on (message 1 7 9 7 (5 ∷ rest)) 17 true (ready station) >>= λ passed.
          some (listen ∷ [], [], passed))
on_rx_done-forwards_example =
    on_rx_done-forwards 480 8 (reception (framed (message 2 9 8 7 (5 ∷ [])))) station 9 7 (5 ∷ [])
      neighbour (record { packet_eq = refl; size_eq = refl }) (omega arith, tt) (omega arith)
      (omega arith) (omega arith) (omega arith) refl neighbour_found

-- A broadcast of node 0x700 that comes again over node 9.
abbrev heard : ℕ → ℕ → Heard
heard src dst = record {
  reception = reception [];
  src = src % 2 ^ 32;
  dst = dst % 2 ^ 32;
  orig = 0x700;
  rest = [];
  len = 16;
  src_word = omega arith;
  dst_word = omega arith;
}

broadcast_once_example :
    (u : Station) × ((hear_broadcast 480 8 (heard 0x700 0x703) station >>= λ r.
    hear_broadcasts 480 8 (heard 0x700 0x704 ∷ []) r.1)
      ≡ some u)
    × (hear_broadcast 480 8 (heard 9 0x703) u ≡ some (silent u))
broadcast_once_example =
    broadcast_once 480 8 (heard 0x700 0x703) (heard 9 0x703) (heard 0x700 0x704 ∷ []) station
      (record { list_length = refl; index_lt = omega arith })
      (All-replicate (λ b. b ≢ 0x703) 10 0 (ground arith)) (All-replicate IsWhole 8 no_message refl)
      (omega arith, omega arith) ((omega arith, omega arith), tt) refl (omega arith)

-- Node 8 hears the map of node 9, which lists node 9 itself and node 7.
abbrev listed : List Node
listed = neighbour ∷ record neighbour { id = 7 } ∷ []

on_rx_done-hears_example :
    on_rx_done 480 8 (reception (framed (map_message 9 (rows listed)))) station
    ≡ hear 480 8 9 (reception (framed (map_message 9 (rows listed)))) listed (ready station)
      >>= λ heard. some (listen ∷ [], [], heard)
on_rx_done-hears_example =
    on_rx_done-hears 480 8 9 (reception (framed (map_message 9 (rows listed)))) listed station
      (record { packet_eq = refl; size_eq = refl }) (omega arith) refl (omega arith) (omega arith)
      (omega arith, (omega arith, tt))
