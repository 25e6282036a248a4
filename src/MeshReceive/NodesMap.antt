-- ===== src/MeshReceive/NodesMap.antt =====
-- A message with a map of nodes, between nodeMap of mesh_route.c and OnRxDone of lora_mesh.c.
use edge_pdl.Prelude.{
  ℕ, ◌+◌, ◌-◌, ◌*◌, ◌/◌, ◌%◌, ◌^◌, ◌≤◌, ◌<◌, Option, some, ◌>>=◌, >>=_cong, >>=_assoc, bit_and,
  true,
}
use edge_pdl.Prelude.{
  if◌then◌else◌, ◌==◌, List, [], ◌∷◌, ◌++◌, length, length-append, get_elem?, All, AllBytes,
  append_assoc, ◌≡◌, refl, sym, ap, ◌∙◌, arith,
}
use edge_pdl.Bits.{bit_and_five, bit_and_three, bit_and_high, bit_or_fields}
use edge_pdl.EdgePayload.Header.{le_bytes32}
use edge_pdl.MeshRoute.{Node, node_info, clear_subs, add_node}
use edge_pdl.MeshRoute.Live.{get_elem?-append}
use edge_pdl.MeshRoute.Map.{node_info_byte, node_info_lem}
use edge_pdl.MeshSend.{listen}
use edge_pdl.MeshSend.Transmit.{crc_of, crc_bytes}
use edge_pdl.MeshReceive.{
  Station, Reception, load16, load32, add_sub, add_subs, on_nodes_map, on_message, on_rx_done,
}
use edge_pdl.MeshReceive.Packet.{load16_at, ready, report, on_rx_done_intact}
use edge_pdl.MeshReceive.Journey.{framed, Receives}

-- The rows of a map, one behind the other.
abbrev pub rows : List Node → List ℕ
rows [] = []
rows (n ∷ nodes) = node_info n ++ rows nodes

-- A map message of `src`.
abbrev pub map_message : ℕ → List ℕ → List ℕ
map_message src rest = 76 ∷ 82 ∷ 77 ∷ 4 ∷ (le_bytes32 src ++ (le_bytes32 0 ++ rest))

-- What a node learns of an entry in the map of `src`, the entry with the number `idx`.
abbrev pub learn : ℕ → ℕ → Reception → ℕ → Node → Station → Option Station
learn node_id src r idx n s =
    if n.id == node_id
    then some s
    else (if n.id == src
        then add_node n.id 0 0 (n.flags % 8) r.snr r.rssi (r.times idx) s.routes
        else add_node n.id src (n.num_hops % 32 + 1) (n.flags % 8) 128 32768 (r.times idx) s.routes)
      >>= λ added. some (record s { routes = added.0; nodes_changed = true })

abbrev pub learn_all : ℕ → ℕ → Reception → ℕ → List Node → Station → Option Station
learn_all node_id src r idx [] s = some s
learn_all node_id src r idx (n ∷ nodes) s =
    learn node_id src r idx n s >>= learn_all node_id src r (idx + 1) nodes

-- Ids are words.
abbrev pub HasWordId : Node → Type 0
HasWordId n = n.id < 2 ^ 32

pub load32_at :
    (xs ys : List ℕ) (at a b c d : ℕ)
    → at ≡ length xs
    → load32 (xs ++ a ∷ b ∷ c ∷ d ∷ ys) at ≡ some (a + 256 * b + 2 ^ 16 * (c + 256 * d))
unfolding load32
load32_at xs ys at a b c d e = rw (lower, upper) refl
  where
    lower : load16 (xs ++ a ∷ b ∷ c ∷ d ∷ ys) at ≡ some (a + 256 * b)
    lower = ap (load16 (xs ++ a ∷ b ∷ c ∷ d ∷ ys)) e ∙ load16_at xs (c ∷ d ∷ ys) a b

    upper : load16 (xs ++ a ∷ b ∷ c ∷ d ∷ ys) (at + 2) ≡ some (c + 256 * d)
    upper =
        ap (λ t. load16 t (at + 2)) (sym (append_assoc xs (a ∷ b ∷ []) (c ∷ d ∷ ys)))
        ∙ ap (load16 ((xs ++ a ∷ b ∷ []) ++ c ∷ d ∷ ys))
            (omega (arith, e, length-append xs (a ∷ b ∷ [])))
        ∙ load16_at (xs ++ a ∷ b ∷ []) ys c d

byte_at :
    (xs ys : List ℕ) (at a b c d x : ℕ)
    → at ≡ length xs + 4
    → get_elem? (xs ++ a ∷ b ∷ c ∷ d ∷ x ∷ ys) at ≡ some x
byte_at xs ys at a b c d x e =
    ap (λ t. get_elem? t at) (sym (append_assoc xs (a ∷ b ∷ c ∷ d ∷ []) (x ∷ ys)))
    ∙ ap (get_elem? ((xs ++ a ∷ b ∷ c ∷ d ∷ []) ++ x ∷ ys))
        (omega (arith, e, length-append xs (a ∷ b ∷ c ∷ d ∷ [])))
    ∙ get_elem?-append (xs ++ a ∷ b ∷ c ∷ d ∷ []) ys x

-- The byte with the flags and the hops.
flags_lem : (n : Node) → bit_and (node_info_byte n) 0xe0 / 2 ^ 5 ≡ n.flags % 8
flags_lem n = omega (
  arith,
  bit_and_high (node_info_byte n),
  bit_and_three n.flags,
  bit_and_five n.num_hops,
  bit_or_fields 5 (bit_and n.flags 7) (bit_and n.num_hops 0x1f)
      (omega (arith, bit_and_five n.num_hops)),
)

hops_lem : (n : Node) → bit_and (node_info_byte n) 0x1f ≡ n.num_hops % 32
hops_lem n = omega (
  arith,
  bit_and_five (node_info_byte n),
  bit_and_three n.flags,
  bit_and_five n.num_hops,
  bit_or_fields 5 (bit_and n.flags 7) (bit_and n.num_hops 0x1f)
      (omega (arith, bit_and_five n.num_hops)),
)

-- One entry, wherever it stands.
add_sub_lem :
    (node_id src : ℕ) (r : Reception) (xs ys : List ℕ) (idx : ℕ) (n : Node) (s : Station)
    → length xs ≡ 12 + 5 * idx
    → n.id < 2 ^ 32
    → add_sub node_id src r (xs ++ (node_info n ++ ys)) idx s ≡ learn node_id src r idx n s
unfolding add_sub
add_sub_lem node_id src r xs ys idx n s here small =
    rw (node_info_lem n, id_read, info_read, flags_lem n, hops_lem n) refl
  where
    row : List ℕ
    row =
        xs
        ++ (n.id % 256)
          ∷ (n.id / 2 ^ 8 % 256)
          ∷ (n.id / 2 ^ 16 % 256)
          ∷ (n.id / 2 ^ 24 % 256)
          ∷ node_info_byte n
          ∷ ys

    id_read : load32 row (12 + 5 * idx) ≡ some n.id
    id_read =
        load32_at xs (node_info_byte n ∷ ys) (12 + 5 * idx) _ _ _ _ (sym here)
        ∙ ap some (omega (arith, small))

    info_read : get_elem? row (16 + 5 * idx) ≡ some (node_info_byte n)
    info_read = byte_at xs ys (16 + 5 * idx) _ _ _ _ (node_info_byte n) (omega (arith, here))

length-node_info : (n : Node) → length (node_info n) ≡ 5
length-node_info n = rw (node_info_lem n) refl

length-rows : (nodes : List Node) → length (rows nodes) ≡ 5 * length nodes
length-rows [] = refl
length-rows (n ∷ nodes) =
    omega (arith, length-append (node_info n) (rows nodes), length-node_info n, length-rows nodes)

rows-AllBytes : (nodes : List Node) → AllBytes (rows nodes)
rows-AllBytes [] = tt
rows-AllBytes (n ∷ nodes) =
    rw (node_info_lem n)
      (omega arith, (omega arith, (omega arith, (omega arith, (last_byte, rows-AllBytes nodes)))))
  where
    last_byte : node_info_byte n < 256
    last_byte = omega (
      arith,
      bit_and_three n.flags,
      bit_and_five n.num_hops,
      bit_or_fields 5 (bit_and n.flags 7) (bit_and n.num_hops 0x1f)
          (omega (arith, bit_and_five n.num_hops)),
    )

-- The entries of a map, from one on.
add_subs_lem :
    (node_id src : ℕ) (r : Reception) (nodes : List Node) (xs ys : List ℕ) (idx : ℕ) (s : Station)
    → length xs ≡ 12 + 5 * idx
    → All HasWordId nodes
    → add_subs (length nodes) node_id src r (xs ++ (rows nodes ++ ys)) idx s
      ≡ learn_all node_id src r idx nodes s
unfolding add_subs
add_subs_lem node_id src r [] xs ys idx s here small = refl
add_subs_lem node_id src r (n ∷ nodes) xs ys idx s here (small_n, small) =
    ap (λ t. add_sub node_id src r t idx s >>= add_subs (length nodes) node_id src r t (idx + 1))
      first
    ∙ ap (λ m. m >>= add_subs (length nodes) node_id src r buf (idx + 1))
        (add_sub_lem node_id src r xs (rows nodes ++ ys) idx n s here small_n)
    ∙ >>=_cong (learn node_id src r idx n s) _ _ (λ t.
      ap (λ b. add_subs (length nodes) node_id src r b (idx + 1) t)
        (sym (append_assoc xs (node_info n) (rows nodes ++ ys)))
      ∙ add_subs_lem node_id src r nodes (xs ++ node_info n) ys (idx + 1) t
          (omega (arith, here, length-append xs (node_info n), length-node_info n)) small)
  where
    buf : List ℕ
    buf = xs ++ (node_info n ++ (rows nodes ++ ys))

    first : xs ++ ((node_info n ++ rows nodes) ++ ys) ≡ buf
    first = ap (λ t. xs ++ t) (append_assoc (node_info n) (rows nodes) ys)

-- What a node does with a map that it hears.
abbrev pub hear : ℕ → ℕ → ℕ → Reception → List Node → Station → Option Station
hear fuel node_id src r nodes s = clear_subs fuel src s.routes >>= λ routes.
    learn_all node_id src r 0 nodes (record s { routes = routes })

on_nodes_map_lem :
    (fuel node_id src : ℕ) (r : Reception) (nodes : List Node) (ys : List ℕ) (s : Station)
    → src < 2 ^ 32
    → r.taken ≡ true
    → length nodes ≤ 48
    → All HasWordId nodes
    → on_nodes_map fuel node_id r (map_message src (rows nodes ++ ys)) (12 + 5 * length nodes) s
      ≡ hear fuel node_id src r nodes s
unfolding on_nodes_map
on_nodes_map_lem fuel node_id src r nodes ys s small taken few ids =
    ap (λ b. if b then cleared else some (record s { route_fail = (s.route_fail + 1) % 2 ^ 32 }))
      taken
    ∙ rw src_read (
        >>=_cong (clear_subs fuel src s.routes) _ _ (λ routes.
          ap
            (λ k.
              add_subs k node_id src r (map_message src (rows nodes ++ ys)) 0
                (record s { routes = routes }))
            {y = length nodes} (omega (arith, few))
          ∙ add_subs_lem node_id src r nodes (map_message src []) ys 0
              (record s { routes = routes }) refl ids))
  where
    buf : List ℕ
    buf = map_message src (rows nodes ++ ys)

    cleared : Option Station
    cleared = load32 buf 4 >>= λ sender. clear_subs fuel sender s.routes >>= λ routes.
        add_subs ((12 + 5 * length nodes - 12) % 256 / 5) node_id sender r buf 0
          (record s { routes = routes })

    src_read : load32 (map_message src (rows nodes ++ ys)) 4 ≡ some src
    src_read =
        load32_at (76 ∷ 82 ∷ 77 ∷ 4 ∷ []) (le_bytes32 0 ++ (rows nodes ++ ys)) 4 _ _ _ _ refl
        ∙ ap some (omega (arith, small))

-- A packet of a map message of a node, with up to 48 rows as nodeMap writes them: OnRxDone first clears
-- the nodes reached over the sender, then adds each listed node but itself in their order, the sender
-- as a neighbour and the others with one hop more over the sender. It delivers nothing.
pub on_rx_done-hears :
    (fuel node_id src : ℕ) (r : Reception) (nodes : List Node) (t : Station)
    → Receives r (framed (map_message src (rows nodes)))
    → src < 2 ^ 32
    → r.taken ≡ true
    → 0 < length nodes
    → length nodes ≤ 48
    → All HasWordId nodes
    → on_rx_done fuel node_id r t
      ≡ hear fuel node_id src r nodes (ready t) >>= λ heard. some (listen ∷ [], [], heard)
unfolding on_message
on_rx_done-hears fuel node_id src r nodes t got small taken some_rows few ids =
    let (rest, size, e) =
      on_rx_done_intact fuel node_id r t (4 ∷ (le_bytes32 src ++ (le_bytes32 0 ++ rows nodes)))
        got.packet_eq
        (omega (
          arith,
          got.size_eq,
          length-append (map_message src (rows nodes))
              (crc_bytes (crc_of (map_message src (rows nodes)))),
        ))
        (
          omega arith,
          (
            omega arith,
            (
              omega arith,
              (
                omega arith,
                (
                  omega arith,
                  (omega arith, (omega arith, (omega arith, (omega arith, rows-AllBytes nodes)))),
                ),
              ),
            ),
          ),
        )
        (omega (arith, length-rows nodes, some_rows)) (omega (arith, length-rows nodes, few)) in
    e
    ∙ ap
        (λ n.
          on_message fuel node_id r (map_message src (rows nodes ++ rest)) n (ready t) >>= report)
        {y = 12 + 5 * length nodes} (omega (arith, length-rows nodes))
    ∙ rw (on_nodes_map_lem fuel node_id src r nodes rest (ready t) small taken few ids)
        (>>=_assoc (hear fuel node_id src r nodes (ready t)) _ _)
