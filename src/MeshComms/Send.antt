-- ===== src/MeshComms/Send.antt =====
-- meshCommsSend: the ids that it gives, and the messages that it hands in.
use edge_pdl.Prelude.{
  ℕ, ◌+◌, ◌*◌, ◌/◌, [], ◌∷◌, ◌%◌, ◌^◌, ◌<◌, Bool, false, Bool-cases, inl, inr, ◌==◌, ◌≡◌, refl,
  arith, ◌⊎◌,
}
use edge_pdl.Prelude.{
  none, some, zero, suc, ◌≤◌, List, ◌++◌, length, length-append, length-take, take, All, true,
  if◌then◌else◌, ap, ◌∙◌, leb, le→leb, Option,
}
use edge_pdl.Buffer.{read_bytes-take}
use edge_pdl.EdgePayload.Header.{le_bytes32}
use edge_pdl.MeshRoute.{Node, Routes, get_route}
use edge_pdl.MeshSend.{Message, Mesh, is_empty, send_request}
use edge_pdl.MeshSend.Slots.{IsWhole, IsOccupied, filled, stored, send_request-stored}
use edge_pdl.MeshComms.{
  next_id, Comms, Request, send_new, send_reply, hand_in, payload_header, mesh_header, comms_send,
}

-- The number that follows.
next_id_lem :
    (counter : ℕ)
    → counter < 2 ^ 16
    → (0 < next_id counter)
      × (next_id counter < 2 ^ 16)
      × ((counter < 65535) × (next_id counter ≡ counter + 1)
          ⊎ (counter ≡ 65535) × (next_id counter ≡ 1))
unfolding next_id
next_id_lem counter small = elim (Bool-cases ((counter + 1) % 2 ^ 16 == 0)) [
  | inl wrapped ↦ rw wrapped (omega arith, omega arith, inr (ground (arith, wrapped, small), refl))
  | inr next ↦ rw next (
    ground (arith, next),
    omega arith,
    inl (ground (arith, next, small), ground (arith, next, small)),
  )
]

-- Without a route, nothing is sent under a new id, and a reply goes straight to its destination.
pub no_route :
    (node_id dest : ℕ) (r : Request) (queued : Bool) (routes : Routes) (s : Comms) (mesh : Mesh)
    → get_route dest routes ≡ none
    → comms_send node_id dest 0 r queued routes s mesh ≡ some (0, s, mesh)
unfolding comms_send send_new
no_route node_id dest r queued routes s mesh missing = rw missing refl

pub reply_direct :
    (node_id dest msg_id : ℕ) (r : Request) (queued : Bool) (routes : Routes) (s : Comms)
    (mesh : Mesh)
    → get_route dest routes ≡ none
    → (msg_id == 0) ≡ false
    → comms_send node_id dest msg_id r queued routes s mesh
      ≡ hand_in node_id dest 0 msg_id r queued s mesh
unfolding comms_send send_reply
reply_direct node_id dest msg_id r queued routes s mesh missing given = rw (missing, given) refl

pub payload_header-eq :
    (msg_id : ℕ) (r : Request)
    → payload_header msg_id r
      ≡ (msg_id % 256)
        ∷ (msg_id / 2 ^ 8 % 256)
        ∷ r.len
        ∷ (r.method % 4 + 4 * (r.endpoint % 8) + 32 * (r.idx % 4) + 128 * (r.partial % 2))
        ∷ []
unfolding payload_header
payload_header-eq msg_id r = refl

-- The header of a mesh message: straight to its destination, or over another node.
abbrev pub address : ℕ → ℕ → ℕ → List ℕ
address node_id dest zero = 76 ∷ 82 ∷ 77 ∷ 1 ∷ (le_bytes32 node_id ++ le_bytes32 dest)
address node_id dest (suc hop) = 76 ∷ 82 ∷ 77 ∷ 2 ∷ (le_bytes32 dest ++ le_bytes32 (suc hop))

mesh_header_lem :
    (node_id dest first_hop : ℕ)
    → mesh_header node_id dest first_hop ≡ address node_id dest first_hop
unfolding mesh_header
mesh_header_lem node_id dest zero = refl
mesh_header_lem node_id dest (suc hop) = ground arith

length-address : (node_id dest first_hop : ℕ) → length (address node_id dest first_hop) ≡ 12
length-address node_id dest zero = refl
length-address node_id dest (suc hop) = refl

-- A message with its id, from a node over a route: behind the address its sender, its header and its
-- data.
abbrev pub payload_of : ℕ → ℕ → Request → List ℕ
payload_of node_id id r =
    le_bytes32 node_id
    ++ (id % 256)
      ∷ (id / 2 ^ 8 % 256)
      ∷ r.len
      ∷ (r.method % 4 + 4 * (r.endpoint % 8) + 32 * (r.idx % 4) + 128 * (r.partial % 2))
      ∷ take r.len r.content

abbrev pub message_of : ℕ → Node → ℕ → Request → List ℕ
message_of node_id n id r = address node_id n.id n.first_hop ++ payload_of node_id id r

length-message_of :
    (node_id id : ℕ) (n : Node) (r : Request)
    → r.len ≤ length r.content
    → length (message_of node_id n id r) ≡ r.len + 20
length-message_of node_id id n r known = omega (
  arith,
  known,
  length-address node_id n.id n.first_hop,
  length-take r.len r.content,
  length-append (address node_id n.id n.first_hop) (payload_of node_id id r),
)

module _ (node_id dest : ℕ) (r : Request) (queued : Bool) (routes : Routes) (s : Comms)
    (mesh : Mesh) (n : Node) (route : get_route dest routes ≡ some n) (short : r.len ≤ 233)
    (known : r.len ≤ length r.content) where
  abbrev id : ℕ
  id = next_id s.message_counter

  sends :
      (o : Bool × Mesh)
      → send_request (message_of node_id n id r) (r.len + 4 + 16) queued mesh ≡ some o
      → comms_send node_id dest 0 r queued routes s mesh
        ≡ some (if o.0 then id else 0, record s { message_counter = id }, o.1)
  unfolding comms_send send_new hand_in
  sends o e =
      rw
        (
          route,
          read_bytes-take r.len r.content known,
          mesh_header_lem node_id n.id n.first_hop,
          payload_header-eq id r,
          fits,
          e,
        )
        refl
    where
      fits : leb r.len 233 ≡ true
      fits = le→leb r.len 233 short

  -- meshCommsSend of a new message with at most 233 bytes of data to a destination that has a route,
  -- on entries of their full length: the id is the next number, or 1 after 65535, and so is not 0 and
  -- not the last one, and it is counted whether or not the message is taken. Where there is an empty
  -- entry and the queue takes it, the first empty entry holds the message with the id and the data,
  -- under the address of the route, and the id is returned; else the result is 0.
  pub comms_send_lem :
      All IsWhole mesh.messages
      → s.message_counter < 2 ^ 16
      → (id : ℕ) × ((s.message_counter < 65535) × (id ≡ s.message_counter + 1)
          ⊎ (s.message_counter ≡ 65535) × (id ≡ 1))
        × (((queued ≡ false) ⊎ All IsOccupied mesh.messages)
              × ((mesh' : Mesh) × (comms_send node_id dest 0 r queued routes s mesh
                    ≡ some (0, record s { message_counter = id }, mesh')))
            ⊎ (queued ≡ true)
              × ((xs : List Message) × (m : Message) × (ys : List Message) × (mesh.messages
                    ≡ xs ++ m ∷ ys)
                  × All IsOccupied xs
                  × (is_empty m ≡ true)
                  × (comms_send node_id dest 0 r queued routes s mesh
                      ≡ some (
                        id,
                        record s { message_counter = id },
                        record mesh {
                          messages =
                              xs ++ filled (message_of node_id n id r) (r.len + 4 + 16) m ∷ ys;
                        },
                      ))))
  comms_send_lem whole small = (
    id,
    (next_id_lem s.message_counter small).2,
    elim (send_request-stored (message_of node_id n id r) (r.len + 4 + 16) queued mesh whole
        (omega (arith, short)) (omega (arith, length-message_of node_id id n r known))) [
          | inl (all, e) ↦ inl (inr all, (_, sends _ e))
          | inr (xs, m, ys, eq, all, empty, e) ↦ elim (Bool-cases queued) [
            | inl taken ↦
                inr (taken, (xs, m, ys, eq, all, empty, sends _ e ∙ ap (answered xs m ys) taken))
            | inr refused ↦ inl (inl refused, (_, sends _ e ∙ ap (answered xs m ys) refused))
          ]
        ],
  )
    where
      answered : List Message → Message → List Message → Bool → Option (ℕ × Comms × Mesh)
      answered xs m ys q =
          let o = stored q (message_of node_id n id r) (r.len + 4 + 16) xs m ys mesh in
          some (if o.0 then id else 0, record s { message_counter = id }, o.1)
