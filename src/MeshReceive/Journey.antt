-- ===== src/MeshReceive/Journey.antt =====
-- Messages of lora_mesh.c on their way between nodes.
use edge_pdl.Prelude.{ℕ, ◌+◌, ◌^◌, ◌≤◌, ◌<◌, some, ◌>>=◌, >>=_assoc, true, false}
use edge_pdl.Prelude.{
  ◌==◌, List, [], ◌∷◌, ◌++◌, length, length-append, AllBytes, ◌≡◌, refl, ap, ◌∙◌, arith,
}
use edge_pdl.EdgePayload.Header.{le_bytes32}
use edge_pdl.MeshRoute.{Node, get_route}
use edge_pdl.MeshSend.{
  Message, Mesh, idle, listen, start_cad, send, process_send_queue, on_cad_done,
}
use edge_pdl.MeshSend.Transmit.{crc_of, crc_bytes, queued_message, transmit}
use edge_pdl.MeshReceive.{Station, Reception, on_message, on_rx_done, pass_on}
use edge_pdl.MeshReceive.Packet.{ready, report, on_rx_done_intact}
use edge_pdl.MeshReceive.Handlers.{message, next_message, direct_lem, forward_lem}

-- A message and its CRC.
abbrev pub framed : List ℕ → List ℕ
framed content = content ++ crc_bytes (crc_of content)

-- The reception of a packet.
pub record Receives (r : Reception) (packet : List ℕ) : Type 0 where
  pub packet_eq : r.packet ≡ packet
  pub size_eq : r.size ≡ length packet

-- A reception of a packet.
abbrev pub reception_of : Reception → List ℕ → Reception
reception_of r packet = record r { packet = packet; size = length packet }

word-AllBytes : (x : ℕ) (bs : List ℕ) → AllBytes bs → AllBytes (le_bytes32 x ++ bs)
word-AllBytes x bs h = (omega arith, (omega arith, (omega arith, (omega arith, h))))

words-AllBytes :
    (src dst orig : ℕ) (bs : List ℕ)
    → AllBytes bs
    → AllBytes (le_bytes32 src ++ (le_bytes32 dst ++ (le_bytes32 orig ++ bs)))
words-AllBytes src dst orig bs h =
    word-AllBytes src (le_bytes32 dst ++ (le_bytes32 orig ++ bs))
      (word-AllBytes dst (le_bytes32 orig ++ bs) (word-AllBytes orig bs h))

module _ (fuel node_id : ℕ) (r : Reception) (t : Station) (type src dst orig : ℕ) (content : List ℕ)
    (got : Receives r (framed (message type src dst orig content))) (small : type < 256)
    (bytes : AllBytes content) (short : length content ≤ 237) where
  arrives :
      (rest : List ℕ) × (on_rx_done fuel node_id r t
        ≡ on_message fuel node_id r
            (message type src dst orig (content ++ rest))
            (16 + length content)
            (ready t)
          >>= report)
  arrives =
      let body : List ℕ =
        type ∷ (le_bytes32 src ++ (le_bytes32 dst ++ (le_bytes32 orig ++ content))) in
      let (rest, size, e) =
        on_rx_done_intact fuel node_id r t body got.packet_eq
          (got.size_eq
            ∙ omega (
              arith,
              length-append content (crc_bytes (crc_of (message type src dst orig content))),
            ))
          (small, words-AllBytes src dst orig content bytes) (omega arith) (omega (arith, short)) in
      (
        rest,
        e
            ∙ ap
                (λ n.
                  on_message fuel node_id r (message type src dst orig (content ++ rest)) n
                    (ready t)
                  >>= report)
                (omega arith),
      )

-- A packet of a message of type DIRECT for this node.
delivered :
    (fuel src dst orig : ℕ) (content : List ℕ) (r : Reception) (t : Station)
    → Receives r (framed (message 1 src dst orig content))
    → AllBytes content
    → length content ≤ 237
    → dst < 2 ^ 32
    → orig < 2 ^ 32
    → (rest : List ℕ) × (on_rx_done fuel dst r t
        ≡ some (
          listen ∷ [],
          record { from = orig; data_from = content ++ rest; size = length content } ∷ [],
          ready t,
        ))
delivered fuel src dst orig content r t got bytes short p q =
    let (rest, e) = arrives fuel dst r t 1 src dst orig content got (omega arith) bytes short in
    (
      rest,
      e
          ∙ ap (λ m. m >>= report)
              (direct_lem fuel dst r src dst orig (content ++ rest) (16 + length content) (ready t)
                p q)
          ∙ rw same (
              ap
                (λ n. some (
                  listen ∷ [],
                  record { from = orig; data_from = content ++ rest; size = n } ∷ [],
                  ready t,
                ))
                (omega arith)),
    )
  where
    same : (dst == dst) ≡ true
    same = ground arith

-- A message of type DIRECT to a neighbour: what its queue, the CRC and the radio make of it is a packet
-- that OnRxDone of the neighbour delivers, with the origin and the data of the message, and with
-- nothing but its radio changed.
pub sent-delivered :
    (s : Mesh) (xs ys : List Message) (free : List ℕ) (crc src dst orig : ℕ) (content : List ℕ)
    (fuel now later delay : ℕ) (r : Reception) (t : Station)
    → s.messages ≡ xs ++ queued_message (message 1 src dst orig content) free crc ∷ ys
    → s.state ≡ idle
    → s.channel_detect ≡ 0
    → AllBytes content
    → length content ≤ 237
    → 2 ≤ length free
    → dst < 2 ^ 32
    → orig < 2 ^ 32
    → (s₁ : Mesh) × (process_send_queue now (some (length xs)) s ≡ some (start_cad ∷ [], s₁))
      × ((packet : List ℕ) × (s₂ : Mesh) × (on_cad_done false later delay (some (length xs)) s₁
            ≡ some (send packet ∷ [], s₂))
          × ((rest : List ℕ) × (on_rx_done fuel dst (reception_of r packet) t
                ≡ some (
                  listen ∷ [],
                  record { from = orig; data_from = content ++ rest; size = length content } ∷ [],
                  ready t,
                ))))
sent-delivered s xs ys free crc src dst orig content fuel now later delay r t queued is_idle no_wait
      bytes short room p q =
    let (s₁, started, on_air, (s₂, sent, cleared)) =
      transmit s xs ys (message 1 src dst orig content) free crc queued message_bytes room
        (omega (arith, short)) is_idle no_wait now later delay in
    (
      s₁,
      started,
      (
        framed (message 1 src dst orig content),
        s₂,
        sent,
        delivered fuel src dst orig content
            (reception_of r (framed (message 1 src dst orig content))) t
            (record { packet_eq = refl; size_eq = refl }) bytes short p q,
      ),
    )
  where
    message_bytes : AllBytes (message 1 src dst orig content)
    message_bytes = (
      omega arith,
      (omega arith, (omega arith, (omega arith, words-AllBytes src dst orig content bytes))),
    )

-- A packet of a message of type FORWARD for this node, which has a route to the destination that its
-- source field names: OnRxDone delivers nothing and hands meshSendRequest the message for the next
-- node, straight to the destination where that is a neighbour, with the same origin and data and as
-- long as it was.
pub on_rx_done-forwards :
    (fuel node_id : ℕ) (r : Reception) (t : Station) (src orig : ℕ) (content : List ℕ) (n : Node)
    → Receives r (framed (message 2 src node_id orig content))
    → AllBytes content
    → length content ≤ 237
    → src < 2 ^ 32
    → node_id < 2 ^ 32
    → orig < 2 ^ 32
    → r.taken ≡ true
    → get_route src t.routes ≡ some n
    → (rest : List ℕ) × (on_rx_done fuel node_id r t
        ≡ pass_on
            (next_message n src orig (content ++ rest))
            (16 + length content)
            r.queued
            (ready t)
          >>= λ passed. some (listen ∷ [], [], passed))
on_rx_done-forwards fuel node_id r t src orig content n got bytes short p d q taken route =
    let (rest, e) =
      arrives fuel node_id r t 2 src node_id orig content got (omega arith) bytes short in
    (
      rest,
      e
          ∙ ap (λ m. m >>= report)
              (forward_lem fuel node_id r src orig (content ++ rest) (16 + length content) (ready t)
                n p d q taken route)
          ∙ >>=_assoc
              (pass_on (next_message n src orig (content ++ rest)) (16 + length content) r.queued
                (ready t))
              _ _,
    )
