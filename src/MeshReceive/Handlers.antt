-- ===== src/MeshReceive/Handlers.antt =====
-- What OnRxDone of lora_mesh.c does with the messages of each type.
use edge_pdl.Prelude.{ℕ, ◌-◌, ◌/◌, ◌%◌, ◌^◌, ◌<◌, some, ◌>>=◌, true, Bool-cases, inl, inr}
use edge_pdl.Prelude.{if◌then◌else◌, ◌==◌, List, [], ◌∷◌, ◌++◌, ◌≡◌, refl, ap, ap₂, arith}
use edge_pdl.EdgePayload.Header.{le_bytes32}
use edge_pdl.MeshRoute.{Node, get_route}
use edge_pdl.MeshReceive.{
  Station, Reception, load16, load32, store16, store32, on_direct, on_forward, on_message,
  readdress, pass_on, forward, silent,
}

-- A message: its type, source, destination and origin, and what follows.
abbrev pub message : ℕ → ℕ → ℕ → ℕ → List ℕ → List ℕ
message type src dst orig rest =
    76 ∷ 82 ∷ 77 ∷ type ∷ (le_bytes32 src ++ (le_bytes32 dst ++ (le_bytes32 orig ++ rest)))

-- The four bytes that a store leaves.
stored_word :
    (a : ℕ)
    → (a % 2 ^ 16 % 256)
        ∷ (a % 2 ^ 16 / 2 ^ 8 % 256)
        ∷ (a / 2 ^ 16 % 256)
        ∷ (a / 2 ^ 16 / 2 ^ 8 % 256)
        ∷ []
      ≡ le_bytes32 a
stored_word a =
    let second : a % 2 ^ 16 / 2 ^ 8 % 256 ≡ a / 2 ^ 8 % 256 = omega arith in
    let first : a % 2 ^ 16 % 256 ≡ a % 256 = omega arith in
    let fourth : a / 2 ^ 16 / 2 ^ 8 % 256 ≡ a / 2 ^ 24 % 256 = omega arith in
    λ i. first i ∷ second i ∷ (a / 2 ^ 16 % 256) ∷ fourth i ∷ []

-- The message for the next node: straight to its destination, which stands in the source's place, or
-- to the next node on the way.
abbrev pub next_message : Node → ℕ → ℕ → List ℕ → List ℕ
next_message n src orig rest =
    if n.first_hop == 0 then message 1 orig src orig rest else message 2 src n.first_hop orig rest

-- The words of a header.
module _ (type src dst orig : ℕ) (rest : List ℕ) where
  pub src_word : src < 2 ^ 32 → load32 (message type src dst orig rest) 4 ≡ some src
  unfolding load32 load16
  src_word h = ap some (omega (arith, h))

  pub dst_word : dst < 2 ^ 32 → load32 (message type src dst orig rest) 8 ≡ some dst
  unfolding load32 load16
  dst_word h = ap some (omega (arith, h))

  orig_word : orig < 2 ^ 32 → load32 (message type src dst orig rest) 12 ≡ some orig
  unfolding load32 load16
  orig_word h = ap some (omega (arith, h))

  readdress_lem :
      (n : Node)
      → readdress (message type src dst orig rest) src orig n ≡ next_message n src orig rest
  unfolding readdress store32 store16
  readdress_lem n = elim (Bool-cases (n.first_hop == 0)) [
    | inl direct ↦ rw direct (
        ap₂ (λ (x y : List ℕ). 76 ∷ 82 ∷ 77 ∷ 1 ∷ (x ++ (y ++ (le_bytes32 orig ++ rest))))
          (stored_word orig) (stored_word src))
    | inr hop ↦ rw hop (
        ap (λ (y : List ℕ). 76 ∷ 82 ∷ 77 ∷ 2 ∷ (le_bytes32 src ++ (y ++ (le_bytes32 orig ++ rest))))
          (stored_word n.first_hop))
  ]

-- A message of type DIRECT: it is delivered where it is for this node, and dropped where not.
pub direct_lem :
    (fuel node_id : ℕ) (r : Reception) (src dst orig : ℕ) (rest : List ℕ) (len : ℕ) (s : Station)
    → dst < 2 ^ 32
    → orig < 2 ^ 32
    → on_message fuel node_id r (message 1 src dst orig rest) len s ≡ (
        if dst == node_id
        then some (record { from = orig; data_from = rest; size = len - 16 } ∷ [], s)
        else some (silent s))
unfolding on_message on_direct
direct_lem fuel node_id r src dst orig rest len s p q =
    rw (dst_word 1 src dst orig rest p, orig_word 1 src dst orig rest q) refl

-- A message of type FORWARD for this node: it goes on to the next node, where there is a route.
pub forward_lem :
    (fuel node_id : ℕ) (r : Reception) (src orig : ℕ) (rest : List ℕ) (len : ℕ) (s : Station)
    (n : Node)
    → src < 2 ^ 32
    → node_id < 2 ^ 32
    → orig < 2 ^ 32
    → r.taken ≡ true
    → get_route src s.routes ≡ some n
    → on_message fuel node_id r (message 2 src node_id orig rest) len s
      ≡ pass_on (next_message n src orig rest) len r.queued s >>= (λ t. some (silent t))
unfolding on_message on_forward forward
forward_lem fuel node_id r src orig rest len s n p d q taken route =
    rw
      (
        src_word 2 src node_id orig rest p,
        dst_word 2 src node_id orig rest d,
        orig_word 2 src node_id orig rest q,
        same,
        taken,
        route,
        readdress_lem 2 src node_id orig rest n,
      )
      refl
  where
    same : (node_id == node_id) ≡ true
    same = ground arith
