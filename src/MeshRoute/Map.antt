-- ===== src/MeshRoute/Map.antt =====
-- nodeMap of mesh_route.c: the bytes of a row, and the entries that its loop writes rows for.
use edge_pdl.Prelude.{zero, suc, List, ◌++◌, map, take, All, ℕ, ◌*◌, ◌/◌, ◌%◌, ◌^◌, bit_and, bit_or}
use edge_pdl.Prelude.{[], ◌∷◌, ◌≡◌, refl, arith}
use edge_pdl.MeshRoute.{Node, node_info, map_loop}
use edge_pdl.MeshRoute.Live.{HasId, IsFree}

-- The bytes of a row: the id, and the flags above the hops.
abbrev pub node_info_byte : Node → ℕ
node_info_byte n = bit_or (bit_and n.flags 7 * 2 ^ 5) (bit_and n.num_hops 0x1f)

pub node_info_lem :
    (n : Node)
    → node_info n
      ≡ (n.id % 256)
        ∷ (n.id / 2 ^ 8 % 256)
        ∷ (n.id / 2 ^ 16 % 256)
        ∷ (n.id / 2 ^ 24 % 256)
        ∷ node_info_byte n
        ∷ []
unfolding node_info
node_info_lem n = refl

-- The loop writes the rows of the entries in use, in their order, as far as there is room.
map_loop_lem :
    (room : ℕ) (live dead : List Node)
    → All HasId live
    → All IsFree dead
    → map_loop room (live ++ dead) ≡ map node_info (take room live)
unfolding map_loop
map_loop_lem zero live dead h free = refl
map_loop_lem (suc room) [] [] h free = refl
map_loop_lem (suc room) [] (n ∷ dead) h (none_here, free) = rw none_here refl
map_loop_lem (suc room) (n ∷ live) dead (used, h) free =
    rw (map_loop_lem room live dead h free) (ground (arith, used))
