-- ===== src/MeshRoute/Cloud.antt =====
-- The search of getCloudNode of mesh_route.c, and the node that it finds.
use edge_pdl.Prelude.{
  ℕ, zero, suc, ◌+◌, ◌-◌, ◌%◌, ◌≤◌, ◌<◌, bit_and, Option, none, some, false, ◌||◌, not, Bool-cases,
  ◌⊎◌, inl, inr,
}
use edge_pdl.Prelude.{
  if◌then◌else◌, ltb, leb, ◌==◌, List, length, length-append, get_elem?_of_lt, ◌≡◌, refl, arith,
}
use edge_pdl.MeshRoute.{
  Node, Routes, Found, find_offset, consider, cloud_loop, search, or_retry, get_cloud_node,
}
use edge_pdl.MeshRoute.Live.{Shows}

-- An entry that is in use, is not the node itself and says that it reaches the cloud.
pub record CanParent (node_id : ℕ) (n : Node) : Type 0 where
  pub has_id : 0 < n.id
  pub not_self : (n.id == node_id) ≡ false
  pub online : (bit_and n.flags 1 == 0) ≡ false

abbrev pub Parent : ℕ → Option Node → Type 0
Parent node_id none = Unit
Parent node_id (some n) = CanParent node_id n

consider-Parent :
    (node_id id_ignore : ℕ) (n : Node) (found : Found)
    → Parent node_id found.node
    → Parent node_id (consider node_id id_ignore n found).node
unfolding consider
consider-Parent node_id id_ignore n found v =
    elim (Bool-cases (n.id == 0 || (n.id == node_id || n.id == id_ignore))) [
      | inl ignored ↦ rw ignored v
      | inr other ↦ rw other (elim (Bool-cases (bit_and n.flags 1 == 0)) [
        | inl offline ↦ rw offline v
        | inr online ↦ rw online (elim (Bool-cases (ltb n.num_hops found.min_hop)) [
          | inr farther ↦ rw farther v
          | inl nearer ↦ rw nearer (record {
            has_id = ground (arith, other);
            not_self = ground (arith, other);
            online = online;
          })
        ])
      ])
    ]

module _ (node_id : ℕ) (s : Routes) (count : s.nodes_count ≤ 240)
    (size : length s.nodes_map ≡ 240) where
  cloud_loop-Parent :
      (n id_ignore offset u16_idx : ℕ) (found : Found)
      → u16_idx + n ≡ s.nodes_count
      → (offset ≡ 0) ⊎ (offset < s.nodes_count)
      → Parent node_id found.node
      → (found' : Found) × (cloud_loop n node_id id_ignore offset s u16_idx found ≡ some found')
        × Parent node_id found'.node
  unfolding cloud_loop
  cloud_loop-Parent zero id_ignore offset u16_idx found turns low v = (found, refl, v)
  cloud_loop-Parent (suc n) id_ignore offset u16_idx found turns low v =
      let (node, eq) =
        get_elem?_of_lt s.nodes_map
          (if leb s.nodes_count ((u16_idx + offset) % 65536)
            then (u16_idx + offset) % 65536 - s.nodes_count
            else (u16_idx + offset) % 65536)
          (ground (arith, turns, low, count, size)) in
      rw eq (
        cloud_loop-Parent n id_ignore offset (u16_idx + 1) (consider node_id id_ignore node found)
          (omega (arith, turns)) low (consider-Parent node_id id_ignore node found v))

  find_offset-lt :
      (n id_ignore idx : ℕ)
      → idx + n ≤ s.nodes_count
      → (offset : ℕ) × (find_offset n s.nodes_map id_ignore idx ≡ some offset)
        × ((offset ≡ 0) ⊎ (offset < s.nodes_count))
  unfolding find_offset
  find_offset-lt zero id_ignore idx bound = (0, refl, inl refl)
  find_offset-lt (suc n) id_ignore idx bound =
      let (node, eq) = get_elem?_of_lt s.nodes_map idx (omega (arith, bound, count, size)) in
      let (rest, found, low) = find_offset-lt n id_ignore (idx + 1) (omega (arith, bound)) in
      rw eq (elim (Bool-cases (id_ignore == node.id)) [
        | inl here ↦ rw here (idx, refl, inr (omega (arith, bound)))
        | inr later ↦ rw later (rest, found, low)
      ])

  search-Parent :
      (id_ignore offset : ℕ)
      → (offset ≡ 0) ⊎ (offset < s.nodes_count)
      → (r : Option Node) × (search node_id id_ignore offset s ≡ some r) × Parent node_id r
  unfolding search
  search-Parent id_ignore offset low =
      let (found, eq, v) =
        cloud_loop-Parent s.nodes_count id_ignore offset 0 (record { min_hop = 255; node = none })
          (omega arith) low tt in
      rw eq (found.node, refl, v)

  or_retry-Parent :
      (id_ignore : ℕ) (r : Option Node)
      → Parent node_id r
      → (r' : Option Node) × (or_retry node_id id_ignore s r ≡ some r') × Parent node_id r'
  unfolding or_retry
  or_retry-Parent id_ignore (some n) v = (some n, refl, v)
  or_retry-Parent id_ignore none v = elim (Bool-cases (not (id_ignore == 0))) [
    | inl again ↦ rw again (search-Parent 0 0 (inl refl))
    | inr first ↦ rw first (none, refl, tt)
  ]

start :
    (id_ignore : ℕ) (s : Routes)
    → s.nodes_count ≤ 240
    → length s.nodes_map ≡ 240
    → 0 < s.nodes_count
    → (offset : ℕ) × ((if not (id_ignore == 0)
          then find_offset (s.nodes_count - 1) s.nodes_map id_ignore 1
          else some 0)
        ≡ some offset)
      × ((offset ≡ 0) ⊎ (offset < s.nodes_count))
start id_ignore s count size some_node = elim (Bool-cases (not (id_ignore == 0))) [
  | inl ignore ↦
      rw ignore
        (find_offset-lt 0 s count size (s.nodes_count - 1) id_ignore 1 (omega (arith, some_node)))
  | inr none_ignored ↦ rw none_ignored (0, refl, inl refl)
]

-- getCloudNode on a well-formed map that is not empty makes no access out of range, and what it finds
-- is a node with an id, another one than the node itself, that says that it reaches the cloud.
pub get_cloud_node-Parent :
    (node_id id_ignore : ℕ) (s : Routes) (live : List Node)
    → Shows s live
    → 0 < length live
    → (r : Option Node) × (get_cloud_node node_id id_ignore s ≡ some r) × Parent node_id r
unfolding get_cloud_node
get_cloud_node-Parent node_id id_ignore s live v some_node =
    let (offset, started, low) =
      start id_ignore s count size (omega (arith, v.count_eq, some_node)) in
    let (r, found, parent) = search-Parent node_id s count size id_ignore offset low in
    rw (started, found) (or_retry-Parent node_id s count size id_ignore r parent)
  where
    count : s.nodes_count ≤ 240
    count = omega (arith, v.count_eq, v.map_length)

    size : length s.nodes_map ≡ 240
    size = rw v.map_eq (omega (arith, v.map_length, length-append live v.dead))
