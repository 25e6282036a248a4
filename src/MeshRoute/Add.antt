-- ===== src/MeshRoute/Add.antt =====
-- addNode of mesh_route.c on the entries in use.
use edge_pdl.Prelude.{
  ℕ, ◌+◌, ◌%◌, ◌<◌, Option, none, some, ◌>>=◌, Bool, true, false, ◌&&◌, not, Bool-cases, ◌⊎◌, inl,
  inr,
}
use edge_pdl.Prelude.{
  ltb, leb, ◌==◌, List, [], ◌∷◌, ◌++◌, length, length-append, set, All, append_assoc, append-nil,
  lt→ltb, le→leb, ◌≡◌, ◌≢◌, refl, sym, ap, ◌∙◌, arith,
}
use edge_pdl.MeshRoute.{
  Node, Routes, Times, delete_route, find_id, place_node, append_node, update_found, update_flags,
  update_node, add_found, add_node,
}
use edge_pdl.MeshRoute.Live.{
  Shows, HasId, IsFree, find_node, delete_route_lem, All-append, All-left, All-right, set-append,
}

find_skip :
    (k : ℕ) (xs ys : List Node) (n : Node)
    → n.id ≢ k
    → find_node k (xs ++ n ∷ ys) ≡ find_node k (xs ++ ys)
find_skip k [] ys n other = ground (arith, other)
find_skip k (x ∷ xs) ys n other = rw (find_skip k xs ys n other)

find_hit :
    (id : ℕ) (xs ys : List Node) (n : Node)
    → n.id ≡ id
    → (m : Node) × (find_node id (xs ++ n ∷ ys) ≡ some m)
find_hit id [] ys n same = (n, ground (arith, same))
find_hit id (x ∷ xs) ys n same = elim (Bool-cases (x.id == id)) [
  | inl first ↦ (x, rw first)
  | inr later ↦ let (m, eq) = find_hit id xs ys n same in (m, rw later eq)
]

find_dead : (id k : ℕ) (dead : List Node) → 0 < id → All IsFree dead → find_id id dead k ≡ none
unfolding find_id
find_dead id k [] positive free = refl
find_dead id k (d ∷ dead) positive (free_d, free) =
    rw (free_d, find_dead id (k + 1) dead positive free) (ground (arith, positive))

-- What addNode finds in the map.
find_id_lem :
    (id k : ℕ) (live dead : List Node)
    → 0 < id
    → All IsFree dead
    → (find_id id (live ++ dead) k ≡ none)
      ⊎ (xs : List Node) × (n : Node) × (ys : List Node) × (find_id id (live ++ dead) k
          ≡ some (k + length xs, n))
        × (live ≡ xs ++ n ∷ ys)
        × (n.id ≡ id)
unfolding find_id
find_id_lem id k [] dead positive free = inl (find_dead id k dead positive free)
find_id_lem id k (x ∷ live) dead positive free = elim (Bool-cases (x.id == id)) [
  | inl here ↦
      inr ([], x, live, rw here (ap (λ i. some (i, x)) (omega arith)), refl, ground (arith, here))
  | inr later ↦ elim (find_id_lem id (k + 1) live dead positive free) [
    | inl missing ↦ inl (rw (later, missing) refl)
    | inr (xs, n, ys, found, live_eq, same) ↦ inr (
      x ∷ xs,
      n,
      ys,
      rw (later, found) (ap (λ i. some (i, n)) (omega arith)),
      ap (λ t. x ∷ t) live_eq,
      same,
    )
  ]
]

-- An entry in use is replaced by one with an id.
replace-Shows :
    (s : Routes) (xs ys : List Node) (n m : Node)
    → Shows s (xs ++ n ∷ ys)
    → 0 < m.id
    → Shows (record s { nodes_map = set s.nodes_map (length xs) m }) (xs ++ m ∷ ys)
replace-Shows s xs ys n m v positive = record {
  dead = v.dead;
  map_eq = rw v.map_eq (
      ap (λ t. set t (length xs) m) (append_assoc xs (n ∷ ys) v.dead)
      ∙ set-append xs (ys ++ v.dead) n m
      ∙ sym (append_assoc xs (m ∷ ys) v.dead));
  count_eq = omega (arith, v.count_eq, length-append xs (n ∷ ys), length-append xs (m ∷ ys));
  map_length = omega (arith, v.map_length, length-append xs (n ∷ ys), length-append xs (m ∷ ys));
  live_ids =
      All-append HasId xs (m ∷ ys) (All-left HasId xs (n ∷ ys) v.live_ids)
        (positive, (All-right HasId xs (n ∷ ys) v.live_ids).1);
  dead_ids = v.dead_ids;
}

place_at :
    (s : Routes) (live dead : List Node) (new : Node)
    → s.nodes_map ≡ live ++ dead
    → s.nodes_count ≡ length live
    → length live + length dead ≡ 240
    → length live < 240
    → All HasId live
    → All IsFree dead
    → 0 < new.id
    → (s' : Routes) × (place_node new s ≡ some (s', true)) × Shows s' (live ++ new ∷ [])
unfolding place_node
place_at s live [] new map_eq count_eq size room has free positive =
    absurd (omega (arith, size, room))
place_at s live (d ∷ dead) new map_eq count_eq size room has free positive = (
  record { nodes_map = live ++ new ∷ dead; nodes_count = length live + 1 },
  rw (map_eq, count_eq, in_map, set-append live dead d new)
      (ap (λ c. some (record { nodes_map = live ++ new ∷ dead; nodes_count = c }, true))
        (omega (arith, size))),
  record {
    dead = dead;
    map_eq = sym (append_assoc live (new ∷ []) dead);
    count_eq = omega (arith, length-append live (new ∷ []));
    map_length = omega (arith, size, length-append live (new ∷ []));
    live_ids = All-append HasId live (new ∷ []) has (positive, tt);
    dead_ids = free.1;
  },
)
  where
    in_map : ltb (length live) (length (live ++ d ∷ dead)) ≡ true
    in_map = lt→ltb _ _ (omega (arith, length-append live (d ∷ dead)))

-- The new entry comes last.
append_node_lem :
    (s : Routes) (live : List Node) (new : Node)
    → Shows s live
    → length live < 240
    → 0 < new.id
    → (s' : Routes) × (append_node new s ≡ some (s', true)) × Shows s' (live ++ new ∷ [])
unfolding append_node
append_node_lem s live new v room positive = rw not_full (
    place_at s live v.dead new v.map_eq v.count_eq v.map_length room v.live_ids v.dead_ids positive)
  where
    not_full : leb 240 s.nodes_count ≡ false
    not_full = ground (arith, room, v.count_eq)

-- Where the map is full it takes the place of the second one.
append_node_full :
    (s : Routes) (m n : Node) (ys : List Node) (new : Node)
    → Shows s (m ∷ n ∷ ys)
    → length ys ≡ 238
    → 0 < new.id
    → (s' : Routes) × (append_node new s ≡ some (s', true)) × Shows s' ((m ∷ ys) ++ new ∷ [])
unfolding append_node
append_node_full s m n ys new v full positive =
    let (s', deleted, v') = delete_route_lem s (m ∷ []) ys n v in
    let result =
      place_at s' (m ∷ ys) v'.dead new v'.map_eq v'.count_eq v'.map_length (omega (arith, full))
        v'.live_ids v'.dead_ids positive in
    rw (is_full, deleted) result
  where
    is_full : leb 240 s.nodes_count ≡ true
    is_full = le→leb _ _ (omega (arith, full, v.count_eq))

-- What addNode of `id` does to the entries in use: the map then has an entry with the id, and what
-- it has of another id `k` is as before.
abbrev pub Adds : ℕ → ℕ → List Node → Option (Routes × Bool) → Type 0
Adds id k live r =
    (s' : Routes) × (changed : Bool) × (live' : List Node) × (r ≡ some (s', changed))
    × Shows s' live'
    × ((m : Node) × (find_node id live' ≡ some m))
    × (find_node k live' ≡ find_node k live)

kept-Adds :
    (id k : ℕ) (s : Routes) (xs ys : List Node) (n m : Node) (changed : Bool)
    → Shows s (xs ++ n ∷ ys)
    → 0 < id
    → k ≢ id
    → n.id ≡ id
    → m.id ≡ id
    → Adds id k
        (xs ++ n ∷ ys)
        (some (record s { nodes_map = set s.nodes_map (length xs) m }, changed))
kept-Adds id k s xs ys n m changed v positive other same same' = (
  record s { nodes_map = set s.nodes_map (length xs) m },
  changed,
  xs ++ m ∷ ys,
  refl,
  replace-Shows s xs ys n m v (omega (arith, same', positive)),
  find_hit id xs ys m same',
  find_skip k xs ys m (λ e. other (sym e ∙ same'))
      ∙ sym (find_skip k xs ys n (λ e. other (sym e ∙ same))),
)

find_last :
    (k : ℕ) (live : List Node) (new : Node)
    → new.id ≢ k
    → find_node k (live ++ new ∷ []) ≡ find_node k live
find_last k live new other =
    find_skip k live [] new other ∙ ap (λ t. find_node k t) (append-nil live)

moved-Adds :
    (id k : ℕ) (s : Routes) (xs ys : List Node) (n m new : Node)
    → Shows s (xs ++ n ∷ ys)
    → 0 < id
    → k ≢ id
    → n.id ≡ id
    → m.id ≡ id
    → new.id ≡ id
    → Adds id k (xs ++ n ∷ ys) (
        delete_route (length xs) (record s { nodes_map = set s.nodes_map (length xs) m })
        >>= append_node new)
moved-Adds id k s xs ys n m new v positive other same same' same_new =
    let (s₁, deleted, v₁) =
      delete_route_lem _ xs ys m (replace-Shows s xs ys n m v (omega (arith, same', positive))) in
    let (s₂, appended, v₂) =
      append_node_lem s₁ (xs ++ ys) new v₁
        (omega (arith, v.map_length, length-append xs (n ∷ ys), length-append xs ys))
        (omega (arith, same_new, positive)) in
    (
      s₂,
      true,
      (xs ++ ys) ++ new ∷ [],
      rw deleted appended,
      v₂,
      find_hit id (xs ++ ys) [] new same_new,
      find_last k (xs ++ ys) new (λ e. other (sym e ∙ same_new))
          ∙ sym (find_skip k xs ys n (λ e. other (sym e ∙ same))),
    )

update_found-Adds :
    (id k : ℕ) (s : Routes) (xs ys : List Node) (n m new : Node) (num_hops : ℕ) (changed : Bool)
    (t : Times)
    → Shows s (xs ++ n ∷ ys)
    → 0 < id
    → k ≢ id
    → n.id ≡ id
    → m.id ≡ id
    → new.id ≡ id
    → Adds id k (xs ++ n ∷ ys) (update_found new num_hops changed t (length xs) m s)
unfolding update_found
update_found-Adds id k s xs ys n m new num_hops changed t v positive other same same' same_new =
    elim (Bool-cases (m.first_hop == 0)) [
      | inl direct ↦ rw direct (elim (Bool-cases (new.first_hop == 0)) [
        | inl refresh ↦ rw refresh (kept-Adds id k s xs ys n _ changed v positive other same same')
        | inr keep ↦ rw keep (kept-Adds id k s xs ys n m changed v positive other same same')
      ])
      | inr sub ↦ rw sub (elim (Bool-cases (not (new.first_hop == 0) && ltb m.num_hops num_hops)) [
        | inl nearer ↦ rw nearer (kept-Adds id k s xs ys n m changed v positive other same same')
        | inr farther ↦
            rw farther (moved-Adds id k s xs ys n m new v positive other same same' same_new)
      ])
    ]

flags_id : (new n : Node) (changed : Bool) (t : Times) → (update_flags new changed t n).id ≡ n.id
unfolding update_flags
flags_id new n true t = refl
flags_id new n false t = refl

update_node-Adds :
    (id k : ℕ) (s : Routes) (xs ys : List Node) (n new : Node) (num_hops flags : ℕ) (t : Times)
    → Shows s (xs ++ n ∷ ys)
    → 0 < id
    → k ≢ id
    → n.id ≡ id
    → new.id ≡ id
    → Adds id k (xs ++ n ∷ ys) (update_node new num_hops flags t (length xs, n) s)
unfolding update_node
update_node-Adds id k s xs ys n new num_hops flags t v positive other same same_new =
    update_found-Adds id k s xs ys n _ new num_hops _ t v positive other same
      (flags_id new n (not (flags == n.flags)) t ∙ same) same_new

append-Adds :
    (id k : ℕ) (s : Routes) (live : List Node) (new : Node)
    → Shows s live
    → length live < 240
    → 0 < id
    → k ≢ id
    → new.id ≡ id
    → Adds id k live (append_node new s)
append-Adds id k s live new v room positive other same_new =
    let (s₁, appended, v₁) =
      append_node_lem s live new v room (omega (arith, same_new, positive)) in
    (
      s₁,
      true,
      live ++ new ∷ [],
      appended,
      v₁,
      find_hit id live [] new same_new,
      find_last k live new (λ e. other (sym e ∙ same_new)),
    )

-- addNode of an id other than 0, on a map with a free entry, makes no access out of range. It leaves
-- a well-formed map, in which getRoute finds the id, and finds of any other id what it found before.
pub add_node-Adds :
    (id hop num_hops flags snr rssi k : ℕ) (t : Times) (s : Routes) (live : List Node)
    → Shows s live
    → length live < 240
    → 0 < id
    → k ≢ id
    → Adds id k live (add_node id hop num_hops flags snr rssi t s)
unfolding add_node add_found
add_node-Adds id hop num_hops flags snr rssi k t s live v room positive other =
    elim (find_id_lem id 0 live v.dead positive v.dead_ids) [
      | inl missing ↦ rw (in_map missing) (append-Adds id k s live _ v room positive other refl)
      | inr (xs, n, ys, found, live_eq, same) ↦
          let shown : Shows s (xs ++ n ∷ ys) = rw (← live_eq) v in
          let index : 0 + length xs ≡ length xs = omega arith in
          rw (in_map (found ∙ ap (λ i. some (i, n)) index), live_eq)
            (update_node-Adds id k s xs ys n _ num_hops flags t shown positive other same refl)
    ]
  where
    in_map :
        {o : Option (ℕ × Node)} → find_id id (live ++ v.dead) 0 ≡ o → find_id id s.nodes_map 0 ≡ o
    in_map e = ap (λ m. find_id id m 0) v.map_eq ∙ e

-- addNode of a new id other than 0 on a full map: the second entry, the one behind the node itself,
-- is dropped, and the new one comes last.
pub add_node_full :
    (id hop num_hops flags snr rssi : ℕ) (t : Times) (s : Routes) (m n : Node) (ys : List Node)
    → Shows s (m ∷ n ∷ ys)
    → length ys ≡ 238
    → 0 < id
    → find_node id (m ∷ n ∷ ys) ≡ none
    → (s' : Routes) × (add_node id hop num_hops flags snr rssi t s ≡ some (s', true))
      × Shows s' (
          m ∷ ys
          ++ record {
            id = id;
            flags = flags % 8;
            num_hops = num_hops % 32;
            snr = snr;
            rssi = rssi;
            first_hop = hop;
            timestamp = t.created;
          }
            ∷ [])
unfolding add_node add_found
add_node_full id hop num_hops flags snr rssi t s m n ys v full positive missing =
    elim (find_id_lem id 0 (m ∷ n ∷ ys) v.dead positive v.dead_ids) [
      | inl nowhere ↦
          rw (ap (λ e. find_id id e 0) v.map_eq ∙ nowhere)
            (append_node_full s m n ys _ v full positive)
      | inr (xs, x, zs, found, live_eq, same) ↦
          let (y, hit) = find_hit id xs zs x same in
          let clash : none ≡ some y = sym missing ∙ ap (λ e. find_node id e) live_eq ∙ hit in
          absurd (cc clash)
    ]
