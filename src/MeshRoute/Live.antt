-- ===== src/MeshRoute/Live.antt =====
-- The entries of the map that are in use, as a list without a bound: what deleteRoute, getRoute and
-- addNode of mesh_route.c are on that list.
use edge_pdl.Prelude.{ℕ, zero, suc, ◌+◌, ◌-◌, ◌%◌, ◌≤◌, ◌<◌, Option, none, some, true}
use edge_pdl.Prelude.{
  if◌then◌else◌, ltb, ◌==◌, List, [], ◌∷◌, ◌++◌, length, length-append, length-drop, get_elem?, set,
  take, drop, take-append, All, append_assoc, replicate, All-replicate, lt→ltb, ◌≡◌, refl, sym, ap,
  subst, ◌∙◌, arith,
}
use edge_pdl.MeshRoute.{Node, Routes, init, delete_route, get_route_loop, get_route, no_node}

abbrev pub HasId : Node → Type 0
HasId n = 0 < n.id

abbrev pub IsFree : Node → Type 0
IsFree n = n.id ≡ 0

-- The map starts with the entries of `live`, which have ids; the entries behind them have none.
pub record Shows (s : Routes) (live : List Node) : Type 0 where
  pub dead : List Node
  pub map_eq : s.nodes_map ≡ live ++ dead
  pub count_eq : s.nodes_count ≡ length live
  pub map_length : length live + length dead ≡ 240
  pub live_ids : All HasId live
  pub dead_ids : All IsFree dead

-- The first entry with an id.
abbrev pub find_node : ℕ → List Node → Option Node
find_node id [] = none
find_node id (n ∷ nodes) = if n.id == id then some n else find_node id nodes

dead_loop : (id : ℕ) (dead : List Node) → All IsFree dead → get_route_loop id dead ≡ none
unfolding get_route_loop
dead_loop id [] h = refl
dead_loop id (n ∷ dead) (free, h) = rw free (ground arith)

live_loop :
    (id : ℕ) (live dead : List Node)
    → 0 < id
    → All HasId live
    → All IsFree dead
    → get_route_loop id (live ++ dead) ≡ find_node id live
unfolding get_route_loop
live_loop id [] dead positive h free = dead_loop id dead free
live_loop id (n ∷ live) dead positive (has, h) free =
    rw (live_loop id live dead positive h free) (ground (arith, positive, has))

-- getRoute of an id other than 0 on a well-formed map is the first entry in use that has the id.
pub get_route_lem :
    (id : ℕ) (s : Routes) (live : List Node)
    → Shows s live
    → 0 < id
    → get_route id s ≡ find_node id live
unfolding get_route
get_route_lem id s live v positive =
    rw v.map_eq (live_loop id live v.dead positive v.live_ids v.dead_ids)

module _ {A : Type 0} where
  pub All-append : (P : A → Type 0) (xs ys : List A) → All P xs → All P ys → All P (xs ++ ys)
  All-append P [] ys h k = k
  All-append P (x ∷ xs) ys h k = (h.0, All-append P xs ys h.1 k)

  pub All-left : (P : A → Type 0) (xs ys : List A) → All P (xs ++ ys) → All P xs
  All-left P [] ys h = tt
  All-left P (x ∷ xs) ys h = (h.0, All-left P xs ys h.1)

  pub All-right : (P : A → Type 0) (xs ys : List A) → All P (xs ++ ys) → All P ys
  All-right P [] ys h = h
  All-right P (x ∷ xs) ys h = All-right P xs ys h.1

  All-drop : (P : A → Type 0) (n : ℕ) (xs : List A) → All P xs → All P (drop n xs)
  All-drop P zero xs h = h
  All-drop P (suc n) [] h = tt
  All-drop P (suc n) (x ∷ xs) h = All-drop P n xs h.1

  All-end :
      (P : A → Type 0) (xs ys : List A) (k : ℕ)
      → length xs ≤ k
      → All P ys
      → All P (drop k (xs ++ ys))
  All-end P [] ys k le h = All-drop P k ys h
  All-end P (x ∷ xs) ys zero le h = absurd (omega (arith, le))
  All-end P (x ∷ xs) ys (suc k) le h = All-end P xs ys k (omega (arith, le)) h

  drop_past : (xs ys : List A) (j k : ℕ) → k ≡ length xs + j → drop k (xs ++ ys) ≡ drop j ys
  drop_past [] ys j k e = ap (λ i. drop i ys) (omega (arith, e))
  drop_past (x ∷ xs) ys j zero e = absurd (omega (arith, e))
  drop_past (x ∷ xs) ys j (suc k) e = drop_past xs ys j k (omega (arith, e))

  singleton : (xs : List A) → length xs ≡ 1 → (x : A) × (xs ≡ x ∷ [])
  singleton [] e = absurd (omega (arith, e))
  singleton (x ∷ []) e = (x, refl)
  singleton (x ∷ y ∷ xs) e = absurd (omega (arith, e))

  pub get_elem?-append : (xs ys : List A) (y : A) → get_elem? (xs ++ y ∷ ys) (length xs) ≡ some y
  get_elem?-append [] ys y = refl
  get_elem?-append (x ∷ xs) ys y = get_elem?-append xs ys y

  pub set-append : (xs ys : List A) (x y : A) → set (xs ++ x ∷ ys) (length xs) y ≡ xs ++ y ∷ ys
  set-append [] ys x y = refl
  set-append (z ∷ xs) ys x y = ap (λ t. z ∷ t) (set-append xs ys x y)

pub init-Shows :
    (node_id : ℕ) → 0 < node_id → Shows (init node_id) (record no_node { id = node_id } ∷ [])
unfolding init
init-Shows node_id positive = record {
  dead = replicate 239 no_node;
  map_eq = refl;
  count_eq = refl;
  map_length = refl;
  live_ids = (positive, tt);
  dead_ids = All-replicate IsFree 239 no_node refl;
}

-- The entries of `live` but one, and what the map has behind them after the move.
moved :
    (xs ys dead : List Node) (n : Node)
    → take (length xs) ((xs ++ n ∷ ys) ++ dead)
        ++ (drop (length xs + 1) ((xs ++ n ∷ ys) ++ dead) ++ drop 239 ((xs ++ n ∷ ys) ++ dead))
      ≡ (xs ++ ys) ++ (dead ++ drop 239 ((xs ++ n ∷ ys) ++ dead))
moved xs ys dead n =
    rw
      (
        append_assoc xs (n ∷ ys) dead,
        take-append xs (n ∷ (ys ++ dead)),
        drop_past xs (n ∷ (ys ++ dead)) 1 (length xs + 1) refl,
      )
      (rearrange (drop 239 (xs ++ n ∷ (ys ++ dead))))
  where
    rearrange : (end : List Node) → xs ++ ((ys ++ dead) ++ end) ≡ (xs ++ ys) ++ (dead ++ end)
    rearrange end =
        ap (λ t. xs ++ t) (append_assoc ys dead end) ∙ sym (append_assoc xs ys (dead ++ end))

-- What stands last in the map: a free entry, or where the map is full its last one.
last_entry :
    (live dead : List Node)
    → length live + length dead ≡ 240
    → All IsFree dead
    → (d : Node) × (ds : List Node) × (dead ++ drop 239 (live ++ dead) ≡ d ∷ ds)
      × All IsFree ds
      × (length ds ≡ length dead)
last_entry live [] size free =
    let (d, eq) =
      singleton (drop 239 (live ++ []))
        (omega (arith, size, length-drop 239 (live ++ []), length-append live [])) in
    (d, [], eq, tt, refl)
last_entry live (d ∷ dead) size (free_d, free) = (
  d,
  dead ++ drop 239 (live ++ d ∷ dead),
  refl,
  All-append IsFree dead _ free all_free,
  omega (
    arith,
    size,
    length-append dead (drop 239 (live ++ d ∷ dead)),
    length-drop 239 (live ++ d ∷ dead),
    length-append live (d ∷ dead),
  ),
)
  where
    all_free : All IsFree (drop 239 (live ++ d ∷ dead))
    all_free =
        rw (drop_past live (d ∷ dead) (239 - length live) 239 (omega (arith, size)))
          (All-drop IsFree (239 - length live) (d ∷ dead) (free_d, free))

-- What deleteRoute leaves behind the entries in use.
pub Leaves : (s : Routes) → List Node → (xs ys : List Node) → Type 0
Leaves s left xs ys =
    (s' : Routes) × (delete_route (length xs) s ≡ some s')
    × ((v : Shows s' (xs ++ ys)) × (v.dead ≡ left))

delete_route-Leaves :
    (s : Routes) (xs ys : List Node) (n : Node) (v : Shows s (xs ++ n ∷ ys)) (d : Node)
    (ds : List Node)
    → v.dead ++ drop 239 ((xs ++ n ∷ ys) ++ v.dead) ≡ d ∷ ds
    → All IsFree ds
    → length ds ≡ length v.dead
    → Leaves s (record d { id = 0 } ∷ ds) xs ys
unfolding Leaves delete_route
delete_route-Leaves s xs ys n v d ds eq free size = (
  record { nodes_map = (xs ++ ys) ++ record d { id = 0 } ∷ ds; nodes_count = length (xs ++ ys) },
  rw
      (
        v.map_eq,
        byte_index,
        in_map,
        count,
        moved xs ys v.dead n,
        eq,
        get_elem?-append (xs ++ ys) ds d,
      )
      (ap (λ m. some (record { nodes_map = m; nodes_count = length (xs ++ ys) }))
        (set-append (xs ++ ys) ds d (record d { id = 0 }))),
  (
    record {
      dead = record d { id = 0 } ∷ ds;
      map_eq = refl;
      count_eq = refl;
      map_length =
          omega (arith, v.map_length, size, length-append xs ys, length-append xs (n ∷ ys));
      live_ids =
          All-append HasId xs ys (All-left HasId xs (n ∷ ys) v.live_ids)
            (All-right HasId xs (n ∷ ys) v.live_ids).1;
      dead_ids = (refl, free);
    },
    refl,
  ),
)
  where
    byte_index : length xs % 256 ≡ length xs
    byte_index = omega (arith, v.map_length, length-append xs (n ∷ ys))

    in_map : ltb (length xs) 240 ≡ true
    in_map = lt→ltb _ _ (omega (arith, v.map_length, length-append xs (n ∷ ys)))

    count : (s.nodes_count + 65535) % 65536 ≡ length (xs ++ ys)
    count = omega (arith, v.count_eq, v.map_length, length-append xs (n ∷ ys), length-append xs ys)

-- deleteRoute of an entry in use makes no access out of range and takes exactly that entry out of
-- the entries in use, in their order.
pub delete_route_lem :
    (s : Routes) (xs ys : List Node) (n : Node)
    → Shows s (xs ++ n ∷ ys)
    → (s' : Routes) × (delete_route (length xs) s ≡ some s') × Shows s' (xs ++ ys)
unfolding Leaves
delete_route_lem s xs ys n v =
    let (d, ds, eq, free, size) = last_entry (xs ++ n ∷ ys) v.dead v.map_length v.dead_ids in
    let (s', ran, (v', left)) = delete_route-Leaves s xs ys n v d ds eq free size in (s', ran, v')

-- Where the map has a free entry, what the free entries have but their ids stays theirs.
pub delete_route_keeps :
    (P : Node → Type 0) (s : Routes) (xs ys : List Node) (n : Node) (v : Shows s (xs ++ n ∷ ys))
    → ((m : Node) → P m → P (record m { id = 0 }))
    → 0 < length v.dead
    → All P v.dead
    → (s' : Routes) × (delete_route (length xs) s ≡ some s')
      × ((v' : Shows s' (xs ++ ys)) × All P v'.dead × (0 < length v'.dead))
unfolding Leaves
delete_route_keeps P s xs ys n v stable room h =
    let (d, ds, eq, free, size) = last_entry (xs ++ n ∷ ys) v.dead v.map_length v.dead_ids in
    let (s', ran, (v', left)) = delete_route-Leaves s xs ys n v d ds eq free size in
    let ends : All P (d ∷ ds) = subst (All P) eq (
      All-append P v.dead _ h
        (All-end P (xs ++ n ∷ ys) v.dead 239 (omega (arith, v.map_length, room)) h)) in
    (s', ran, (v', rw left (stable d ends.0, ends.1), rw left (omega arith)))
