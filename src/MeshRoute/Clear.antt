-- ===== src/MeshRoute/Clear.antt =====
-- clearSubs of mesh_route.c: the turns that its loop takes, and the entries that it takes out.
use edge_pdl.Prelude.{ℕ, zero, suc, ◌+◌, ◌≤◌, ◌<◌, some, true, false, Bool-cases, inl, inr}
use edge_pdl.Prelude.{
  if◌then◌else◌, ◌==◌, List, [], ◌∷◌, ◌++◌, length, length-append, get_elem?, All, append_assoc,
  append-nil, lt→ltb, ◌≡◌, refl, sym, ap, subst, ◌∙◌, arith,
}
use edge_pdl.MeshRoute.{Node, Routes, delete_route, clear_loop, clear_subs}
use edge_pdl.MeshRoute.Live.{Shows, delete_route_keeps, get_elem?-append}

-- The entry is not reached through the node `id`.
abbrev pub IsElsewhere : ℕ → Node → Type 0
IsElsewhere id n = (n.first_hop == id) ≡ false

-- The entries that are not reached through it, in their order.
abbrev pub elsewhere : ℕ → List Node → List Node
elsewhere id [] = []
elsewhere id (n ∷ nodes) =
    let rest = elsewhere id nodes in if n.first_hop == id then rest else n ∷ rest

-- The map has a free entry, and what free entries hold of an old first hop is not `id`.
pub record Tidy (id : ℕ) (s : Routes) (live : List Node) : Type 0 where
  pub shows : Shows s live
  pub dead_elsewhere : All (IsElsewhere id) shows.dead
  pub room : 0 < length shows.dead

-- One turn of the loop.
turn_keeps :
    (fuel id : ℕ) (s : Routes) (xs ys : List Node) (n : Node)
    → s.nodes_map ≡ xs ++ n ∷ ys
    → length xs < 240
    → IsElsewhere id n
    → clear_loop (suc fuel) id (length xs) s ≡ clear_loop fuel id (length xs + 1) s
unfolding clear_loop
turn_keeps fuel id s xs ys n eq inside other =
    rw (lt→ltb (length xs) 240 inside, eq, get_elem?-append xs ys n, other) refl

turn_deletes :
    (fuel id : ℕ) (s s' : Routes) (xs ys : List Node) (n : Node)
    → s.nodes_map ≡ xs ++ n ∷ ys
    → length xs < 240
    → (n.first_hop == id) ≡ true
    → delete_route (length xs) s ≡ some s'
    → clear_loop (suc fuel) id (length xs) s ≡ clear_loop fuel id (length xs) s'
unfolding clear_loop
turn_deletes fuel id s s' xs ys n eq inside hop ran =
    rw (lt→ltb (length xs) 240 inside, found, hop, ran) refl
  where
    found : get_elem? s.nodes_map (length xs) ≡ some n
    found = rw eq (get_elem?-append xs ys n)

turn_ends : (fuel id idx : ℕ) (s : Routes) → 240 ≤ idx → clear_loop (suc fuel) id idx s ≡ some s
unfolding clear_loop
turn_ends fuel id idx s past = ground (arith, past)

-- The free entries that the loop passes at its end.
pass_dead :
    (id : ℕ) (s : Routes) (dead xs : List Node) (fuel : ℕ)
    → s.nodes_map ≡ xs ++ dead
    → length xs + length dead ≡ 240
    → All (IsElsewhere id) dead
    → length dead < fuel
    → clear_loop fuel id (length xs) s ≡ some s
pass_dead id s dead xs zero eq size h enough = absurd (omega (arith, enough))
pass_dead id s [] xs (suc fuel) eq size h enough =
    turn_ends fuel id (length xs) s (omega (arith, size))
pass_dead id s (n ∷ dead) xs (suc fuel) eq size h enough =
    turn_keeps fuel id s xs dead n eq (omega (arith, size)) h.0
    ∙ ap (λ i. clear_loop fuel id i s) (sym (length-append xs (n ∷ [])))
    ∙ pass_dead id s dead (xs ++ n ∷ []) fuel (eq ∙ sym (append_assoc xs (n ∷ []) dead))
        (omega (arith, size, length-append xs (n ∷ []))) h.1 (omega (arith, enough))

Clears : ℕ → ℕ → Routes → (xs left : List Node) → Type 0
Clears fuel id s xs left =
    (s' : Routes) × (clear_loop fuel id (length xs) s ≡ some s') × Tidy id s' left

-- The entries before the loop's index stay, and those from it on are filtered.
clears :
    (id : ℕ) (ys xs : List Node) (s : Routes) (fuel : ℕ)
    → Tidy id s (xs ++ ys)
    → length ys + 240 < fuel + length xs
    → Clears fuel id s xs (xs ++ elsewhere id ys)
unfolding Clears
clears id [] xs s zero v enough =
    absurd (omega (arith, enough, v.shows.map_length, v.room, length-append xs []))
clears id (n ∷ ys) xs s zero v enough =
    absurd (omega (arith, enough, v.shows.map_length, v.room, length-append xs (n ∷ ys)))
clears id [] xs s (suc fuel) v enough = (
  s,
  pass_dead id s v.shows.dead xs (suc fuel)
      (v.shows.map_eq ∙ ap (λ t. t ++ v.shows.dead) (append-nil xs))
      (omega (arith, v.shows.map_length, length-append xs [])) v.dead_elsewhere
      (omega (arith, enough, v.shows.map_length, length-append xs [])),
  v,
)
clears id (n ∷ ys) xs s (suc fuel) v enough = elim (Bool-cases (n.first_hop == id)) [
  | inl hop ↦
      let (s', ran, (shows, dead, room)) =
        delete_route_keeps (IsElsewhere id) s xs ys n v.shows (λ m h. h) v.room v.dead_elsewhere in
      let (t, rest, tidy) =
        clears id ys xs s' fuel (record { shows = shows; dead_elsewhere = dead; room = room })
          (omega (arith, enough)) in
      rw hop
        (t, turn_deletes fuel id s s' xs (ys ++ v.shows.dead) n at_n inside hop ran ∙ rest, tidy)
  | inr other ↦
      let (t, rest, tidy) =
        clears id ys (xs ++ n ∷ []) s fuel (subst (Tidy id s) (sym (append_assoc xs (n ∷ []) ys)) v)
          (omega (arith, enough, length-append xs (n ∷ []))) in
      rw other (
        t,
        turn_keeps fuel id s xs (ys ++ v.shows.dead) n at_n inside other
            ∙ ap (λ i. clear_loop fuel id i s) (sym (length-append xs (n ∷ [])))
            ∙ rest,
        subst (Tidy id t) (append_assoc xs (n ∷ []) (elsewhere id ys)) tidy,
      )
]
  where
    at_n : s.nodes_map ≡ xs ++ n ∷ (ys ++ v.shows.dead)
    at_n = v.shows.map_eq ∙ append_assoc xs (n ∷ ys) v.shows.dead

    inside : length xs < 240
    inside = omega (arith, v.shows.map_length, length-append xs (n ∷ ys))

-- clearSubs of a node on a map with a free entry, none of the free ones holding the node as an old
-- first hop: its loop ends within 480 turns with no access out of range, and takes out exactly the
-- entries behind the first one that are reached through the node.
pub clear_subs_lem :
    (id fuel : ℕ) (s : Routes) (own : Node) (nodes : List Node)
    → Tidy id s (own ∷ nodes)
    → 480 ≤ fuel
    → (s' : Routes) × (clear_subs fuel id s ≡ some s') × Tidy id s' (own ∷ elsewhere id nodes)
unfolding clear_subs Clears
clear_subs_lem id fuel s own nodes v enough =
    clears id nodes (own ∷ []) s fuel v (omega (arith, enough, v.shows.map_length, v.room))
