-- ===== src/MeshRoute/Broadcast.antt =====
-- isOldBroadcast of mesh_route.c on the ring of the last broadcasts.
use edge_pdl.Prelude.{
  ℕ, zero, suc, ◌+◌, ◌-◌, ◌%◌, ◌≤◌, ◌<◌, some, Bool, true, false, inl, inr, ◌⊎◌, ◌==◌,
  if◌then◌else◌, ltb, lt→ltb, All, List, [], ◌∷◌, length, length-set, set, get_elem?,
  get_elem?-set_self, get_elem?-set_ne, ℕ_discrete, ◌≡◌, ◌≢◌, refl, sym, ap, ◌∙◌, arith,
}
use edge_pdl.MeshRoute.{Broadcasts, is_listed, is_old_broadcast}

pub record IsBroadcasts (s : Broadcasts) : Type 0 where
  pub list_length : length s.broadcast_list ≡ 10
  pub index_lt : s.broadcast_index < 10

-- The broadcast stands where the index was, which goes round the ten entries.
abbrev pub remembered : ℕ → Broadcasts → Broadcasts
remembered id s = record {
  broadcast_list = set s.broadcast_list s.broadcast_index id;
  broadcast_index = (s.broadcast_index + 1) % 10;
}

listed_at : (id i : ℕ) (xs : List ℕ) → get_elem? xs i ≡ some id → is_listed id xs ≡ true
unfolding is_listed
listed_at id i [] e = cc
listed_at id zero (x ∷ xs) e = ground (arith, same (sym e))
  where
    same : some id ≡ some x → id ≡ x
    same e = cc
listed_at id (suc i) (x ∷ xs) e = rw (listed_at id i xs e) (ground arith)

not_listed : (id : ℕ) (xs : List ℕ) → All (λ b. b ≢ id) xs → is_listed id xs ≡ false
unfolding is_listed
not_listed id [] h = refl
not_listed id (x ∷ xs) (other, h) =
    let differs : id ≢ x = λ e. other (sym e) in rw (not_listed id xs h) (ground (arith, differs))

listed_or_new :
    (id : ℕ) (xs : List ℕ) → ((i : ℕ) × (get_elem? xs i ≡ some id)) ⊎ All (λ b. b ≢ id) xs
listed_or_new id [] = inr tt
listed_or_new id (x ∷ xs) = elim (ℕ_discrete x id) [
  | yes same ↦ inl (0, ap some same)
  | no other ↦ elim (listed_or_new id xs) [ inl (i, e) ↦ inl (suc i, e) | inr h ↦ inr (other, h) ]
]

pub old_broadcast :
    (id i : ℕ) (s : Broadcasts)
    → get_elem? s.broadcast_list i ≡ some id
    → is_old_broadcast id s ≡ some (true, s)
unfolding is_old_broadcast
old_broadcast id i s e = rw (listed_at id i s.broadcast_list e)

pub new_broadcast :
    (id : ℕ) (s : Broadcasts)
    → IsBroadcasts s
    → All (λ b. b ≢ id) s.broadcast_list
    → is_old_broadcast id s ≡ some (false, remembered id s)
unfolding is_old_broadcast
new_broadcast id s v h =
    rw (not_listed id s.broadcast_list h, in_list)
      (ap
        (λ k. some (
          false,
          record {
            broadcast_list = set s.broadcast_list s.broadcast_index id;
            broadcast_index = k;
          },
        ))
        next)
  where
    in_list : ltb s.broadcast_index (length s.broadcast_list) ≡ true
    in_list = lt→ltb _ _ (omega (arith, v.list_length, v.index_lt))

    next :
        (if (s.broadcast_index + 1) % 256 == 10 then 0 else (s.broadcast_index + 1) % 256)
        ≡ (s.broadcast_index + 1) % 10
    next = ground (arith, v.index_lt)

remembered-IsBroadcasts :
    (id : ℕ) (s : Broadcasts) → IsBroadcasts s → IsBroadcasts (remembered id s)
remembered-IsBroadcasts id s v = record {
  list_length = length-set s.broadcast_list s.broadcast_index id ∙ v.list_length;
  index_lt = omega arith;
}

-- The broadcast is in the ring, and at least `m` new ones are stored before it is overwritten.
pub record IsKept (id m : ℕ) (s : Broadcasts) : Type 0 where
  pub ring : IsBroadcasts s
  pub left : ℕ
  pub left_ge : m ≤ left
  pub left_lt : left < 10
  pub stands : get_elem? s.broadcast_list ((s.broadcast_index + left) % 10) ≡ some id

pub kept_old : (id m : ℕ) (s : Broadcasts) → IsKept id m s → is_old_broadcast id s ≡ some (true, s)
kept_old id m s k = old_broadcast id ((s.broadcast_index + k.left) % 10) s k.stands

pub remembered-IsKept : (id : ℕ) (s : Broadcasts) → IsBroadcasts s → IsKept id 9 (remembered id s)
remembered-IsKept id s v = record {
  ring = remembered-IsBroadcasts id s v;
  left = 9;
  left_ge = omega arith;
  left_lt = omega arith;
  stands =
      ap (get_elem? (set s.broadcast_list s.broadcast_index id)) place
      ∙ get_elem?-set_self s.broadcast_list s.broadcast_index id (omega (arith, v));
}
  where
    place : ((s.broadcast_index + 1) % 10 + 9) % 10 ≡ s.broadcast_index
    place = omega (arith, v)

next-IsKept : (id x m : ℕ) (s : Broadcasts) → IsKept id (suc m) s → IsKept id m (remembered x s)
next-IsKept id x m s k = record {
  ring = remembered-IsBroadcasts x s k.ring;
  left = k.left - 1;
  left_ge = omega (arith, k.left_ge);
  left_lt = omega (arith, k.left_lt);
  stands =
      ap (get_elem? (set s.broadcast_list s.broadcast_index x)) place
      ∙ get_elem?-set_ne s.broadcast_list x other
      ∙ k.stands;
}
  where
    place : ((s.broadcast_index + 1) % 10 + (k.left - 1)) % 10 ≡ (s.broadcast_index + k.left) % 10
    place = omega (arith, k.left_ge)

    other : s.broadcast_index ≢ (s.broadcast_index + k.left) % 10
    other e = absurd (omega (arith, e, k.left_ge, k.left_lt, k.ring.index_lt))

pub weaker-IsKept : (id m : ℕ) (s : Broadcasts) → IsKept id (suc m) s → IsKept id m s
weaker-IsKept id m s k = record {
  ring = k.ring;
  left = k.left;
  left_ge = omega (arith, k.left_ge);
  left_lt = k.left_lt;
  stands = k.stands;
}

-- Another broadcast is asked for.
pub asked-IsKept :
    (id x m : ℕ) (s : Broadcasts)
    → IsKept id (suc m) s
    → (known : Bool) × (b : Broadcasts) × (is_old_broadcast x s ≡ some (known, b)) × IsKept id m b
asked-IsKept id x m s k = elim (listed_or_new x s.broadcast_list) [
  | inl (i, e) ↦ (true, s, old_broadcast x i s e, weaker-IsKept id m s k)
  | inr h ↦ (false, remembered x s, new_broadcast x s k.ring h, next-IsKept id x m s k)
]

-- isOldBroadcast on a well-formed ring makes no access out of range. Where the broadcast is in the
-- list, it says yes and changes nothing; where it is not, it says no, and the broadcast takes the place
-- of the entry at the index, which then goes on to the next of the ten. The ring stays
-- well-formed, and asked again the function says yes and changes nothing.
pub is_old_broadcast_lem :
    (id : ℕ) (s : Broadcasts)
    → IsBroadcasts s
    → ((i : ℕ) × (get_elem? s.broadcast_list i ≡ some id)
        × (is_old_broadcast id s ≡ some (true, s)))
      ⊎ All (λ b. b ≢ id) s.broadcast_list
        × (is_old_broadcast id s ≡ some (false, remembered id s))
        × IsBroadcasts (remembered id s)
        × (is_old_broadcast id (remembered id s) ≡ some (true, remembered id s))
is_old_broadcast_lem id s v = elim (listed_or_new id s.broadcast_list) [
  | inl (i, e) ↦ inl (i, e, old_broadcast id i s e)
  | inr h ↦ inr (
    h,
    new_broadcast id s v h,
    remembered-IsBroadcasts id s v,
    kept_old id 9 (remembered id s) (remembered-IsKept id s v),
  )
]

pub asked-IsBroadcasts :
    (x : ℕ) (s : Broadcasts)
    → IsBroadcasts s
    → (known : Bool) × (b : Broadcasts) × (is_old_broadcast x s ≡ some (known, b)) × IsBroadcasts b
asked-IsBroadcasts x s v = elim (is_old_broadcast_lem x s v) [
  | inl (i, e, old) ↦ (true, s, old, v)
  | inr (h, new, after, again) ↦ (false, remembered x s, new, after)
]
