-- ===== src/MeshReceive/Broadcast.antt =====
-- The broadcasts that OnRxDone of lora_mesh.c passes on.
use edge_pdl.Prelude.{
  length-append, length-take, length-drop, take, drop, ◌++◌, ◌+◌, ℕ, zero, suc, ◌≤◌, length, All,
  ◌≢◌, subst, arith, ◌-◌, ◌^◌, ◌<◌, Option, some, ◌>>=◌, Bool, Bool-cases, inl, inr, true, false,
}
use edge_pdl.Prelude.{if◌then◌else◌, ◌==◌, List, [], ◌∷◌, ◌≡◌, refl, sym}
use edge_pdl.MeshRoute.{Broadcasts, is_old_broadcast}
use edge_pdl.MeshRoute.Broadcast.{
  IsBroadcasts, IsKept, kept_old, weaker-IsKept, asked-IsKept, asked-IsBroadcasts, remembered,
  remembered-IsKept, new_broadcast,
}
use edge_pdl.MeshSend.{Message, no_message, Mesh, send_request}
use edge_pdl.MeshSend.Slots.{IsWhole, filled, stored, send_request-stored}
use edge_pdl.MeshRoute.Live.{All-append, All-left, All-right}
use edge_pdl.MeshReceive.{
  Station, Reception, Delivery, on_message, on_broadcast, broadcast_id, pass_on, pass_end, silent,
}
use edge_pdl.MeshReceive.Handlers.{message, src_word, dst_word}

module _ (fuel node_id : ℕ) (r : Reception) (src dst orig : ℕ) (rest : List ℕ) (len : ℕ)
    (p : src < 2 ^ 32) (q : dst < 2 ^ 32) where
  abbrev handles : Station → Option (List Delivery × Station)
  handles s = on_message fuel node_id r (message 3 src dst orig rest) len s

  dismisses_own :
      (s : Station)
      → (broadcast_id dst == broadcast_id node_id) ≡ true
      → handles s ≡ some (silent s)
  unfolding on_message on_broadcast
  dismisses_own s own =
      rw (src_word 3 src dst orig rest p, dst_word 3 src dst orig rest q, own) refl

  dismisses_old :
      (b : Broadcasts) (s : Station)
      → s.broadcasts ≡ b
      → (broadcast_id dst == broadcast_id node_id) ≡ false
      → is_old_broadcast dst b ≡ some (true, b)
      → handles s ≡ some (silent s)
  unfolding on_message on_broadcast
  dismisses_old b s eq other old =
      rw (src_word 3 src dst orig rest p, dst_word 3 src dst orig rest q, other, asked) refl
    where
      asked : is_old_broadcast dst s.broadcasts ≡ some (true, s.broadcasts)
      asked = rw eq old

  asks :
      (b : Broadcasts) (known : Bool) (s : Station)
      → (broadcast_id dst == broadcast_id node_id) ≡ false
      → is_old_broadcast dst s.broadcasts ≡ some (known, b)
      → handles s ≡ (
          if known
          then some (silent (record s { broadcasts = b }))
          else pass_on (message 3 src dst orig rest) len r.queued (record s { broadcasts = b })
            >>= (λ passed.
                some (record { from = src; data_from = rest; size = len - 16 } ∷ [], passed)))
  unfolding on_message on_broadcast
  asks b known s other asked =
      rw (src_word 3 src dst orig rest p, dst_word 3 src dst orig rest q, other, asked) refl

-- A broadcast as it is received.
pub record Heard : Type 0 where
  pub reception : Reception
  pub src : ℕ
  pub dst : ℕ
  pub orig : ℕ
  pub rest : List ℕ
  pub len : ℕ
  pub src_word : src < 2 ^ 32
  pub dst_word : dst < 2 ^ 32

abbrev pub hear_broadcast : ℕ → ℕ → Heard → Station → Option (List Delivery × Station)
hear_broadcast fuel node_id h s =
    on_message fuel node_id h.reception (message 3 h.src h.dst h.orig h.rest) h.len s

-- Broadcasts that are received in turn.
abbrev pub hear_broadcasts : ℕ → ℕ → List Heard → Station → Option Station
hear_broadcasts fuel node_id [] s = some s
hear_broadcasts fuel node_id (h ∷ hs) s =
    hear_broadcast fuel node_id h s >>= λ r. hear_broadcasts fuel node_id hs r.1

-- meshSendRequest of a message that fits leaves whole entries whole.
send-IsWhole :
    (msg : List ℕ) (size : ℕ) (queued : Bool) (m : Mesh)
    → All IsWhole m.messages
    → size ≤ 256
    → size ≤ length msg
    → (o : Bool × Mesh) × (send_request msg size queued m ≡ some o) × All IsWhole o.1.messages
send-IsWhole msg size queued m whole fits known =
    elim (send_request-stored msg size queued m whole fits known) [
      | inl (all, e) ↦ (_, e, whole)
      | inr (xs, e, ys, eq, all, empty, sent) ↦
          let old : All IsWhole (xs ++ e ∷ ys) = rw (← eq) whole in
          let left : All IsWhole xs = All-left IsWhole xs (e ∷ ys) old in
          let right : IsWhole e × All IsWhole ys = All-right IsWhole xs (e ∷ ys) old in
          (_, sent, by_queue queued xs e ys left right)
    ]
  where
    by_queue :
        (q : Bool) (xs : List Message) (e : Message) (ys : List Message)
        → All IsWhole xs
        → IsWhole e × All IsWhole ys
        → All IsWhole (stored q msg size xs e ys m).1.messages
    by_queue true xs e ys left (here, behind) =
        All-append IsWhole xs (filled msg size e ∷ ys) left (
          omega (
            arith,
            here,
            fits,
            known,
            length-append (take size msg) (drop size e.bytes),
            length-take size msg,
            length-drop size e.bytes,
          ),
          behind,
        )
    by_queue false xs e ys left (here, behind) =
        All-append IsWhole xs (no_message ∷ ys) left (refl, behind)

-- A broadcast that fits an entry and is as long as its length says.
abbrev pub Fits : Heard → Type 0
Fits h = (h.len ≤ 256) × (h.len ≤ 16 + length h.rest)

pass_on_lem :
    (buf : List ℕ) (len : ℕ) (queued : Bool) (s : Station)
    → All IsWhole s.mesh.messages
    → len ≤ 256
    → len ≤ length buf
    → (u : Station) × (pass_on buf len queued s ≡ some u)
      × (u.broadcasts ≡ s.broadcasts)
      × All IsWhole u.mesh.messages
unfolding pass_on
pass_on_lem buf len queued s whole fits known =
    let (o, e, after) = send-IsWhole buf len queued s.mesh whole fits known in
    let (u, ended, same, rest) = by_end o after in (u, rw e ended, same, rest)
  where
    by_end :
        (o : Bool × Mesh)
        → All IsWhole o.1.messages
        → (u : Station) × (pass_end s o ≡ some u)
          × (u.broadcasts ≡ s.broadcasts)
          × All IsWhole u.mesh.messages
    by_end (true, m) h = (_, refl, refl, h)
    by_end (false, m) h = (_, refl, refl, h)

-- A broadcast that is not one's own leaves the ring as isOldBroadcast does.
hear_other :
    (fuel node_id : ℕ) (h : Heard) (known : Bool) (b : Broadcasts) (s : Station)
    → (broadcast_id h.dst == broadcast_id node_id) ≡ false
    → is_old_broadcast h.dst s.broadcasts ≡ some (known, b)
    → All IsWhole s.mesh.messages
    → Fits h
    → (r : List Delivery × Station) × (hear_broadcast fuel node_id h s ≡ some r)
      × (r.1.broadcasts ≡ b)
      × All IsWhole r.1.mesh.messages
hear_other fuel node_id h known b s other asked whole fit =
    rw
      (asks fuel node_id h.reception h.src h.dst h.orig h.rest h.len h.src_word h.dst_word b known s
        other asked)
      (by_answer known)
  where
    by_answer :
        (known : Bool)
        → (r : List Delivery × Station) × ((if known
              then some (silent (record s { broadcasts = b }))
              else pass_on
                  (message 3 h.src h.dst h.orig h.rest)
                  h.len
                  h.reception.queued
                  (record s { broadcasts = b })
                >>= (λ passed.
                    some (
                      record { from = h.src; data_from = h.rest; size = h.len - 16 } ∷ [],
                      passed,
                    )))
            ≡ some r)
          × (r.1.broadcasts ≡ b)
          × All IsWhole r.1.mesh.messages
    by_answer true = (_, refl, refl, whole)
    by_answer false =
        let (u, e, same, after) =
          pass_on_lem (message 3 h.src h.dst h.orig h.rest) h.len h.reception.queued
            (record s { broadcasts = b }) whole fit.0 (omega (arith, fit)) in
        rw e (_, refl, same, after)

-- What isOldBroadcast leaves of the ring step by step, a row of broadcasts leaves of it.
module _ (I : ℕ → Broadcasts → Type 0) (weaker : (m : ℕ) (b : Broadcasts) → I (suc m) b → I m b)
    (asked : (x m : ℕ) (s : Broadcasts)
      → I (suc m) s
      → (known : Bool) × (b : Broadcasts) × (is_old_broadcast x s ≡ some (known, b)) × I m b)
    (fuel node_id : ℕ) where
  hear_lem :
      (m : ℕ) (h : Heard) (s : Station)
      → I (suc m) s.broadcasts
      → All IsWhole s.mesh.messages
      → Fits h
      → (r : List Delivery × Station) × (hear_broadcast fuel node_id h s ≡ some r)
        × I m r.1.broadcasts
        × All IsWhole r.1.mesh.messages
  hear_lem m h s k whole fit = elim (Bool-cases (broadcast_id h.dst == broadcast_id node_id)) [
    | inl own ↦ (
      silent s,
      dismisses_own fuel node_id h.reception h.src h.dst h.orig h.rest h.len h.src_word h.dst_word s
          own,
      weaker m s.broadcasts k,
      whole,
    )
    | inr other ↦
        let (known, b, told, kept) = asked h.dst m s.broadcasts k in
        let (r, e, same, after) = hear_other fuel node_id h known b s other told whole fit in
        (r, e, subst (I m) (sym same) kept, after)
  ]

  hear_broadcasts_lem :
      (hs : List Heard) (m : ℕ) (s : Station)
      → I m s.broadcasts
      → All IsWhole s.mesh.messages
      → All Fits hs
      → length hs ≤ m
      → (u : Station) × (hear_broadcasts fuel node_id hs s ≡ some u) × I 0 u.broadcasts
  hear_broadcasts_lem [] zero s k whole fit few = (s, refl, k)
  hear_broadcasts_lem [] (suc m) s k whole fit few =
      hear_broadcasts_lem [] m s (weaker m s.broadcasts k) whole fit (omega arith)
  hear_broadcasts_lem (h ∷ hs) zero s k whole fit few = absurd (omega (arith, few))
  hear_broadcasts_lem (h ∷ hs) (suc m) s k whole (fit, fits) few =
      let (r, e, kept, after) = hear_lem m h s k whole fit in
      rw e (hear_broadcasts_lem hs m r.1 kept after fits (omega (arith, few)))

-- A broadcast of which the id is not in the ring, received once, then at most nine other broadcasts,
-- and then one with that id again, from whichever node, where all fit the entries of the messages to
-- send: all are handled with no access out of range, and the last one is neither delivered nor passed
-- on, and it changes nothing.
pub broadcast_once :
    (fuel node_id : ℕ) (first again : Heard) (between : List Heard) (s : Station)
    → IsBroadcasts s.broadcasts
    → All (λ b. b ≢ first.dst) s.broadcasts.broadcast_list
    → All IsWhole s.mesh.messages
    → Fits first
    → All Fits between
    → again.dst ≡ first.dst
    → length between ≤ 9
    → (u : Station) × ((hear_broadcast fuel node_id first s >>= λ r.
          hear_broadcasts fuel node_id between r.1)
        ≡ some u)
      × (hear_broadcast fuel node_id again u ≡ some (silent u))
broadcast_once fuel node_id first again between s ring new whole fit fits same few =
    elim (Bool-cases (broadcast_id first.dst == broadcast_id node_id)) [
      | inl own ↦
          let (u, e, kept) =
            hear_broadcasts_lem (λ m b. IsBroadcasts b) (λ m b k. k)
              (λ x m b k. asked-IsBroadcasts x b k) fuel node_id between 9 s ring whole fits few in
          (
            u,
            rw
                (dismisses_own fuel node_id first.reception first.src first.dst first.orig
                  first.rest first.len first.src_word first.dst_word s own)
                e,
            dismisses_own fuel node_id again.reception again.src again.dst again.orig again.rest
                again.len again.src_word again.dst_word u (rw same own),
          )
      | inr other ↦
          let (r, e, told, after) =
            hear_other fuel node_id first false (remembered first.dst s.broadcasts) s other
              (new_broadcast first.dst s.broadcasts ring new) whole fit in
          let (u, f, kept) =
            hear_broadcasts_lem (IsKept first.dst) (weaker-IsKept first.dst)
              (asked-IsKept first.dst) fuel node_id between 9 r.1
              (subst (IsKept first.dst 9) (sym told)
                (remembered-IsKept first.dst s.broadcasts ring))
              after fits few in
          (
            u,
            rw e f,
            dismisses_old fuel node_id again.reception again.src again.dst again.orig again.rest
                again.len again.src_word again.dst_word u.broadcasts u refl (rw same other)
                (rw same (kept_old first.dst 0 u.broadcasts kept)),
          )
    ]
