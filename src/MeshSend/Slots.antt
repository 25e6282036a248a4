-- ===== src/MeshSend/Slots.antt =====
-- The array of messages under meshSendRequest and the callbacks.
use edge_pdl.Prelude.{
  ℕ, ◌+◌, ◌%◌, ◌^◌, ◌≤◌, Option, none, some, Bool, true, false, Bool-cases, ◌⊎◌, inl, inr,
}
use edge_pdl.Prelude.{
  if◌then◌else◌, List, [], ◌∷◌, ◌++◌, length, length-take, get_elem?, set, take, drop, All, ◌≡◌,
  refl, ap, arith,
}
use edge_pdl.Buffer.{put_all_lem, read_bytes-take}
use edge_pdl.MeshRoute.Live.{get_elem?-append, set-append, All-right}
use edge_pdl.MeshSend.{Message, no_message, Mesh, is_empty, find_empty, fill_empty, send_request}

abbrev pub IsOccupied : Message → Type 0
IsOccupied m = is_empty m ≡ false

abbrev pub IsWhole : Message → Type 0
IsWhole m = length m.bytes ≡ 256

find_empty_lem :
    (ms : List Message) (k : ℕ)
    → ((find_empty ms k ≡ none) × All IsOccupied ms)
      ⊎ (xs : List Message) × (m : Message) × (ys : List Message) × (find_empty ms k
          ≡ some (k + length xs))
        × (ms ≡ xs ++ m ∷ ys)
        × (is_empty m ≡ true)
        × All IsOccupied xs
unfolding find_empty
find_empty_lem [] k = inl (refl, tt)
find_empty_lem (x ∷ ms) k = elim (Bool-cases (is_empty x)) [
  | inl empty ↦ inr ([], x, ms, rw empty (ap some (omega arith)), refl, empty, tt)
  | inr occupied ↦ elim (find_empty_lem ms (k + 1)) [
    | inl (missing, all) ↦ inl (rw (occupied, missing) refl, (occupied, all))
    | inr (xs, m, ys, found, eq, empty, all) ↦ inr (
      x ∷ xs,
      m,
      ys,
      rw (occupied, found) (ap some (omega arith)),
      ap (λ t. x ∷ t) eq,
      empty,
      (occupied, all),
    )
  ]
]

-- A message of `size` bytes in an entry.
abbrev pub filled : List ℕ → ℕ → Message → Message
filled msg size m = record m { bytes = take size msg ++ drop size m.bytes; len = size }

-- What the function returns and leaves where there is an entry for the message.
abbrev pub stored : Bool → List ℕ → ℕ → List Message → Message → List Message → Mesh → Bool × Mesh
stored true msg size xs m ys s = (true, record s { messages = xs ++ filled msg size m ∷ ys })
stored false msg size xs m ys s =
    (false, record s { messages = xs ++ no_message ∷ ys; tx_error = (s.tx_error + 1) % 2 ^ 32 })

fill_lem :
    (msg : List ℕ) (size : ℕ) (queued : Bool) (s : Mesh) (xs ys : List Message) (m : Message)
    → s.messages ≡ xs ++ m ∷ ys
    → IsWhole m
    → size ≤ 256
    → size ≤ length msg
    → fill_empty msg size queued (some (length xs)) s ≡ some (stored queued msg size xs m ys s)
unfolding fill_empty
fill_lem msg size queued s xs ys m eq whole fits known =
    rw
      (
        found,
        read_bytes-take size msg known,
        put_all_lem (take size msg) [] m.bytes (omega (arith, len_eq, whole, fits)),
        len_eq,
      )
      (by_queue queued)
  where
    len_eq : length (take size msg) ≡ size
    len_eq = omega (arith, length-take size msg, known)

    found : get_elem? s.messages (length xs) ≡ some m
    found = rw eq (get_elem?-append xs ys m)

    replaced : (n : Message) → set s.messages (length xs) n ≡ xs ++ n ∷ ys
    replaced n = rw eq (set-append xs ys m n)

    by_queue :
        (queued : Bool)
        → ◌≡◌ {A = Option (Bool × Mesh)}
            (if queued
              then some
                  (true, record s { messages = set s.messages (length xs) (filled msg size m) })
              else some (
                false,
                record s {
                  messages = set s.messages (length xs) no_message;
                  tx_error = (s.tx_error + 1) % 2 ^ 32;
                },
              ))
            (some (stored queued msg size xs m ys s))
    by_queue true = ap (λ t. some (true, record s { messages = t })) (replaced (filled msg size m))
    by_queue false =
        ap (λ t. some (false, record s { messages = t; tx_error = (s.tx_error + 1) % 2 ^ 32 }))
          (replaced no_message)

-- meshSendRequest of a message that fits an entry: where every entry is occupied it counts an error
-- and returns false; else it takes the first entry that is empty, and where the queue accepts that,
-- the entry holds the message and the result is true; where it does not, the entry is cleared, an
-- error counted and the result false. It touches no other entry, and nothing out of range.
pub send_request-stored :
    (msg : List ℕ) (size : ℕ) (queued : Bool) (s : Mesh)
    → All IsWhole s.messages
    → size ≤ 256
    → size ≤ length msg
    → All IsOccupied s.messages
        × (send_request msg size queued s
            ≡ some (false, record s { tx_error = (s.tx_error + 1) % 2 ^ 32 }))
      ⊎ (xs : List Message) × (m : Message) × (ys : List Message) × (s.messages ≡ xs ++ m ∷ ys)
        × All IsOccupied xs
        × (is_empty m ≡ true)
        × (send_request msg size queued s ≡ some (stored queued msg size xs m ys s))
unfolding send_request fill_empty
send_request-stored msg size queued s whole fits known = elim (find_empty_lem s.messages 0) [
  | inl (missing, all) ↦ inl (all, rw missing refl)
  | inr (xs, m, ys, found, eq, empty, all) ↦
      let index : 0 + length xs ≡ length xs = omega arith in
      let whole_m : All IsWhole (xs ++ m ∷ ys) = rw (← eq) whole in
      inr (
        xs,
        m,
        ys,
        eq,
        all,
        empty,
        rw (found, index)
            (fill_lem msg size queued s xs ys m eq (All-right IsWhole xs (m ∷ ys) whole_m).0 fits
              known),
      )
]
