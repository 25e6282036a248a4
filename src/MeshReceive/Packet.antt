-- ===== src/MeshReceive/Packet.antt =====
-- The tests that OnRxDone of lora_mesh.c makes of a packet before it is handled by its type.
use edge_pdl.Prelude.{
  ℕ, zero, suc, ◌+◌, ◌-◌, ◌*◌, ◌/◌, ◌%◌, ◌^◌, ◌≤◌, ◌<◌, Option, some, ◌>>=◌, true, false,
}
use edge_pdl.Prelude.{
  if◌then◌else◌, ltb, ◌==◌, List, [], ◌∷◌, ◌++◌, length, length-append, length-set,
  length-replicate, get_elem?, get_elem?_of_lt, set, AllBytes, append_assoc, append-nil, replicate,
  ◌≡◌, ◌≢◌, refl, sym, ap, ◌∙◌, arith,
}
use edge_pdl.Buffer.{read_bytes, read_bytes_all}
use edge_pdl.Crc16.{calc_block}
use edge_pdl.Crc16.Detect.{
  calc_block-calc_byte, calc_block_prefix, calc_block_detects, calc_byte-word,
}
use edge_pdl.MeshRoute.Live.{get_elem?-append, All-append}
use edge_pdl.MeshSend.{Command, listen, idle}
use edge_pdl.MeshSend.Transmit.{crc_of, crc_bytes}
use edge_pdl.MeshReceive.{
  Station, Reception, Delivery, load16, load32, store16, is_marked, receive, on_marked, on_message,
  handle_packet, on_rx_done, silent,
}

-- Writes behind what the buffer starts with.
set_behind :
    (xs ys : List ℕ) (i b : ℕ)
    → length xs ≤ i
    → (zs : List ℕ) × (set (xs ++ ys) i b ≡ xs ++ zs) × (length zs ≡ length ys)
set_behind [] ys i b h = (set ys i b, refl, length-set ys i b)
set_behind (x ∷ xs) ys zero b h = absurd (omega (arith, h))
set_behind (x ∷ xs) ys (suc i) b h =
    let (zs, e, size) = set_behind xs ys i b (omega (arith, h)) in (zs, ap (λ t. x ∷ t) e, size)

pub store16_behind :
    (xs ys : List ℕ) (i word : ℕ)
    → length xs ≤ i
    → (zs : List ℕ) × (store16 (xs ++ ys) i word ≡ xs ++ zs) × (length zs ≡ length ys)
unfolding store16
store16_behind xs ys i word h =
    let (zs, e, size) = set_behind xs ys i (word % 256) h in
    let (ws, f, size₂) = set_behind xs zs (i + 1) (word / 2 ^ 8 % 256) (omega (arith, h)) in
    (ws, rw e f, size₂ ∙ size)

get_elem?-next :
    (xs ys : List ℕ) (x y : ℕ) → get_elem? (xs ++ x ∷ y ∷ ys) (suc (length xs)) ≡ some y
get_elem?-next [] ys x y = refl
get_elem?-next (z ∷ xs) ys x y = get_elem?-next xs ys x y

pub load16_at :
    (xs ys : List ℕ) (lo hi : ℕ) → load16 (xs ++ lo ∷ hi ∷ ys) (length xs) ≡ some (lo + 256 * hi)
unfolding load16
load16_at xs ys lo hi = rw (get_elem?-append xs (hi ∷ ys) lo, next) refl
  where
    next : get_elem? (xs ++ lo ∷ hi ∷ ys) (length xs + 1) ≡ some hi
    next = ap (get_elem? (xs ++ lo ∷ hi ∷ ys)) (omega arith) ∙ get_elem?-next xs ys lo hi

-- A word inside the buffer is read.
load16_inside : (buf : List ℕ) (at : ℕ) → at + 2 ≤ length buf → (v : ℕ) × (load16 buf at ≡ some v)
unfolding load16
load16_inside buf at h =
    let (lo, e) = get_elem?_of_lt buf at (omega (arith, h)) in
    let (hi, f) = get_elem?_of_lt buf (at + 1) (omega (arith, h)) in (lo + 256 * hi, rw (e, f) refl)

pub load32_inside :
    (buf : List ℕ) (at : ℕ) → at + 4 ≤ length buf → (v : ℕ) × (load32 buf at ≡ some v)
unfolding load32
load32_inside buf at h =
    let (lo, e) = load16_inside buf at (omega (arith, h)) in
    let (hi, f) = load16_inside buf (at + 2) (omega (arith, h)) in
    (lo + 2 ^ 16 * hi, rw (e, f) refl)

-- The radio is idle again.
abbrev pub ready : Station → Station
ready s = record s { mesh = record s.mesh { state = idle } }

abbrev pub report : List Delivery × Station → Option (List Command × List Delivery × Station)
report done = some (listen ∷ [], done.0, done.1)

abbrev pub count_crc : Station → Station
count_crc s = record s { msg_crc = (s.msg_crc + 1) % 2 ^ 32 }

read_whole : (n : ℕ) (bs : List ℕ) → n ≡ length bs → read_bytes n bs ≡ some bs
read_whole n bs e =
    ap (λ k. read_bytes k bs) e
    ∙ ap (read_bytes (length bs)) (sym (append-nil bs))
    ∙ read_bytes_all bs []

-- A packet of a marked message and the two bytes of a checksum.
module _ (fuel node_id : ℕ) (r : Reception) (s : Station) (body : List ℕ) (lo hi : ℕ)
    (packet_eq : r.packet ≡ 76 ∷ 82 ∷ 77 ∷ (body ++ lo ∷ hi ∷ []))
    (size_eq : r.size ≡ length body + 5) (bytes : AllBytes body) (long : 13 ≤ length body)
    (short : length body ≤ 250) where
  abbrev content : List ℕ
  content = 76 ∷ 82 ∷ 77 ∷ body

  abbrev padding : List ℕ
  padding = replicate (260 - r.size) 0

  size_content : r.size - 2 ≡ length content
  size_content = omega (arith, size_eq)

  received : receive r.packet r.size ≡ some (content ++ lo ∷ hi ∷ padding)
  unfolding receive
  received =
      rw (packet_eq, read_whole r.size (content ++ lo ∷ hi ∷ []) sized)
        (ap some (append_assoc content (lo ∷ hi ∷ []) padding))
    where
      sized : r.size ≡ length (content ++ lo ∷ hi ∷ [])
      sized = omega (arith, size_eq, length-append content (lo ∷ hi ∷ []))

  -- The length is stored behind the packet.
  len_stored :
      (zs : List ℕ) × (store16 (content ++ lo ∷ hi ∷ padding) 256 (r.size - 2)
        ≡ content ++ lo ∷ hi ∷ zs)
      × (length zs ≡ length padding)
  len_stored =
      let (zs, e, size) =
        store16_behind (content ++ lo ∷ hi ∷ []) padding 256 (r.size - 2)
          (omega (arith, short, length-append content (lo ∷ hi ∷ []))) in
      (
        zs,
        ap (λ t. store16 t 256 (r.size - 2)) (sym (append_assoc content (lo ∷ hi ∷ []) padding))
            ∙ e
            ∙ append_assoc content (lo ∷ hi ∷ []) zs,
        size,
      )

  checked :
      (zs : List ℕ) → calc_block (content ++ lo ∷ hi ∷ zs) (length content) ≡ some (crc_of content)
  checked zs =
      calc_block_prefix content (lo ∷ hi ∷ zs)
      ∙ calc_block-calc_byte content (omega arith, (omega arith, (omega arith, bytes)))

  marked :
      (t : Station)
      → (rest : List ℕ) × (length rest ≡ 260 - length content)
        × (on_marked fuel node_id r r.size (content ++ lo ∷ hi ∷ padding) t ≡ (
            if lo + 256 * hi == crc_of content
            then on_message fuel node_id r (content ++ rest) (length content) t
            else some (silent (count_crc t))))
  unfolding on_marked
  marked t =
      let (zs, e, size) = len_stored in
      let (rest, f, size₂) =
        store16_behind content (lo ∷ hi ∷ zs) 258 (lo + 256 * hi) (omega (arith, short)) in
      (
        rest,
        omega (arith, size₂, size, size_eq, short, length-replicate {A = ℕ} (260 - r.size) 0),
        rw (e, size_content, checked zs, load16_at content zs lo hi, f) refl,
      )

  -- The packet goes on to its type where the checksum is that of the message, and is counted
  -- where not.
  opens :
      (rest : List ℕ) × (length rest ≡ 260 - length content)
      × (on_rx_done fuel node_id r s
          ≡ (if lo + 256 * hi == crc_of content
              then on_message fuel node_id r (content ++ rest) (length content) (ready s)
              else some (silent (count_crc (ready s))))
            >>= report)
  unfolding on_rx_done handle_packet is_marked
  opens =
      let (rest, size, e) = marked (ready s) in (rest, size, rw (fits, received, enough, e) refl)
    where
      fits : ltb 260 r.size ≡ false
      fits = ground (arith, size_eq, short)

      enough : ltb r.size 18 ≡ false
      enough = ground (arith, size_eq, long)

-- A packet of a marked message of at least 16 bytes and its CRC, as process_send_queue makes it:
-- OnRxDone listens again, makes the radio idle and handles the message by its type, with the length
-- of the message and a buffer that starts with it.
pub on_rx_done_intact :
    (fuel node_id : ℕ) (r : Reception) (s : Station) (body : List ℕ)
    → r.packet ≡ 76 ∷ 82 ∷ 77 ∷ (body ++ crc_bytes (crc_of (76 ∷ 82 ∷ 77 ∷ body)))
    → r.size ≡ length body + 5
    → AllBytes body
    → 13 ≤ length body
    → length body ≤ 250
    → (rest : List ℕ) × (length rest ≡ 257 - length body)
      × (on_rx_done fuel node_id r s
          ≡ on_message fuel node_id r (76 ∷ 82 ∷ 77 ∷ (body ++ rest)) (length body + 3) (ready s)
            >>= report)
on_rx_done_intact fuel node_id r s body packet_eq size_eq bytes long short =
    let (rest, size, e) =
      opens fuel node_id r s body (crc % 256) (crc / 2 ^ 8 % 256) packet_eq size_eq bytes long
        short in
    (
      rest,
      omega (arith, size),
      e
          ∙ rw same (
              ap
                (λ n.
                  on_message fuel node_id r (76 ∷ 82 ∷ 77 ∷ (body ++ rest)) n (ready s) >>= report)
                (omega arith)),
    )
  where
    crc : ℕ
    crc = crc_of (76 ∷ 82 ∷ 77 ∷ body)

    same : (crc % 256 + 256 * (crc / 2 ^ 8 % 256) == crc) ≡ true
    same = ground (
      arith,
      calc_byte-word (76 ∷ 82 ∷ 77 ∷ body) (omega arith, (omega arith, (omega arith, bytes))),
    )

-- The same packet with one byte behind the mark replaced by another: OnRxDone counts an error of the
-- CRC, delivers nothing and changes nothing else but that the radio is idle.
pub on_rx_done_damaged :
    (fuel node_id : ℕ) (r : Reception) (s : Station) (before after : List ℕ) (a b : ℕ)
    → r.packet
      ≡ 76
        ∷ 82
        ∷ 77
        ∷ ((before ++ b ∷ after) ++ crc_bytes (crc_of (76 ∷ 82 ∷ 77 ∷ (before ++ a ∷ after))))
    → r.size ≡ length (before ++ a ∷ after) + 5
    → AllBytes before
    → AllBytes after
    → a < 256
    → b < 256
    → a ≢ b
    → 13 ≤ length (before ++ a ∷ after)
    → length (before ++ a ∷ after) ≤ 250
    → on_rx_done fuel node_id r s ≡ some (listen ∷ [], [], count_crc (ready s))
on_rx_done_damaged fuel node_id r s before after a b packet_eq size_eq hb ha p q ne long short =
    let (rest, size, e) =
      opens fuel node_id r s (before ++ b ∷ after) (crc % 256) (crc / 2 ^ 8 % 256) packet_eq
        (omega (arith, size_eq, same_length)) (All-append _ before (b ∷ after) hb (q, ha))
        (omega (arith, long, same_length)) (omega (arith, short, same_length)) in
    e ∙ rw differs refl
  where
    crc : ℕ
    crc = crc_of (76 ∷ 82 ∷ 77 ∷ (before ++ a ∷ after))

    same_length : length (before ++ b ∷ after) ≡ length (before ++ a ∷ after)
    same_length = omega (arith, length-append before (a ∷ after), length-append before (b ∷ after))

    block :
        (x : ℕ)
        → x < 256
        → calc_block
            (76 ∷ 82 ∷ 77 ∷ (before ++ x ∷ after))
            (length (76 ∷ 82 ∷ 77 ∷ before) + suc (length after))
          ≡ some (crc_of (76 ∷ 82 ∷ 77 ∷ (before ++ x ∷ after)))
    block x r =
        ap (calc_block (76 ∷ 82 ∷ 77 ∷ (before ++ x ∷ after)))
          (omega (arith, length-append before (x ∷ after)))
        ∙ calc_block-calc_byte (76 ∷ 82 ∷ 77 ∷ (before ++ x ∷ after))
            (omega arith, (omega arith, (omega arith, All-append _ before (x ∷ after) hb (r, ha))))

    other_crc : crc_of (76 ∷ 82 ∷ 77 ∷ (before ++ b ∷ after)) ≢ crc
    other_crc eq =
        calc_block_detects (76 ∷ 82 ∷ 77 ∷ before) after a b
          (omega arith, (omega arith, (omega arith, hb))) ha p q ne
          (block a p ∙ ap some (sym eq) ∙ sym (block b q))

    differs :
        (crc % 256 + 256 * (crc / 2 ^ 8 % 256) == crc_of (76 ∷ 82 ∷ 77 ∷ (before ++ b ∷ after)))
        ≡ false
    differs = ground (
      arith,
      other_crc,
      calc_byte-word (76 ∷ 82 ∷ 77 ∷ (before ++ a ∷ after))
          (omega arith, (omega arith, (omega arith, All-append _ before (a ∷ after) hb (p, ha)))),
    )
