-- ===== src/MeshSend/Transmit.antt =====
-- The way of a message of lora_mesh.c from the queue to the radio.
use edge_pdl.Prelude.{
  ℕ, ◌+◌, ◌/◌, ◌%◌, ◌^◌, ◌≤◌, ◌<◌, bit_and, Option, some, true, false, leb, Bool-cases, ◌⊎◌, inl,
  inr,
}
use edge_pdl.Prelude.{
  List, [], ◌∷◌, ◌++◌, length, length-append, get_elem?, set, drop, foldl, AllBytes, ◌≡◌, refl, ap,
  arith,
}
use edge_pdl.Bits.{bit_and_comm, bit_and-lt}
use edge_pdl.Buffer.{put_all_lem, read_bytes_all}
use edge_pdl.Crc16.{calc_byte, get_seed}
use edge_pdl.Crc16.Detect.{calc_block-calc_byte, calc_block_prefix}
use edge_pdl.MeshRoute.Live.{get_elem?-append, set-append}
use edge_pdl.MeshSend.{
  Message, no_message, Mesh, idle, tx, listen, start_cad, send, append_crc, unstick, start_tx,
  next_tx, process_send_queue, channel_busy, channel_free, on_cad_done,
}

abbrev pub crc_of : List ℕ → ℕ
crc_of content = foldl calc_byte get_seed content

abbrev pub crc_bytes : ℕ → List ℕ
crc_bytes crc = (crc % 256) ∷ (crc / 2 ^ 8 % 256) ∷ []

-- A message in its entry, and what it is once its CRC is put behind it.
abbrev pub queued_message : List ℕ → List ℕ → ℕ → Message
queued_message content rest crc = record {
  bytes = content ++ rest;
  len = length content;
  crc = crc;
}

abbrev pub closed_message : List ℕ → List ℕ → Message
closed_message content rest = record {
  bytes = (content ++ crc_bytes (crc_of content)) ++ drop 2 rest;
  len = length (content ++ crc_bytes (crc_of content));
  crc = crc_of content;
}

append_crc_lem :
    (content rest : List ℕ) (crc : ℕ)
    → AllBytes content
    → 2 ≤ length rest
    → length content < 256
    → append_crc (queued_message content rest crc) ≡ some (closed_message content rest)
unfolding append_crc
append_crc_lem content rest crc bytes room short =
    rw
      (
        calc_block_prefix content rest,
        calc_block-calc_byte content bytes,
        put_all_lem (crc_bytes (crc_of content)) content rest room,
      )
      (ap (λ n. some (record (closed_message content rest) { len = n }))
        (omega (arith, short, length-append content (crc_bytes (crc_of content)))))

module _ (s : Mesh) (xs ys : List Message) (content rest : List ℕ) (crc : ℕ)
    (queued : s.messages ≡ xs ++ queued_message content rest crc ∷ ys) (bytes : AllBytes content)
    (room : 2 ≤ length rest) (short : length content < 256) (ready : s.state ≡ idle)
    (no_wait : s.channel_detect ≡ 0) where
  -- The state once the message is on its way.
  abbrev on_air : ℕ → Mesh
  on_air now = record s {
    messages = xs ++ closed_message content rest ∷ ys;
    channel_detect = 0;
    tx_timeout = now;
    state = tx;
  }

  unstick_idle : (now : ℕ) → unstick now s ≡ ([], s)
  unfolding unstick
  unstick_idle now = rw ready refl

  starts : (now : ℕ) → start_tx now (some (length xs)) s ≡ some (start_cad ∷ [], on_air now)
  unfolding start_tx
  starts now =
      rw (found, append_crc_lem content rest crc bytes room short)
        (ap (λ t. some (start_cad ∷ [], record (on_air now) { messages = t })) replaced)
    where
      found : get_elem? s.messages (length xs) ≡ some (queued_message content rest crc)
      found = rw queued (get_elem?-append xs ys (queued_message content rest crc))

      replaced :
          set s.messages (length xs) (closed_message content rest)
          ≡ xs ++ closed_message content rest ∷ ys
      replaced =
          rw queued
            (set-append xs ys (queued_message content rest crc) (closed_message content rest))

  next_starts : (now : ℕ) → next_tx now (some (length xs)) s ≡ some (start_cad ∷ [], on_air now)
  unfolding next_tx
  next_starts now = rw (no_wait, ready) (starts now)

  process_lem :
      (now : ℕ) → process_send_queue now (some (length xs)) s ≡ some (start_cad ∷ [], on_air now)
  unfolding process_send_queue
  process_lem now = rw (unstick_idle now, next_starts now) refl

  free_lem :
      (now later delay : ℕ)
      → on_cad_done false later delay (some (length xs)) (on_air now)
        ≡ some (
          send (content ++ crc_bytes (crc_of content)) ∷ [],
          record (on_air now) { messages = xs ++ no_message ∷ ys; retry_num = 0 },
        )
  unfolding on_cad_done channel_free
  free_lem now later delay =
      rw
        (
          get_elem?-append xs ys (closed_message content rest),
          read_bytes_all (content ++ crc_bytes (crc_of content)) (drop 2 rest),
        )
        (ap
          (λ t. some (
            send (content ++ crc_bytes (crc_of content)) ∷ [],
            record (on_air now) { messages = t; retry_num = 0 },
          ))
          (set-append xs ys (closed_message content rest) no_message))

  -- A message at the head of the queue of an idle radio: process_send_queue puts its CRC behind it,
  -- low byte first, and starts to listen for a free channel. When that is found, what is sent is the
  -- message and its CRC, and its entry is empty again.
  pub transmit :
      (now later delay : ℕ)
      → (s₁ : Mesh) × (process_send_queue now (some (length xs)) s ≡ some (start_cad ∷ [], s₁))
        × (s₁.state ≡ tx)
        × ((s₂ : Mesh) × (on_cad_done false later delay (some (length xs)) s₁
              ≡ some (send (content ++ crc_bytes (crc_of content)) ∷ [], s₂))
            × (s₂.messages ≡ xs ++ no_message ∷ ys))
  transmit now later delay =
      (on_air now, process_lem now, refl, (_, free_lem now later delay, refl))

-- A busy channel: the radio listens again, the busy channel is counted and no entry changes. Exactly at
-- the twentieth try in turn the radio gives the message up: it is idle, and the count of the tries
-- starts again. Before, the try is counted, the state of the radio stays, and a new try is due within
-- 1023 ms.
pub channel_busy_lem :
    (s : Mesh) (now delay : ℕ) (received : Option ℕ)
    → s.retry_num < 20
    → now + 1023 < 2 ^ 32
    → (s' : Mesh) × (on_cad_done true now delay received s ≡ some (listen ∷ [], s'))
      × (s'.cad_busy ≡ (s.cad_busy + 1) % 2 ^ 32)
      × (s'.messages ≡ s.messages)
      × ((s.retry_num ≡ 19) × (s'.state ≡ idle) × (s'.retry_num ≡ 0)
          ⊎ (s.retry_num < 19)
            × (s'.state ≡ s.state)
            × (s'.retry_num ≡ s.retry_num + 1)
            × (now ≤ s'.channel_detect)
            × (s'.channel_detect ≤ now + 1023))
unfolding on_cad_done channel_busy
channel_busy_lem s now delay received few no_wrap =
    elim (Bool-cases (leb 20 ((s.retry_num + 1) % 256))) [
      | inl last ↦ rw last (_, refl, refl, refl, inl (ground (arith, last, few), refl, refl))
      | inr again ↦ rw again (
        _,
        refl,
        refl,
        refl,
        inr (
          ground (arith, again, few),
          refl,
          omega (arith, few),
          omega (arith, small, no_wrap),
          omega (arith, small, no_wrap),
        ),
      )
    ]
  where
    small : bit_and delay 0x3fe < 1024
    small = omega (arith, bit_and_comm delay 0x3fe, bit_and-lt 10 0x3fe delay (omega arith))
