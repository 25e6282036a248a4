-- ===== src/MeshSend.antt =====
-- lora_mesh.c, the sending of messages: meshSendRequest, process_send_queue and the callbacks of the
-- radio but OnRxDone. The queue of FreeRTOS is not modelled: what it answers is an argument, and a
-- pointer in it is the number of a message in the array. `none` is an access out of range.
pub mod Slots
pub mod Transmit
mod Tests
use edge_pdl.Prelude.{
  ℕ, zero, suc, ◌+◌, ◌-◌, ◌/◌, ◌%◌, ◌^◌, bit_and, Option, none, some, ◌>>=◌, Bool, true, false,
  ◌&&◌, not,
}
use edge_pdl.Prelude.{
  if◌then◌else◌, ltb, leb, ◌==◌, List, [], ◌∷◌, ◌++◌, length, get_elem?, get_or, set, drop,
  replicate,
}
use edge_pdl.Buffer.{Writer, put_all, read_bytes}
use edge_pdl.Crc16.{CrcBytes, calc_block}

-- MESH_SEND_QUEUE_SIZE and MESH_CAD_RETRY
abbrev pub send_queue_size : ℕ
send_queue_size = 8

abbrev pub cad_retry : ℕ
cad_retry = 20

-- `mesh_data_msg_st`: its 256 bytes before `u16_len`, of which the fourth one is the type.
pub record Message : Type 0 where
  pub bytes : List ℕ
  pub len : ℕ
  pub crc : ℕ

abbrev pub no_message : Message
no_message = record { bytes = replicate 256 0; len = 0; crc = 0 }

-- MESH_IDLE and MESH_TX, the states that the code uses
pub data RadioState : Type 0 where
  idle : RadioState
  tx : RadioState

-- The variables of the file that these functions change, and the counters.
pub record Mesh : Type 0 where
  pub messages : List Message
  pub state : RadioState
  pub channel_detect : ℕ
  pub retry_num : ℕ
  pub tx_timeout : ℕ
  pub tx_error : ℕ
  pub rx_error : ℕ
  pub cad_busy : ℕ

-- What a function asks of the radio, in order.
pub data Command : Type 0 where
  listen : Command
  start_cad : Command
  send : List ℕ → Command

-- meshSendRequest: its search for an empty entry.
pub is_empty : Message → Bool
is_empty m = get_or m.bytes 3 0 == 0 && m.len == 0

pub find_empty : List Message → ℕ → Option ℕ
find_empty [] idx = none
find_empty (m ∷ messages) idx =
    let rest = find_empty messages (idx + 1) in if is_empty m then some idx else rest

abbrev count_tx_error : Mesh → Mesh
count_tx_error s = record s { tx_error = (s.tx_error + 1) % 2 ^ 32 }

-- What follows the search. `queued` says whether xQueueSend takes the pointer.
pub fill_empty : List ℕ → ℕ → Bool → Option ℕ → Mesh → Option (Bool × Mesh)
fill_empty msg size queued none s = some (false, count_tx_error s)
fill_empty msg size queued (some idx) s = get_elem? s.messages idx >>= λ m.
    read_bytes size msg >>= λ bytes. put_all bytes (record { buf = m.bytes; end = 0 }) >>= λ w.
    if queued
    then some
        (true, record s { messages = set s.messages idx (record m { bytes = w.buf; len = size }) })
    else some (false, count_tx_error (record s { messages = set s.messages idx no_message }))

pub send_request : List ℕ → ℕ → Bool → Mesh → Option (Bool × Mesh)
send_request msg size queued s = fill_empty msg size queued (find_empty s.messages 0) s

-- process_send_queue; `peeked` is the pointer that xQueuePeek gives, `now` what millis() reads.
pub append_crc : Message → Option Message
append_crc m = calc_block m.bytes m.len >>= λ crc.
    put_all ((crc % 256) ∷ (crc / 2 ^ 8 % 256) ∷ []) (record { buf = m.bytes; end = m.len })
    >>= λ w. some (record { bytes = w.buf; len = (m.len + 2) % 2 ^ 16; crc = crc })

-- The test for a radio that is stuck.
pub unstick : ℕ → Mesh → List Command × Mesh
unstick now s = elim s.state [
  | tx ↦
      if ltb 7500 ((now + 2 ^ 32 - s.tx_timeout) % 2 ^ 32)
      then (listen ∷ [], record (count_tx_error s) { state = idle })
      else ([], s)
  | idle ↦ ([], s)
]

pub start_tx : ℕ → Option ℕ → Mesh → Option (List Command × Mesh)
start_tx now none s = some ([], s)
start_tx now (some idx) s = get_elem? s.messages idx >>= λ m. append_crc m >>= λ m. some (
  start_cad ∷ [],
  record s { messages = set s.messages idx m; channel_detect = 0; tx_timeout = now; state = tx },
)

pub next_tx : ℕ → Option ℕ → Mesh → Option (List Command × Mesh)
next_tx now peeked s =
    if not (s.channel_detect == 0)
    then (if ltb s.channel_detect now
        then some (start_cad ∷ [], record s { channel_detect = 0 })
        else some ([], s))
    else elim s.state [ tx ↦ some ([], s) | idle ↦ start_tx now peeked s ]

pub process_send_queue : ℕ → Option ℕ → Mesh → Option (List Command × Mesh)
process_send_queue now peeked s =
    next_tx now peeked (unstick now s).1 >>= λ r. some ((unstick now s).0 ++ r.0, r.1)

-- OnTxDone, OnTxTimeout, OnRxTimeout and OnRxError
pub on_tx_done : Mesh → List Command × Mesh
on_tx_done s = (listen ∷ [], record s { state = idle })

pub on_tx_timeout : Mesh → List Command × Mesh
on_tx_timeout s = (listen ∷ [], record (count_tx_error s) { state = idle })

pub on_rx_error : Mesh → List Command × Mesh
on_rx_error s =
    let counted : Mesh = record s { rx_error = (s.rx_error + 1) % 2 ^ 32 } in
    elim s.state [ tx ↦ ([], counted) | idle ↦ (listen ∷ [], record counted { state = idle }) ]

-- OnCadDone: the channel is busy. `delay` is the random number.
pub channel_busy : ℕ → ℕ → Mesh → Mesh
channel_busy now delay s =
    let retry_num = (s.retry_num + 1) % 256 in
    let counted : Mesh = record s { cad_busy = (s.cad_busy + 1) % 2 ^ 32; retry_num = retry_num } in
    if leb cad_retry retry_num
    then record counted { state = idle; retry_num = 0 }
    else record counted { channel_detect = (now + bit_and delay 0x3fe) % 2 ^ 32 }

-- The channel is free; `received` is the pointer that xQueueReceive gives.
pub channel_free : Option ℕ → Mesh → Option (List Command × Mesh)
channel_free none s = some ([], s)
channel_free (some idx) s = get_elem? s.messages idx >>= λ m. read_bytes m.len m.bytes >>= λ packet.
    some (send packet ∷ [], record s { messages = set s.messages idx no_message; retry_num = 0 })

-- OnCadDone. Where the channel is busy for the last time it takes a pointer from the queue, and has
-- no more use for it.
pub on_cad_done : Bool → ℕ → ℕ → Option ℕ → Mesh → Option (List Command × Mesh)
on_cad_done cad_result now delay received s =
    if cad_result then some (listen ∷ [], channel_busy now delay s) else channel_free received s
