-- ===== src/MeshSend/Tests.antt =====
-- Messages at concrete inputs.
use edge_pdl.Prelude.{
  ◌+◌, ◌%◌, ◌^◌, ℕ, ◌≤◌, ◌<◌, some, true, false, List, [], ◌∷◌, ◌++◌, replicate, All, All-replicate,
  ◌⊎◌, ◌≡◌, refl, arith,
}
use edge_pdl.MeshSend.{
  Message, no_message, Mesh, idle, tx, listen, start_cad, send, is_empty, send_request,
  process_send_queue, on_cad_done, on_tx_done, on_tx_timeout, on_rx_error,
}
use edge_pdl.MeshSend.Slots.{IsOccupied, IsWhole, stored, send_request-stored}
use edge_pdl.MeshSend.Transmit.{crc_of, crc_bytes, queued_message, transmit, channel_busy_lem}

abbrev mesh : List Message → ℕ → Mesh
mesh messages retry_num = record {
  messages = messages;
  state = idle;
  channel_detect = 0;
  retry_num = retry_num;
  tx_timeout = 0;
  tx_error = 0;
  rx_error = 0;
  cad_busy = 0;
}

abbrev content : List ℕ
content = 76 ∷ 82 ∷ 77 ∷ 1 ∷ 9 ∷ []

abbrev rest : List ℕ
rest = replicate 251 0

send_request-stored_example :
    All IsOccupied (replicate 8 no_message)
      × (send_request content 5 true (mesh (replicate 8 no_message) 0)
          ≡ some (false, record (mesh (replicate 8 no_message) 0) { tx_error = 1 }))
    ⊎ (xs : List Message) × (m : Message) × (ys : List Message) × (replicate 8 no_message
        ≡ xs ++ m ∷ ys)
      × All IsOccupied xs
      × (is_empty m ≡ true)
      × (send_request content 5 true (mesh (replicate 8 no_message) 0)
          ≡ some (stored true content 5 xs m ys (mesh (replicate 8 no_message) 0)))
send_request-stored_example =
    send_request-stored content 5 true (mesh (replicate 8 no_message) 0)
      (All-replicate IsWhole 8 no_message refl) (omega arith) (omega arith)

abbrev loaded : Mesh
loaded = mesh (no_message ∷ queued_message content rest 0 ∷ replicate 6 no_message) 0

transmit_example :
    (s₁ : Mesh) × (process_send_queue 100 (some 1) loaded ≡ some (start_cad ∷ [], s₁))
    × (s₁.state ≡ tx)
    × ((s₂ : Mesh) × (on_cad_done false 120 7 (some 1) s₁
          ≡ some (send (content ++ crc_bytes (crc_of content)) ∷ [], s₂))
        × (s₂.messages ≡ replicate 8 no_message))
transmit_example =
    transmit loaded (no_message ∷ []) (replicate 6 no_message) content rest 0 refl
      (omega arith, (omega arith, (omega arith, (omega arith, (omega arith, tt))))) (omega arith)
      (omega arith) refl refl 100 120 7

channel_busy_lem_example :
    (s' : Mesh) × (on_cad_done true 100 7 (some 1) (mesh (replicate 8 no_message) 19)
      ≡ some (listen ∷ [], s'))
    × (s'.cad_busy ≡ ((mesh (replicate 8 no_message) 19).cad_busy + 1) % 2 ^ 32)
    × (s'.messages ≡ replicate 8 no_message)
    × ((◌≡◌ {A = ℕ} 19 19) × (s'.state ≡ idle) × (s'.retry_num ≡ 0)
        ⊎ (19 < 19)
          × (s'.state ≡ (mesh (replicate 8 no_message) 19).state)
          × (s'.retry_num ≡ 20)
          × (100 ≤ s'.channel_detect)
          × (s'.channel_detect ≤ 1123))
channel_busy_lem_example =
    channel_busy_lem (mesh (replicate 8 no_message) 19) 100 7 (some 1) (omega arith) (omega arith)

on_tx_timeout_test : (on_tx_timeout (mesh [] 0)).1.tx_error ≡ 1
unfolding on_tx_timeout
on_tx_timeout_test = refl

on_tx_done_test : (on_tx_done (record (mesh [] 0) { state = tx })).1.state ≡ idle
unfolding on_tx_done
on_tx_done_test = refl

on_rx_error_test : (on_rx_error (record (mesh [] 0) { state = tx })).0 ≡ []
unfolding on_rx_error
on_rx_error_test = refl
