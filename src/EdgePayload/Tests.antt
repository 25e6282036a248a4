-- ===== src/EdgePayload/Tests.antt =====
-- The payloads of edge_payload.c at concrete inputs.
use edge_pdl.Prelude.{set, ℕ, ◌≤◌, ◌>>=◌, none, some, true}
use edge_pdl.Prelude.{[], ◌∷◌, All-replicate, replicate, ◌≡◌, refl, arith}
use edge_pdl.EdgePayload.Header.{
  ComHeader, Encoded, encoded, init, init_com_header, init_com_header_lem,
}
use edge_pdl.EdgePayload.Status.{StatusPayload, init_status, add_status_tag, status_to_buf}
use edge_pdl.EdgePayload.Event.{EventPayload, event_to_buf, event_to_buf_lem, event_bytes}
use edge_pdl.EdgePayload.UpdateGet.{update_get_to_buf}
use edge_pdl.EdgePayload.Monitor.{
  Monitor, no_phase, new_monitor_phase, add_monitor_param, add_monitor_param32, monitor_to_buf,
}
use edge_pdl.EdgePayload.Monitor.Bytes.{monitor_bytes, monitor_to_buf_lem}
use edge_pdl.EdgePayload.Monitor.Laws.{
  IsBuilt, IsBuiltPhase, Builds, start_phase, push_param, new_monitor_phase-Builds,
  add_monitor_param-Builds, add_monitor_param32-eq,
}
use edge_pdl.EdgePayload.Decode.{
  IsHeader, decode_status, sent_status, sent_header, status_roundtrip, decode_update_get,
  update_get_roundtrip,
}

abbrev header : ComHeader
header = record {
  protocol_ver = 2;
  dev_type = 0x0b;
  dev_id = record { len = 6; id = 1 ∷ 2 ∷ 3 ∷ 4 ∷ 5 ∷ 6 ∷ 0 ∷ 0 ∷ [] };
  timestamp = 1700000000;
}

init_com_header_lem_example :
    (init (1 ∷ 2 ∷ 3 ∷ 4 ∷ 5 ∷ 6 ∷ []) >>= λ self. init_com_header self header 1800000000)
    ≡ some (record header { timestamp = 1800000000 })
init_com_header_lem_example =
    init_com_header_lem (1 ∷ 2 ∷ 3 ∷ 4 ∷ 5 ∷ 6 ∷ []) header 1800000000 (omega arith) (omega arith)

header-IsHeader : IsHeader header
header-IsHeader = record {
  protocol_ver_lt = omega arith;
  dev_type_lt = omega arith;
  id_fits = omega arith;
  timestamp_lt = omega arith;
}

abbrev status : StatusPayload
status = record {
  header = header;
  tag_count = 1;
  tags =
      record { id = 0x70; len = 3; value = 9 ∷ 8 ∷ 7 ∷ [] }
      ∷ replicate 2 (record { id = 0; len = 0; value = [] });
}

add_status_tag_test : add_status_tag (init_status header) 0x70 (9 ∷ 8 ∷ 7 ∷ []) 3 ≡ (status, true)
unfolding add_status_tag init_status
add_status_tag_test = refl

status_roundtrip_example :
    (e : Encoded) × (status_to_buf (replicate 64 0xee) 64 status ≡ some e)
    × (e.res_len ≡ some 19)
    × (decode_status e.buf ≡ some (sent_status status, replicate 45 0xee))
status_roundtrip_example =
    status_roundtrip (replicate 64 0xee) 64 status (omega arith) header-IsHeader (omega arith, tt)
      (omega arith, (omega arith, (omega arith, tt))) (omega arith)

update_get_roundtrip_example :
    (e : Encoded) × (update_get_to_buf
        (replicate 64 0xee)
        40
        (record { header = header; chunk_offset = 70000; chunk_length = 512 })
      ≡ some e)
    × (e.res_len ≡ some 19)
    × (decode_update_get e.buf
        ≡ some (
          record { header = sent_header header; chunk_offset = 70000; chunk_length = 512 },
          replicate 45 0xee,
        ))
update_get_roundtrip_example =
    update_get_roundtrip (replicate 64 0xee) 40
      (record { header = header; chunk_offset = 70000; chunk_length = 512 }) (omega arith)
      header-IsHeader (omega arith) (omega arith) (omega arith)

abbrev event : EventPayload
event = record {
  header = header;
  event_count = 1;
  events = record { id = 0x41; len = 2; value = 9 ∷ 8 ∷ 7 ∷ [] } ∷ [];
}

event_to_buf_lem_example :
    event_to_buf (replicate 20 0) 20 event ≡ some (encoded (replicate 20 0) 20 (event_bytes event))
event_to_buf_lem_example =
    event_to_buf_lem (replicate 20 0) 20 event (omega arith)
      (record { id_fits = omega arith; events_fit = (omega arith, tt) })

-- A payload of one phase, with `n` parameters of 32 bits in it.
abbrev one_phase : ℕ → Monitor
one_phase n = record {
  header = header;
  phase_count = 1;
  phases = replicate 4 (record no_phase { param32_count = n });
}

one_phase-IsBuilt : (n : ℕ) → n ≤ 6 → IsBuilt (one_phase n)
one_phase-IsBuilt n h = record {
  phases_length = refl;
  phases_count = omega arith;
  phases_built =
      All-replicate IsBuiltPhase 4 (record no_phase { param32_count = n })
        (record {
          params_length = refl;
          params32_length = refl;
          params_count = omega arith;
          params32_count = h;
        });
}

monitor_to_buf_lem_example :
    monitor_to_buf (replicate 60 0) 60 (one_phase 2)
    ≡ some (encoded (replicate 60 0) 60 (monitor_bytes (one_phase 2)))
monitor_to_buf_lem_example =
    monitor_to_buf_lem (replicate 60 0) 60 (one_phase 2) (omega arith) (record {
      id_fits = omega arith;
      phases_fit = (record { params_fit = omega arith; params32_fit = omega arith }, tt);
    })

new_monitor_phase-Builds_example :
    Builds (new_monitor_phase (one_phase 0) 3) (one_phase 0) true (start_phase 3 (one_phase 0))
new_monitor_phase-Builds_example =
    new_monitor_phase-Builds (one_phase 0) 3 (one_phase-IsBuilt 0 (omega arith))

add_monitor_param-Builds_example :
    Builds (add_monitor_param (one_phase 0) 7 258) (one_phase 0) true (record (one_phase 0) {
      phases = set (one_phase 0).phases 0 (push_param no_phase (record { id = 7; value = 258 }));
    })
add_monitor_param-Builds_example =
    add_monitor_param-Builds (one_phase 0) 7 258 (one_phase-IsBuilt 0 (omega arith)) (omega arith)
      refl

-- The seventh parameter of 32 bits is a write past the array.
add_monitor_param32-eq_example : add_monitor_param32 (one_phase 6) 7 258 ≡ none
add_monitor_param32-eq_example =
    add_monitor_param32-eq (one_phase 6) 7 258 (one_phase-IsBuilt 6 (omega arith)) (omega arith)
      refl
