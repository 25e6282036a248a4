-- ===== src/MeshPayload/Tests.antt =====
-- A payload at a concrete input.
use edge_pdl.Prelude.{some, [], ◌∷◌, ◌++◌, ◌≡◌, arith}
use edge_pdl.MeshComms.{Request, payload_header}
use edge_pdl.MeshPayload.{handle_request, on_lora_data}
use edge_pdl.MeshPayload.Roundtrip.{header_of, payload_roundtrip}

abbrev report : Request
report = record { method = 2; endpoint = 3; idx = 1; partial = 1; content = 5 ∷ []; len = 1 }

payload_roundtrip_example :
    on_lora_data (payload_header 258 report ++ 5 ∷ [])
    ≡ some (handle_request ∷ [], record { hdr = header_of 258 report; content = 5 ∷ [] })
payload_roundtrip_example =
    payload_roundtrip 258 report (5 ∷ []) (omega arith) (omega arith) (omega arith) (omega arith)
      (omega arith)
