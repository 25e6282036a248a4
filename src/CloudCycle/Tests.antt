-- ===== src/CloudCycle/Tests.antt =====
-- The machine of the requests at concrete inputs.
use edge_pdl.Prelude.{ℕ, ◌+◌, ◌≤◌, none, some, true, false, [], ◌∷◌, replicate, ◌≡◌, refl, arith}
use edge_pdl.CloudMesh.{Entry, no_entry, ChildTimes, no_comms}
use edge_pdl.MeshPayload.{Payload, no_header}
use edge_pdl.CloudCycle.Response.{response_delivered}
use edge_pdl.CloudCycle.{
  CloudRequest, at_wait_resp, child_send, Gateway, GatewayAnswers, at_idle, init, parse_response,
  parse_response_ack, cycle, cycle_at, idle_step, get_queued_request, queued_request, check_queued,
  discard, clear_entry, request_call, cloud_get, status_path, is_sent, current_time, serve_time,
  send_time,
}
use edge_pdl.CloudCycle.Liveness.{IsDiscarded, run, request_given_up}

abbrev waiting : Entry
waiting = record no_entry { child_id = 9; len = 3 }

abbrev gateway : Gateway
gateway = record {
  request = record {
    state = at_idle;
    msg_id = 0;
    req = none;
    timeout = 5;
    num_retries = 0;
    resp_len = 0;
    resp_byte = 0;
    num_fwd_resp = 0;
    ack_received = false;
  };
  entries = waiting ∷ replicate 15 no_entry;
}

-- A world in which the time goes on by 20 seconds, and the cloud accepts each request.
abbrev world : ℕ → Gateway → GatewayAnswers
world i s = record {
  available = true;
  peeked = some (some 0);
  received = some (some 0);
  new_id = i + 1;
  sent = true;
  now = s.request.timeout + 20000;
}

request_given_up_example :
    (n : ℕ) × (t : Gateway) × (n ≤ 2884)
    × (run world 0 n gateway ≡ some t)
    × IsDiscarded 0 gateway t
request_given_up_example =
    request_given_up 0 waiting world gateway
      (record {
        entry_eq = refl;
        complete = refl;
        held = omega arith;
        few = omega arith;
        stage = tt;
      })
      (λ k t. record { available = refl; peeked = refl; received = refl; late = omega arith })

abbrev intake_times : ChildTimes
intake_times = record { refreshed = 0; checked = λ i. 0; added = 0 }

abbrev asked : Entry
asked = record waiting { hdr = record no_header { msg_id = 77; endpoint = 2 } }

abbrev request : CloudRequest
request = record gateway.request { state = at_wait_resp; msg_id = 12; req = some 0 }

abbrev acknowledgement : Payload
acknowledgement = record {
  hdr = record no_header { msg_id = 77; endpoint = 2; len = 4 };
  content = 65 ∷ 67 ∷ 75 ∷ 0 ∷ [];
}

response_delivered_example :
    (s₁ s₂ s₃ s₄ : Gateway) × (parse_response 12
        (0x50 ∷ [])
        1
        (record { request = request; entries = asked ∷ [] })
      ≡ some ([], s₁))
    × (cycle (world 0 gateway) s₁
        ≡ some (
          child_send
                (record { dest = 9; msg_id = 77; content = 0x50 ∷ []; method = 3; endpoint = 2 })
              ∷ [],
          s₂,
        ))
    × (parse_response_ack 9 acknowledgement s₂ ≡ (true, s₃))
    × (cycle (world 0 gateway) s₃ ≡ some ([], s₄))
    × IsDiscarded 0 (record { request = request; entries = asked ∷ [] }) s₄
response_delivered_example =
    response_delivered 0 0x50 asked request (asked ∷ []) [] (0 ∷ []) (world 0 gateway)
      (world 0 gateway) acknowledgement
      (record { state_eq = refl; points = refl; entry_eq = refl; has_id = refl }) refl refl refl
      refl refl

-- An incomplete request that is older than a minute is discarded.
abbrev incomplete : Gateway
incomplete = record gateway {
  entries = record waiting { hdr = record no_header { partial = 1 } } ∷ [];
}

discard_test :
    cycle (world 0 (record gateway { request = record request { timeout = 70000 } })) incomplete
    ≡ some ([], record incomplete { entries = no_entry ∷ [] })
unfolding cycle cycle_at idle_step get_queued_request queued_request check_queued discard
    clear_entry
discard_test = refl

-- A request for the state goes out as a GET.
request_call_test :
    request_call 5 (record waiting { hdr = record no_header { method = 1; endpoint = 3 } }) (1 ∷ [])
    ≡ cloud_get status_path 5 (1 ∷ []) ∷ []
unfolding request_call
request_call_test = refl

unsent_test : is_sent [] true ≡ false
unfolding is_sent
unsent_test = refl

init_test : init.0.request.state ≡ at_idle
unfolding init
init_test = refl

-- The time is not sent to a node to which there is no route.
current_time_test :
    current_time
      (record { size = 21; decode = λ bytes. no_comms })
      false
      9
      acknowledgement
      intake_times
      none
      true
      (record { nodes_map = []; nodes_count = 0 })
      (record { nodes = []; count = 0 })
    ≡ some (false, [], record { nodes = []; count = 0 })
unfolding current_time
current_time_test = refl

serve_time_test :
    serve_time
      (record { size = 21; decode = λ bytes. no_comms })
      9
      acknowledgement
      intake_times
      (some (50 ∷ []))
      true
      none
      (record { nodes = []; count = 0 })
    ≡ some (false, [], record { nodes = []; count = 0 })
unfolding serve_time
serve_time_test = refl

send_time_test : (send_time 9 acknowledgement (some (50 ∷ [])) true).0 ≡ true
unfolding send_time
send_time_test = refl
