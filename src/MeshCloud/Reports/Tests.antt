-- ===== src/MeshCloud/Reports/Tests.antt =====
-- The reports at concrete inputs.
use edge_pdl.Prelude.{none, some, ◌>>=◌, true, false, ◌&&◌, not, inl, arith, [], ◌∷◌, ◌≡◌, refl}
use edge_pdl.MeshPayload.{no_header}
use edge_pdl.MeshRoute.{no_node}
use edge_pdl.MeshCloud.{
  Cloud, monitor, at_wait_ack, at_wait_resp, sync_idle, nothing_out, no_report,
}
use edge_pdl.MeshCloud.Buffers.{removes}
use edge_pdl.MeshCloud.Reports.Inside.{IsCloud, is_answered, cycle-IsCloud}
use edge_pdl.MeshCloud.Reports.{
  CycleAnswers, Cycled, cycle, parse_report_ack, is_ack, parse_server_response, response_byte,
  take_response, get_parent_id, get_last_sync, get_info,
}

abbrev cloud : Cloud
cloud = record {
  sync = record {
    state = sync_idle;
    parent = record no_node { id = 9; first_hop = 8; rssi = 3 };
    ignore_id = 0;
    start = 40;
    msg_id = 0;
    num_retries = 0;
    status_ok = true;
    info_ready = true;
  };
  report = record {
    type = monitor;
    state = at_wait_ack;
    timeout = 0;
    num_retries = 0;
    ack_received = false;
    ack_status = false;
    resp_byte = 0;
    num_errors = 0;
    prev_msg_id = 4;
  };
  out = record nothing_out { hdr = record no_header { msg_id = 5 } };
  next_type = no_report;
  sync_error = 0;
  ack_error = 0;
  rsp_error = 0;
}

ack_test :
    (parse_report_ack
      (record { hdr = record no_header { msg_id = 5 }; content = 65 ∷ 67 ∷ 75 ∷ 0 ∷ [] })
      cloud).0
    ≡ true
unfolding parse_report_ack is_ack
ack_test = refl

-- A response that comes before the acknowledgement stands for it.
early_response_test :
    (parse_server_response
        (record { hdr = record no_header { msg_id = 5; len = 1 }; content = 0x50 ∷ [] })
        cloud
      >>= λ r. some r.1.report.state)
    ≡ some at_wait_resp
unfolding parse_server_response response_byte take_response
early_response_test = refl

info_test : (get_info cloud).0 ≡ some (9, 8, 3)
unfolding get_info
info_test = refl

parent_id_test : get_parent_id cloud ≡ 9
unfolding get_parent_id
parent_id_test = refl

last_sync_test : get_last_sync cloud ≡ 40
unfolding get_last_sync
last_sync_test = refl

-- A report waits for the response, which is a success.
abbrev answered : Cloud
answered = record cloud { report = record cloud.report { state = at_wait_resp; resp_byte = 0x50 } }

abbrev answers : CycleAnswers
answers = record {
  routes = record { nodes_map = []; nodes_count = 0 };
  now = 100;
  queued = λ type. none;
  sent_id = 6;
}

cycle-IsCloud_example :
    (r : Cycled) × (cycle answers answered ≡ some r)
    × IsCloud r.2
    × ((removes r.1 && not (is_answered at_wait_resp answered)) ≡ false)
cycle-IsCloud_example =
    cycle-IsCloud answers answered
      (record { outgoing = record { buf_length = refl; len_le = omega arith }; stage = inl refl })
      (record { report_fits = λ type bytes nothing. cc })
