-- ===== src/MeshCloud/ParentSync/Tests.antt =====
-- The synchronisation with a parent at concrete inputs.
use edge_pdl.Prelude.{some, ◌>>=◌, Bool, true, false, [], ◌∷◌, ◌≡◌, refl}
use edge_pdl.MeshComms.{success}
use edge_pdl.MeshPayload.{no_header}
use edge_pdl.MeshRoute.{no_node}
use edge_pdl.MeshCloud.{
  Cloud, no_report, at_idle, sync_idle, sync_wait_resp, sync_retry_delay, nothing_out, init,
  queue_next_parent,
}
use edge_pdl.MeshCloud.ParentSync.{
  SyncAnswers, TimeAnswers, sync, sync_at, sync_idle_step, choose_parent, sync_send_step,
  sync_wait_step, sync_retry_step, parse_epoch, parse_time_payload, parse_sync_response,
}

abbrev cloud : Cloud
cloud = record {
  sync = record {
    state = sync_retry_delay;
    parent = record no_node { id = 9 };
    ignore_id = 0;
    start = 0;
    msg_id = 3;
    num_retries = 4;
    status_ok = true;
    info_ready = false;
  };
  report = record {
    type = no_report;
    state = at_idle;
    timeout = 0;
    num_retries = 0;
    ack_received = false;
    ack_status = false;
    resp_byte = 0;
    num_errors = 0;
    prev_msg_id = 0;
  };
  out = nothing_out;
  next_type = no_report;
  sync_error = 0;
  ack_error = 0;
  rsp_error = 0;
}

abbrev answers : SyncAnswers
answers = record {
  node_id = 7;
  routes = record { nodes_map = []; nodes_count = 0 };
  now = 6000;
  comms = 1 ∷ 2 ∷ [];
  comms_size = 2;
  sent_id = 11;
}

-- After the fifth retry the parent is left, and is the one to be ignored.
retry_test :
    (sync false answers cloud >>= λ r. some (r.2.sync.parent.id ∷ r.2.sync.ignore_id ∷ []))
    ≡ some (0 ∷ 9 ∷ [])
unfolding sync sync_at sync_retry_step queue_next_parent
retry_test = refl

-- A node that is in step with its parent needs no other one, unless that is forced.
in_sync_test :
    (sync false answers (record cloud { sync = record cloud.sync { state = sync_idle } }) >>= λ r.
    some r.0)
    ≡ some success
unfolding sync sync_at sync_idle_step
in_sync_test = refl

parent_test : (choose_parent (some (record no_node { id = 5 })) cloud).2.sync.parent.id ≡ 5
unfolding choose_parent
parent_test = refl

send_test : (sync_send_step answers cloud).2.sync.state ≡ sync_wait_resp
unfolding sync_send_step
send_test = refl

-- The response sets the time, with half of the way there and back, and the next call says so.
abbrev time_answers : Bool → TimeAnswers
time_answers ok = record {
  synced_4g = false;
  synced_lora = false;
  parse = λ text len. some 1000;
  now = 4500;
  to_date = λ time. true;
  sync_time = λ time. ok;
}

response_test :
    (parse_sync_response
      (time_answers true)
      (record { hdr = record no_header { msg_id = 3 }; content = [] })
      cloud).1
    ≡ some 1002
unfolding parse_sync_response parse_time_payload parse_epoch
response_test = refl

answered_test :
    (sync_wait_step answers (record cloud { sync = record cloud.sync { msg_id = 0 } })).0 ≡ success
unfolding sync_wait_step
answered_test = refl

init_test : (init true cloud).1.sync.parent.id ≡ 0
unfolding init
init_test = refl
