-- ===== src/CloudMesh/Tests.antt =====
-- The children and their requests at concrete inputs.
use edge_pdl.Prelude.{
  ℕ, none, some, ◌>>=◌, true, false, List, [], ◌∷◌, ◌++◌, take, replicate, ◌≡◌, refl, arith,
}
use edge_pdl.MeshPayload.{Header, no_header}
use edge_pdl.MeshCloud.{
  monitor, Outgoing, Cloud, mesh_send, nothing_out, send_report_data, data_sent, no_report, at_data,
  sync_idle,
}
use edge_pdl.MeshCloud.Segments.{loaded, monitor_endpoint}
use edge_pdl.MeshRoute.{no_node}
use edge_pdl.CloudMesh.{
  Entry, no_entry, Intake, Parent, Layout, Children, ChildTimes, no_child, no_comms, update_child,
  find_child, update_found_child, find_inactive, remove_child, add_child, store_info,
  handle_request, acknowledge,
}
use edge_pdl.CloudMesh.Reassembly.{ack, report_reassembled}

abbrev cloud : Cloud
cloud = record {
  sync = record {
    state = sync_idle;
    parent = no_node;
    ignore_id = 0;
    start = 0;
    msg_id = 0;
    num_retries = 0;
    status_ok = true;
    info_ready = false;
  };
  report = record {
    type = monitor;
    state = at_data;
    timeout = 0;
    num_retries = 0;
    ack_received = false;
    ack_status = false;
    resp_byte = 0;
    num_errors = 0;
    prev_msg_id = 0;
  };
  out = nothing_out;
  next_type = no_report;
  sync_error = 0;
  ack_error = 0;
  rsp_error = 0;
}

abbrev intake : Intake
intake = record {
  available = true;
  times = record { refreshed = 0; checked = λ i. 0; added = 0 };
  now = 5;
  queued = true;
}

abbrev start : List ℕ
start = replicate 224 7

abbrev busy : Entry
busy = record no_entry { child_id = 8; len = 3 }

abbrev layout : Layout
layout = record { size = 2; decode = λ bytes. no_comms }

abbrev children : Children
children = record { nodes = record no_child { id = 9 } ∷ replicate 15 no_child; count = 1 }

abbrev times : ChildTimes
times = record { refreshed = 77; checked = λ i. 300001; added = 300002 }

find_nine : find_child 9 children.nodes 1 0 ≡ some 0
unfolding find_child
find_nine = refl

report_reassembled_example :
    (o₁ o₃ : Outgoing) × (s₂ : Cloud) × (h₁ h₂ : Header) × (send_report_data monitor 3 21
        (loaded start (6 ∷ []) [] 0)
      ≡ some (true, mesh_send 3 h₁ start ∷ [], o₁))
    × (data_sent (record cloud { out = o₁ }) ≡ some ([], s₂))
    × (send_report_data monitor 3 22 s₂.out ≡ some (true, mesh_send 3 h₂ (6 ∷ []) ∷ [], o₃))
    × ((q₁ q₂ : Parent) × (e : Entry) × (handle_request layout 9
            (record { hdr = record h₁ { msg_id = 21 }; content = start ++ [] })
            intake
            (record { children = children; entries = busy ∷ no_entry ∷ [] })
          ≡ some (true, ack 9 (record h₁ { msg_id = 21 }) ∷ [], q₁))
        × (handle_request layout 9
              (record { hdr = record h₂ { msg_id = 22 }; content = (6 ∷ []) ++ [] })
              intake
              q₁
            ≡ some (true, ack 9 (record h₂ { msg_id = 22 }) ∷ [], q₂))
        × (q₂.entries ≡ busy ∷ e ∷ [])
        × (take 225 e.buf ≡ start ++ 6 ∷ [])
        × (e.len ≡ 225)
        × (e.hdr.partial ≡ 0))
report_reassembled_example =
    report_reassembled monitor 2 start (6 ∷ []) [] [] [] 0 3 9 21 22 cloud intake intake (busy ∷ [])
      [] layout children 0 (record no_child { id = 9 }) monitor_endpoint refl (omega arith)
      (omega arith) (omega arith) (omega arith) (omega arith) refl refl refl find_nine refl
      (refl, tt) (refl, tt) tt

-- Child 9 is known, and is refreshed in its device type; child 8 takes the place of child 9, which was
-- added more than five minutes ago.
refresh_test :
    update_child layout 9 none times children
    ≡ some (
      true,
      record children {
        nodes =
            record no_child { id = 9; comms = record no_comms { dev_type = 77 } }
            ∷ replicate 15 no_child;
      },
    )
unfolding update_child find_child update_found_child
refresh_test = refl

replace_test :
    update_child layout 8 none times children
    ≡ some (
      true,
      record {
        nodes =
            record no_child { id = 8; comms = record no_comms { timestamp = 300002 } }
            ∷ replicate 15 no_child;
        count = 1;
      },
    )
unfolding update_child find_child update_found_child find_inactive remove_child add_child store_info
replace_test = refl

handle_request_test :
    (handle_request layout 9
        (record { hdr = record no_header { len = 1 }; content = 6 ∷ [] })
        (record intake { available = false })
        (record { children = children; entries = [] })
      >>= λ done. some done.1)
    ≡ some []
unfolding handle_request update_child find_child update_found_child
handle_request_test = refl

acknowledge_test : (acknowledge 9 no_header false).content ≡ 78 ∷ 65 ∷ 67 ∷ 75 ∷ []
unfolding acknowledge
acknowledge_test = refl
