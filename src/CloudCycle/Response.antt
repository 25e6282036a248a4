-- ===== src/CloudCycle/Response.antt =====
-- A request that the cloud answers: the way of the response byte to the child in cloud_mesh.c.
use edge_pdl.Prelude.{ℕ, ◌+◌, ◌%◌, ◌^◌, some, true, false}
use edge_pdl.Prelude.{◌==◌, List, [], ◌∷◌, get_elem?, set, ◌≡◌, refl, ap, ◌∙◌, arith}
use edge_pdl.Buffer.{read_bytes-take}
use edge_pdl.CloudMesh.{Entry, no_entry}
use edge_pdl.MeshPayload.{Payload}
use edge_pdl.CloudCycle.{
  at_idle, at_wait_resp, at_wait_ack, CloudRequest, Gateway, child_send, GatewayAnswers,
  clear_entry, clear_received, request_sent, pointed, forward_response, wait_resp_step,
  wait_ack_step, cycle_at, cycle, response_details, parse_response, is_ack, take_ack,
  parse_response_ack,
}
use edge_pdl.CloudCycle.Liveness.{IsDiscarded}

-- The machine waits for the response to the request in entry `idx`, which has an id.
pub record IsWaiting (idx : ℕ) (e : Entry) (r : CloudRequest) (entries : List Entry) : Type 0 where
  pub state_eq : r.state ≡ at_wait_resp
  pub points : r.req ≡ some idx
  pub entry_eq : get_elem? entries idx ≡ some e
  pub has_id : (e.hdr.msg_id == 0) ≡ false

module _ (idx : ℕ) (e : Entry) (r : CloudRequest) (entries : List Entry)
    (v : IsWaiting idx e r entries) where
  abbrev waiting : Gateway
  waiting = record { request = r; entries = entries }

  abbrev answered : ℕ → Gateway
  answered byte = record {
    request = record r { resp_byte = byte; resp_len = 1 };
    entries = entries;
  }

  abbrev forwarded : ℕ → ℕ → Gateway
  forwarded byte now = record {
    request = record r {
      resp_byte = byte;
      resp_len = 1;
      num_fwd_resp = (r.num_fwd_resp + 1) % 2 ^ 16;
      timeout = now;
      state = at_wait_ack;
    };
    entries = entries;
  }

  abbrev acknowledged : ℕ → ℕ → Gateway
  acknowledged byte now = record {
    request = record (forwarded byte now).request { ack_received = true };
    entries = entries;
  }

  takes_byte :
      (byte : ℕ) (rest : List ℕ)
      → parse_response r.msg_id (byte ∷ rest) 1 waiting ≡ some ([], answered byte)
  unfolding parse_response response_details pointed
  takes_byte byte rest =
      rw (same, v.points, v.entry_eq, read_bytes-take 1 (byte ∷ rest) (omega arith)) refl
    where
      same : (r.msg_id == r.msg_id) ≡ true
      same = ground arith

  forwards :
      (byte : ℕ) (a : GatewayAnswers)
      → (byte == 0) ≡ false
      → cycle a (answered byte)
        ≡ some (
          child_send (record {
            dest = e.child_id;
            msg_id = e.hdr.msg_id;
            content = byte ∷ [];
            method = 3;
            endpoint = e.hdr.endpoint;
          })
              ∷ [],
          forwarded byte a.now,
        )
  unfolding cycle cycle_at wait_resp_step pointed forward_response
  forwards byte a some_byte =
      ap (λ t. cycle_at t a (answered byte)) v.state_eq
      ∙ rw (some_byte, v.points, v.entry_eq, v.has_id) refl

  takes_ack :
      (byte now : ℕ) (p : Payload) (rest : List ℕ)
      → p.hdr.msg_id ≡ e.hdr.msg_id
      → p.hdr.endpoint ≡ e.hdr.endpoint
      → p.content ≡ 65 ∷ 67 ∷ 75 ∷ rest
      → parse_response_ack e.child_id p (forwarded byte now) ≡ (true, acknowledged byte now)
  unfolding parse_response_ack take_ack pointed is_ack
  takes_ack byte now p rest same_id same_endpoint content_eq =
      rw (v.points, v.entry_eq, same_child, same_id_test, same_endpoint_test, ack) refl
    where
      same_child : (e.child_id == e.child_id) ≡ true
      same_child = ground arith

      same_id_test : (p.hdr.msg_id == e.hdr.msg_id) ≡ true
      same_id_test = ground (arith, same_id)

      same_endpoint_test : (p.hdr.endpoint == e.hdr.endpoint) ≡ true
      same_endpoint_test = ground (arith, same_endpoint)

      ack : is_ack p.content ≡ true
      ack = rw content_eq refl

  ends :
      (byte now : ℕ) (a : GatewayAnswers)
      → a.received ≡ some (some idx)
      → (t : Gateway) × (cycle a (acknowledged byte now) ≡ some ([], t)) × IsDiscarded idx waiting t
  unfolding cycle cycle_at wait_ack_step request_sent clear_received clear_entry
  ends byte now a received = (
    record {
      request = record (acknowledged byte now).request {
        state = at_idle;
        num_retries = 0;
        num_fwd_resp = 0;
      };
      entries = set entries idx no_entry;
    },
    rw (received, v.entry_eq) refl,
    record { entries_eq = refl; idle = refl; no_retries = refl },
  )

-- The cloud answers the request that the machine waits for with one byte other than 0, and the child
-- acknowledges it: cloudMeshParseResponse and the next cycle send the byte to the child, with the id
-- and the endpoint of its request; the acknowledgement with that id and endpoint is taken, and the
-- cycle after it clears the entry of the request and no other one, and is ready for the next one.
pub response_delivered :
    (idx byte : ℕ) (e : Entry) (r : CloudRequest) (entries : List Entry) (rest ack_rest : List ℕ)
    (a a' : GatewayAnswers) (p : Payload)
    → IsWaiting idx e r entries
    → (byte == 0) ≡ false
    → p.hdr.msg_id ≡ e.hdr.msg_id
    → p.hdr.endpoint ≡ e.hdr.endpoint
    → p.content ≡ 65 ∷ 67 ∷ 75 ∷ ack_rest
    → a'.received ≡ some (some idx)
    → let s : Gateway = record { request = r; entries = entries } in
      (s₁ s₂ s₃ s₄ : Gateway) × (parse_response r.msg_id (byte ∷ rest) 1 s ≡ some ([], s₁))
      × (cycle a s₁
          ≡ some (
            child_send (record {
              dest = e.child_id;
              msg_id = e.hdr.msg_id;
              content = byte ∷ [];
              method = 3;
              endpoint = e.hdr.endpoint;
            })
                ∷ [],
            s₂,
          ))
      × (parse_response_ack e.child_id p s₂ ≡ (true, s₃))
      × (cycle a' s₃ ≡ some ([], s₄))
      × IsDiscarded idx s s₄
response_delivered idx byte e r entries rest ack_rest a a' p v some_byte same_id same_endpoint
      content_eq received =
    let (t, ran, over) = ends idx e r entries v byte a.now a' received in
    (
      answered idx e r entries v byte,
      forwarded idx e r entries v byte a.now,
      acknowledged idx e r entries v byte a.now,
      t,
      takes_byte idx e r entries v byte rest,
      forwards idx e r entries v byte a some_byte,
      takes_ack idx e r entries v byte a.now p ack_rest same_id same_endpoint content_eq,
      ran,
      over,
    )
