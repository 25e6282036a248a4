-- ===== src/MeshCloud/Reports/Inside.antt =====
-- The buffer of the report under meshCloudCycle of mesh_cloud.c, and when it drops a report.
use edge_pdl.Prelude.{
  ℕ, ◌+◌, ◌%◌, ◌^◌, ◌≤◌, Option, none, some, Bool, true, false, ◌&&◌, ◌||◌, not, if◌then◌else◌, ltb,
  leb, ◌==◌, Bool-cases, Option-cases, inl, inr,
}
use edge_pdl.Prelude.{
  List, [], ◌++◌, length, length-append, length-drop, drop, replicate, ◌≡◌, refl, ap, ◌∙◌, arith,
}
use edge_pdl.Buffer.{put_all_lem}
use edge_pdl.MeshComms.{elapsed}
use edge_pdl.MeshPayload.{no_header}
use edge_pdl.MeshReceive.Packet.{load32_inside}
use edge_pdl.MeshRoute.{get_route}
use edge_pdl.MeshCloud.{
  ReportType, no_report, monitor, status, event, ReportState, at_idle, at_data, at_send_req,
  at_wait_ack, at_wait_resp, at_retry_delay, Outgoing, Cloud, CloudCall, endpoint_of, sent_calls,
  data_sent, end_report,
}
use edge_pdl.MeshCloud.Buffers.{
  IsOutgoing, IsSegment, removes, send_inside, moves_inside, ends_report,
}
use edge_pdl.MeshCloud.Reports.{
  CycleAnswers, Cycled, to_state, to_state_at, count_rsp_error, is_pending, following_type,
  load_report, queued_of, get_queued_data, check_route, idle_cycle, data_cycle, send_req_cycle,
  ack_cycle, late_ack, wait_ack_cycle, response_ack, respond, wait_resp_cycle, retry_cycle,
  cycle_at, cycle,
}

-- What holds at a state: a report to send has an endpoint, and one that was sent has its last segment
-- inside its data.
abbrev pub Stage : ReportState → ReportType → Outgoing → Type 0
Stage at_send_req type o = (endpoint : ℕ) × (endpoint_of type ≡ some endpoint)
Stage at_wait_ack type o = IsSegment o
Stage at_wait_resp type o = IsSegment o
Stage at_retry_delay type o = Unit
Stage at_idle type o = Unit
Stage at_data type o = Unit

pub record IsCloud (s : Cloud) : Type 0 where
  pub outgoing : IsOutgoing s.out
  pub stage : Stage s.report.state s.report.type s.out

-- The logging has reports of at most 320 bytes.
pub record IsLogged (a : CycleAnswers) : Type 0 where
  pub report_fits :
      (type : ReportType) (bytes : List ℕ) → a.queued type ≡ some bytes → length bytes ≤ 320

-- The server answered the report, with success or for the fifth time with an error.
abbrev pub is_answered : ReportState → Cloud → Bool
is_answered at_wait_resp s =
    not (s.report.resp_byte == 0)
    && (leb 0x50 s.report.resp_byte && leb s.report.resp_byte 0x54
        || leb 5 ((s.report.num_errors + 1) % 256))
is_answered _ s = false

Inside : CycleAnswers → ReportState → Cloud → Type 0
Inside a state s =
    (r : Cycled) × (cycle_at state a s ≡ some r)
    × IsCloud r.2
    × ((removes r.1 && not (is_answered state s)) ≡ false)

-- cbDataSent leaves the machine at its start.
sent_inside :
    (s : Cloud)
    → IsOutgoing s.out
    → IsSegment s.out
    → (calls : List CloudCall) × (t : Cloud) × (data_sent s ≡ some (calls, t)) × IsCloud t
sent_inside s v part = elim (Bool-cases (s.out.hdr.partial == 0)) [
  | inl whole ↦ (
    sent_calls s.report.type,
    end_report (record s { report = record s.report { type = no_report } }),
    ends_report s whole,
    record { outgoing = record { buf_length = v.buf_length; len_le = v.len_le }; stage = tt },
  )
  | inr partial ↦ elim part [
    | inl whole ↦ absurd (ground (arith, whole, partial))
    | inr inside ↦
        let (o, moved, u) = moves_inside s v partial inside in
        (
          [],
          end_report (record s { out = o }),
          moved,
          record { outgoing = record { buf_length = u.buf_length; len_le = u.len_le }; stage = tt },
        )
  ]
]

and_false : (b : Bool) → (b && false) ≡ false
and_false true = refl
and_false false = refl

pending-known :
    (type : ReportType) (len : ℕ)
    → is_pending type len ≡ true
    → (endpoint : ℕ) × (endpoint_of type ≡ some endpoint)
unfolding is_pending endpoint_of
pending-known no_report len h = absurd (ground (arith, h))
pending-known monitor len h = (2, refl)
pending-known status len h = (3, refl)
pending-known event len h = (4, refl)

queued_of-known :
    (type : ReportType) (queued : ReportType → Option (List ℕ)) (bytes : List ℕ)
    → queued_of type queued ≡ some bytes
    → (endpoint : ℕ) × (endpoint_of type ≡ some endpoint) × (queued type ≡ some bytes)
unfolding queued_of endpoint_of
queued_of-known no_report queued bytes h = absurd (cc)
queued_of-known monitor queued bytes h = (2, refl, h)
queued_of-known status queued bytes h = (3, refl, h)
queued_of-known event queued bytes h = (4, refl, h)

loads_inside :
    (type : ReportType) (bytes : List ℕ) (s : Cloud)
    → length bytes ≤ 320
    → (t : Cloud) × (load_report type (some bytes) s ≡ some (true, t))
      × IsOutgoing t.out
      × (t.report.type ≡ type)
unfolding load_report
loads_inside type bytes s fits =
    let (epoch, read) =
      load32_inside (bytes ++ drop (length bytes) (replicate 320 0)) 9 (omega (arith, whole)) in
    (
      record s {
        out = record {
          hdr = no_header;
          buf = bytes ++ drop (length bytes) (replicate 320 0);
          len = length bytes;
          epoch = epoch;
        };
        report = record s.report { type = type };
      },
      rw (put_all_lem bytes [] (replicate 320 0) fits, read) refl,
      record { buf_length = whole; len_le = fits },
      refl,
    )
  where
    zeros : List ℕ
    zeros = replicate 320 0

    whole : length (bytes ++ drop (length bytes) zeros) ≡ 320
    whole = omega (
      arith,
      fits,
      length-append bytes (drop (length bytes) zeros),
      length-drop (length bytes) zeros,
    )

module _ (a : CycleAnswers) (s : Cloud) (w : IsCloud s) where
  idle-Inside : Inside a at_idle s
  unfolding Inside cycle_at idle_cycle check_route
  idle-Inside = elim (Bool-cases (s.sync.parent.id == 0)) [
    | inl no_parent ↦ ((false, [], s), rw no_parent refl, w, refl)
    | inr parent ↦ elim (Option-cases (get_route s.sync.parent.id a.routes)) [
      | inl lost ↦ (
        check_route none s,
        rw (parent, lost) refl,
        record { outgoing = w.outgoing; stage = w.stage },
        refl,
      )
      | inr (n, found) ↦ (
        (true, [], to_state at_data s),
        rw (parent, found) refl,
        record { outgoing = w.outgoing; stage = tt },
        refl,
      )
    ]
  ]

  send_req-Inside :
      (endpoint : ℕ) → endpoint_of s.report.type ≡ some endpoint → Inside a at_send_req s
  unfolding Inside cycle_at send_req_cycle
  send_req-Inside endpoint known =
      let (calls, t, sent, v, part, keeps) =
        send_inside s.report.type endpoint s.sync.parent.id a.sent_id s.out known w.outgoing in
      elim (Bool-cases (ltb 0 a.sent_id)) [
        | inl ok ↦ (
          (
            true,
            calls,
            to_state_at at_wait_ack a.now (record s {
              out = t;
              report = record s.report { ack_received = false; ack_status = false; resp_byte = 0 };
            }),
          ),
          rw (sent, ok) refl,
          record { outgoing = v; stage = part },
          rw keeps refl,
        )
        | inr failed ↦ (
          (
            true,
            calls,
            to_state_at at_retry_delay a.now (record s {
              out = t;
              report = record s.report { ack_received = false; ack_status = false; resp_byte = 0 };
            }),
          ),
          rw (sent, failed) refl,
          record { outgoing = v; stage = tt },
          rw keeps refl,
        )
      ]

  ack_inside :
      (ok : Bool)
      → IsSegment s.out
      → (r : Cycled) × (ack_cycle ok a s ≡ some r) × IsCloud r.2 × ((removes r.1 && true) ≡ false)
  unfolding ack_cycle
  ack_inside true part = elim (Bool-cases (s.out.hdr.partial == 0)) [
    | inl whole ↦ rw whole (_, refl, record { outgoing = w.outgoing; stage = inl whole }, refl)
    | inr partial ↦ elim part [
      | inl whole ↦ absurd (ground (arith, whole, partial))
      | inr inside ↦
          let (o, moved, v) = moves_inside s w.outgoing partial inside in
          rw (partial, moved)
            (
              _,
              refl,
              record {
                outgoing = record { buf_length = v.buf_length; len_le = v.len_le };
                stage = tt;
              },
              refl,
            )
    ]
  ]
  ack_inside false part = (
    _,
    refl,
    record { outgoing = record { buf_length = refl; len_le = omega arith }; stage = tt },
    refl,
  )

  late_inside :
      (r : Cycled) × (late_ack a s ≡ some r) × IsCloud r.2 × ((removes r.1 && true) ≡ false)
  unfolding late_ack
  late_inside = elim (Bool-cases (ltb 5000 (elapsed a.now s.report.timeout))) [
    | inl over ↦ rw over (_, refl, record { outgoing = w.outgoing; stage = tt }, refl)
    | inr early ↦ rw early (_, refl, w, refl)
  ]

  wait_ack-Inside : IsSegment s.out → Inside a at_wait_ack s
  unfolding Inside cycle_at wait_ack_cycle
  wait_ack-Inside part = by_received s.report.ack_received
    where
      by_received :
          (received : Bool)
          → (r : Cycled) × ((if received then ack_cycle s.report.ack_status a s else late_ack a s)
              ≡ some r)
            × IsCloud r.2
            × ((removes r.1 && true) ≡ false)
      by_received true = ack_inside s.report.ack_status part
      by_received false = late_inside

  retry-Inside : Inside a at_retry_delay s
  unfolding Inside cycle_at retry_cycle
  retry-Inside = elim (Bool-cases (ltb 10000 (elapsed a.now s.report.timeout))) [
    | inl over ↦ elim (Bool-cases (ltb 16 ((s.report.num_retries + 1) % 2 ^ 16))) [
      | inl many ↦ rw (over, many) (_, refl, record { outgoing = w.outgoing; stage = tt }, refl)
      | inr few ↦ rw (over, few) (_, refl, record { outgoing = w.outgoing; stage = tt }, refl)
    ]
    | inr early ↦ ((true, [], s), rw early refl, w, refl)
  ]

  -- What follows a response byte; `ok` says whether it is a success, `last` whether the errors are up.
  respond_inside :
      (u : Cloud)
      → IsOutgoing u.out
      → IsSegment u.out
      → (calls : List CloudCall) × (t : Cloud) × (respond a u ≡ some (calls, t))
        × IsCloud t
        × ((removes calls
              && not (
                  leb 0x50 u.report.resp_byte && leb u.report.resp_byte 0x54
                  || leb 5 ((u.report.num_errors + 1) % 256)))
            ≡ false)
  unfolding respond
  respond_inside u v part =
      elim (Bool-cases (leb 0x50 u.report.resp_byte && leb u.report.resp_byte 0x54)) [
        | inl ok ↦
            let (calls, t, sent, c) = sent_inside u v part in
            rw ok (calls, t, sent, c, and_false (removes calls))
        | inr failed ↦ elim (Bool-cases (leb 5 ((u.report.num_errors + 1) % 256))) [
          | inl last ↦
              let (calls, t, sent, c) =
                sent_inside
                  (record (count_rsp_error u) {
                    report = record u.report { num_errors = (u.report.num_errors + 1) % 256 };
                  })
                  v part in
              rw (failed, last) (calls, t, sent, c, and_false (removes calls))
          | inr again ↦ rw (failed, again) ([], _, refl, record { outgoing = v; stage = tt }, refl)
        ]
      ]

  wait_resp-Inside : IsSegment s.out → Inside a at_wait_resp s
  unfolding Inside cycle_at wait_resp_cycle response_ack
  wait_resp-Inside part = elim (Bool-cases (s.report.resp_byte == 0)) [
    | inl no_byte ↦ elim (Bool-cases (ltb 10000 (elapsed a.now s.report.timeout))) [
      | inl over ↦ rw (no_byte, over) (_, refl, record { outgoing = w.outgoing; stage = tt }, refl)
      | inr early ↦ rw (no_byte, early) (_, refl, w, refl)
    ]
    | inr byte ↦
        let (calls, t, done, c, kept) =
          respond_inside (record s { report = record s.report { prev_msg_id = s.out.hdr.msg_id } })
            w.outgoing part in
        rw (byte, done) (_, refl, c, kept)
  ]

  -- The report that getQueuedData has.
  data-Inside : IsLogged a → Inside a at_data s
  unfolding Inside cycle_at data_cycle get_queued_data load_report
  data-Inside logged = elim (Bool-cases (is_pending s.report.type s.out.len)) [
    | inl pending ↦ rw pending (
      _,
      refl,
      record { outgoing = w.outgoing; stage = pending-known s.report.type s.out.len pending },
      refl,
    )
    | inr none_left ↦ elim (Option-cases (queued_of s.next_type a.queued)) [
      | inl empty ↦
          rw (none_left, empty)
            (
              _,
              refl,
              record { outgoing = record { buf_length = refl; len_le = omega arith }; stage = tt },
              refl,
            )
      | inr (bytes, given) ↦
          let (ep, known, asked) = queued_of-known s.next_type a.queued bytes given in
          let (t, loads, v, type_eq) =
            loads_inside s.next_type bytes next (logged.report_fits s.next_type bytes asked) in
          rw (none_left, given, loads)
            (_, refl, record { outgoing = v; stage = (ep, ap endpoint_of type_eq ∙ known) }, refl)
    ]
  ]
    where
      next : Cloud
      next = record s { next_type = following_type s.next_type }

  at_state : IsLogged a → (state : ReportState) → Stage state s.report.type s.out → Inside a state s
  at_state logged at_idle stage = idle-Inside
  at_state logged at_data stage = data-Inside logged
  at_state logged at_send_req stage = send_req-Inside stage.0 stage.1
  at_state logged at_wait_ack stage = wait_ack-Inside stage
  at_state logged at_wait_resp stage = wait_resp-Inside stage
  at_state logged at_retry_delay stage = retry-Inside

-- meshCloudCycle, where the logging gives reports of at most 320 bytes, makes no access outside of the
-- buffer of the report and keeps its bounds. It tells the logging that a report was sent only where the
-- server answered it, with a success or with the fifth error.
pub cycle-IsCloud :
    (a : CycleAnswers) (s : Cloud)
    → IsCloud s
    → IsLogged a
    → (r : Cycled) × (cycle a s ≡ some r)
      × IsCloud r.2
      × ((removes r.1 && not (is_answered s.report.state s)) ≡ false)
unfolding cycle Inside
cycle-IsCloud a s w logged = at_state a s w logged s.report.state w.stage
