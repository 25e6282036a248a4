-- ===== src/MeshCloud/Buffers.antt =====
-- The buffer of the report that mesh_cloud.c sends, under sendReportData and cbDataSent.
use edge_pdl.Prelude.{
  ℕ, ◌+◌, ◌-◌, ◌%◌, ◌≤◌, some, Bool, true, false, ltb, ◌==◌, Bool-cases, ◌⊎◌, inl, inr,
}
use edge_pdl.Prelude.{
  List, [], ◌∷◌, ◌++◌, length, length-append, length-take, length-drop, take, drop, ◌≡◌, refl,
  arith,
}
use edge_pdl.Buffer.{put_all, put_all_lem, read_bytes, read_bytes-take}
use edge_pdl.MeshCloud.{
  ReportType, no_report, Outgoing, Cloud, CloudCall, set_conn_status, mesh_send, report_sent,
  endpoint_of, segment_header, send_segment, send_report_data, move_buffer, sent_calls, data_sent,
  end_report,
}

pub record IsOutgoing (o : Outgoing) : Type 0 where
  pub buf_length : length o.buf ≡ 320
  pub len_le : o.len ≤ 320

-- The segment that was sent last is part of the data.
abbrev pub IsSegment : Outgoing → Type 0
IsSegment o = ((o.hdr.partial == 0) ≡ true) ⊎ (o.hdr.len ≤ o.len)

-- A call says that a report was sent, so that the logging drops it.
abbrev pub removes : List CloudCall → Bool
removes [] = false
removes (report_sent type ∷ calls) = true
removes (set_conn_status ok ∷ calls) = removes calls
removes (mesh_send dest hdr content ∷ calls) = removes calls

-- The header of the next segment.
segment_fits : (endpoint : ℕ) (o : Outgoing) → (segment_header endpoint o).len ≤ 255
unfolding segment_header
segment_fits endpoint o = elim (Bool-cases (ltb 224 o.len)) [
  | inl long ↦ rw long (omega arith)
  | inr short ↦ rw short (omega arith)
]

segment_header-IsSegment :
    (endpoint sent_id : ℕ) (o : Outgoing)
    → IsSegment (record o { hdr = record (segment_header endpoint o) { msg_id = sent_id } })
unfolding segment_header
segment_header-IsSegment endpoint sent_id o = elim (Bool-cases (ltb 224 o.len)) [
  | inl long ↦ rw long (inr (ground (arith, long)))
  | inr short ↦ rw short (inl refl)
]

-- A segment of a report is sent, and its header is kept with the report.
pub send_inside :
    (type : ReportType) (endpoint dest sent_id : ℕ) (o : Outgoing)
    → endpoint_of type ≡ some endpoint
    → IsOutgoing o
    → (calls : List CloudCall) × (t : Outgoing) × (send_report_data type dest sent_id o
        ≡ some (ltb 0 sent_id, calls, t))
      × IsOutgoing t
      × IsSegment t
      × (removes calls ≡ false)
unfolding send_report_data send_segment
send_inside type endpoint dest sent_id o known v = (
  mesh_send dest (segment_header endpoint o) (take (segment_header endpoint o).len o.buf) ∷ [],
  record o { hdr = record (segment_header endpoint o) { msg_id = sent_id } },
  rw
      (
        known,
        read_bytes-take (segment_header endpoint o).len o.buf
            (omega (arith, segment_fits endpoint o, v.buf_length)),
      )
      refl,
  record { buf_length = v.buf_length; len_le = v.len_le },
  segment_header-IsSegment endpoint sent_id o,
  refl,
)

-- The data that are left move to the start.
pub moves_inside :
    (s : Cloud)
    → IsOutgoing s.out
    → (s.out.hdr.partial == 0) ≡ false
    → s.out.hdr.len ≤ s.out.len
    → (o : Outgoing) × (data_sent s ≡ some ([], end_report (record s { out = o }))) × IsOutgoing o
unfolding data_sent move_buffer
moves_inside s v partial part = (
  record s.out {
    buf = left ++ drop (length left) s.out.buf;
    len = s.out.len - s.out.hdr.len;
    hdr = record s.out.hdr { idx = (s.out.hdr.idx + 1) % 4 };
  },
  rw (partial, enough, read, written) refl,
  record {
    buf_length = omega (
      arith,
      v.buf_length,
      left_length,
      length-append left (drop (length left) s.out.buf),
      length-drop (length left) s.out.buf,
      v.len_le,
    );
    len_le = omega (arith, v.len_le);
  },
)
  where
    left : List ℕ
    left = take (s.out.len - s.out.hdr.len) (drop s.out.hdr.len s.out.buf)

    left_length : length left ≡ s.out.len - s.out.hdr.len
    left_length = omega (
      arith,
      length-take (s.out.len - s.out.hdr.len) (drop s.out.hdr.len s.out.buf),
      length-drop s.out.hdr.len s.out.buf,
      v.buf_length,
      v.len_le,
    )

    enough : ltb s.out.len s.out.hdr.len ≡ false
    enough = ground (arith, part)

    read : read_bytes (s.out.len - s.out.hdr.len) (drop s.out.hdr.len s.out.buf) ≡ some left
    read =
        read_bytes-take (s.out.len - s.out.hdr.len) (drop s.out.hdr.len s.out.buf)
          (omega (arith, length-drop s.out.hdr.len s.out.buf, v.buf_length, v.len_le))

    written :
        put_all left (record { buf = s.out.buf; end = 0 })
        ≡ some (record { buf = left ++ drop (length left) s.out.buf; end = length left })
    written = put_all_lem left [] s.out.buf (omega (arith, left_length, v.len_le, v.buf_length))

pub ends_report :
    (s : Cloud)
    → (s.out.hdr.partial == 0) ≡ true
    → data_sent s
      ≡ some (
        sent_calls s.report.type,
        end_report (record s { report = record s.report { type = no_report } }),
      )
unfolding data_sent
ends_report s whole = rw whole refl
