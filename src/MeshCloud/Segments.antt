-- ===== src/MeshCloud/Segments.antt =====
-- The segments in which mesh_cloud.c sends a report.
use edge_pdl.Prelude.{ℕ, ◌-◌, ◌%◌, ◌≤◌, ◌<◌, some, true, false, ltb, lt→ltb}
use edge_pdl.Prelude.{
  List, [], ◌∷◌, ◌++◌, length, length-append, drop, ◌≡◌, refl, sym, ap, ◌∙◌, arith,
}
use edge_pdl.Buffer.{put_all, put_all_lem, read_bytes, read_bytes_all}
use edge_pdl.MeshPayload.{Header, no_header}
use edge_pdl.MeshCloud.{
  ReportType, monitor, Outgoing, Cloud, mesh_send, endpoint_of, segment_header, send_segment,
  send_report_data, move_buffer, data_sent, end_report,
}

-- The header of a segment before it has an id.
abbrev pub header_at : ℕ → ℕ → ℕ → ℕ → Header
header_at endpoint len idx partial = record {
  msg_id = 0;
  len = len;
  method = 2;
  endpoint = endpoint;
  idx = idx;
  partial = partial;
}

drop_all : (xs ys : List ℕ) → drop (length xs) (xs ++ ys) ≡ ys
drop_all [] ys = refl
drop_all (x ∷ xs) ys = drop_all xs ys

-- A report as getQueuedData leaves it, of data that are cut behind the first segment; what is left of it
-- after the first segment; and what moves to the start of the buffer.
abbrev pub loaded : List ℕ → List ℕ → List ℕ → ℕ → Outgoing
loaded a b rest epoch = record {
  hdr = no_header;
  buf = a ++ (b ++ rest);
  len = length (a ++ b);
  epoch = epoch;
}

abbrev pub first_out : ℕ → List ℕ → List ℕ → List ℕ → ℕ → ℕ → Outgoing
first_out endpoint a b rest epoch sent_id = record (loaded a b rest epoch) {
  hdr = record (header_at endpoint 224 0 1) { msg_id = sent_id };
}

abbrev pub second_loaded : ℕ → List ℕ → List ℕ → List ℕ → ℕ → Outgoing
second_loaded endpoint a b rest epoch = record {
  hdr = header_at endpoint 224 1 1;
  buf = b ++ drop (length b) (a ++ (b ++ rest));
  len = length b;
  epoch = epoch;
}

module _ (type : ReportType) (endpoint : ℕ) (a b rest : List ℕ) (epoch dest : ℕ)
    (known : endpoint_of type ≡ some endpoint) (whole : length a ≡ 224) (more : 0 < length b)
    (fits : length b ≤ 224) where
  pub first_lem :
      (sent_id : ℕ)
      → 0 < sent_id
      → send_report_data type dest sent_id (loaded a b rest epoch)
        ≡ some (
          true,
          mesh_send dest (header_at endpoint 224 0 1) a ∷ [],
          first_out endpoint a b rest epoch sent_id,
        )
  unfolding send_report_data send_segment segment_header
  first_lem sent_id positive = rw (known, long, read, lt→ltb 0 sent_id positive) refl
    where
      long : ltb 224 (length (a ++ b)) ≡ true
      long = lt→ltb _ _ (omega (arith, length-append a b, whole, more))

      read : read_bytes 224 (a ++ (b ++ rest)) ≡ some a
      read = ap (λ n. read_bytes n (a ++ (b ++ rest))) (sym whole) ∙ read_bytes_all a (b ++ rest)

  moves :
      (sent_id : ℕ)
      → move_buffer (first_out endpoint a b rest epoch sent_id)
        ≡ some (record (second_loaded endpoint a b rest epoch) {
          hdr = record (second_loaded endpoint a b rest epoch).hdr { msg_id = sent_id };
        })
  unfolding move_buffer
  moves sent_id =
      rw (enough, left_read, written)
        (ap
          (λ n. some (record (second_loaded endpoint a b rest epoch) {
            len = n;
            hdr = record (second_loaded endpoint a b rest epoch).hdr { msg_id = sent_id };
          }))
          left_length)
    where
      enough : ltb (length (a ++ b)) 224 ≡ false
      enough = ground (arith, length-append a b, whole)

      left_length : length (a ++ b) - 224 ≡ length b
      left_length = omega (arith, length-append a b, whole)

      left_read : read_bytes (length (a ++ b) - 224) (drop 224 (a ++ (b ++ rest))) ≡ some b
      left_read =
          ap (λ n. read_bytes n (drop 224 (a ++ (b ++ rest)))) left_length
          ∙ ap (read_bytes (length b))
              (ap (λ n. drop n (a ++ (b ++ rest))) (sym whole) ∙ drop_all a (b ++ rest))
          ∙ read_bytes_all b rest

      written :
          put_all b (record { buf = a ++ (b ++ rest); end = 0 })
          ≡ some (record { buf = (second_loaded endpoint a b rest epoch).buf; end = length b })
      written =
          put_all_lem b [] (a ++ (b ++ rest))
            (omega (arith, length-append a (b ++ rest), whole, fits))

  pub second_lem :
      (s : Cloud) (sent_id : ℕ)
      → data_sent (record s { out = first_out endpoint a b rest epoch sent_id })
        ≡ some ([], end_report (record s { out = (second_loaded endpoint a b rest epoch) }))
  unfolding data_sent
  second_lem s sent_id = rw (moves sent_id) refl

  pub last_lem :
      (sent_id : ℕ)
      → 0 < sent_id
      → send_report_data type dest sent_id (second_loaded endpoint a b rest epoch)
        ≡ some (
          true,
          mesh_send dest (header_at endpoint (length b) 1 0) b ∷ [],
          record (second_loaded endpoint a b rest epoch) {
            hdr = record (header_at endpoint (length b) 1 0) { msg_id = sent_id };
          },
        )
  unfolding send_report_data send_segment segment_header
  last_lem sent_id positive =
      rw
        (
          known,
          short,
          byte,
          read_bytes_all b (drop (length b) (a ++ (b ++ rest))),
          lt→ltb 0 sent_id positive,
        )
        refl
    where
      short : ltb 224 (length b) ≡ false
      short = ground (arith, fits)

      byte : length b % 256 ≡ length b
      byte = omega (arith, fits)

pub monitor_endpoint : endpoint_of monitor ≡ some 2
unfolding endpoint_of
monitor_endpoint = refl
