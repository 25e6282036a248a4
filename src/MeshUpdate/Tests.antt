-- ===== src/MeshUpdate/Tests.antt =====
-- The download of mesh_update.c at concrete inputs.
use edge_pdl.Prelude.{ℕ, none, some, true, false, List, [], ◌∷◌, replicate, ◌≡◌, refl, arith}
use edge_pdl.Buffer.{read_bytes_all}
use edge_pdl.EdgePayload.Header.{ComHeader}
use edge_pdl.MeshPayload.{Payload, no_header}
use edge_pdl.MeshUpdate.{
  init, Update, DownloadAnswers, download_error, update_started, update_idle, download_file,
  download_idle, get_chunk, wait_chunk, verify, download_retry_delay, next_chunk_len,
  encode_request, prepare_file_payload, download_idle_step, get_chunk_step, verify_step, is_unknown,
  download_retry_step, process_at, process_download, is_ack, parse_request_ack, is_update_idle,
  take_request_byte, parse_server_response,
}
use edge_pdl.MeshUpdate.Complete.{transfer, download_completes}

abbrev image : List ℕ
image = 10 ∷ 20 ∷ 30 ∷ 40 ∷ 50 ∷ []

abbrev asking : Update
asking = record init {
  state = download_file;
  size = 5;
  file = 10 ∷ 20 ∷ [];
  chunk_offset = 2;
  chunk_err = 4;
}

abbrev waiting : Update
waiting = record asking { download = wait_chunk; msg_id = 77; chunk_len = 2 }

abbrev own_header : ComHeader
own_header = record {
  protocol_ver = 2;
  dev_type = 11;
  dev_id = record { len = 6; id = 1 ∷ 2 ∷ 3 ∷ 4 ∷ 5 ∷ 6 ∷ 0 ∷ 0 ∷ [] };
  timestamp = 9;
}

abbrev answers : DownloadAnswers
answers = record {
  chunk_size = 2;
  header = some own_header;
  now = 5001;
  sent_id = 77;
  write_ok = true;
  bytes_written = 2;
  verified = true;
  scratch = [];
  renamed = true;
}

abbrev world : Update → DownloadAnswers
world s = record answers { bytes_written = s.chunk_len }

download_completes_example :
    (t : Update) × (transfer 3 image world asking ≡ some t)
    × (t.download ≡ verify)
    × (t.file ≡ image)
download_completes_example =
    download_completes image world own_header 2
      (omega arith, (omega arith, (omega arith, (omega arith, (omega arith, tt))))) (omega arith)
      (λ s. refl) (omega arith) (omega arith) (λ s. refl) (omega arith) (omega arith)
      (λ s. omega arith) (λ s. refl) (λ s. refl) 3 asking refl refl (omega arith) refl refl
      (omega arith)

-- Without a clock no request is prepared.
no_clock :
    process_download (record answers { header = none }) asking
    ≡ some (false, [], record asking { chunk_len = 2 })
unfolding process_download process_at download_idle_step prepare_file_payload next_chunk_len
    encode_request
no_clock = refl

-- A failed send and a wait of more than ten seconds are tried again.
send_failed :
    (process_download
      (record answers { sent_id = 0 })
      (record waiting { download = get_chunk; len = 1 }))
    ≡ some (
      true,
      (0 ∷ []) ∷ [],
      record waiting { download = download_retry_delay; len = 1; msg_id = 0; timeout = 5001 },
    )
unfolding process_download process_at get_chunk_step
send_failed = rw (read_bytes_all (0 ∷ []) (replicate 232 0)) refl

-- The verification, and the end of the retries with the twentieth error.
verified_example :
    process_download answers (record waiting { download = verify; chunk_offset = 5 })
    ≡ some (
      true,
      [],
      record waiting {
        result = update_started;
        download = download_idle;
        chunk_offset = 5;
        buf = [];
      },
    )
unfolding process_download process_at verify_step
verified_example = refl

given_up :
    process_download answers (record waiting { download = download_retry_delay; chunk_err = 19 })
    ≡ some (
      false,
      [],
      record waiting { result = download_error; download = download_idle; chunk_err = 20 },
    )
unfolding process_download process_at download_retry_step is_unknown
given_up = refl

-- The acknowledgement of a request, and a request for an update, which is taken only when idle.
acknowledged :
    parse_request_ack
      (record { hdr = record no_header { msg_id = 77 }; content = 65 ∷ 67 ∷ 75 ∷ [] })
      waiting
    ≡ (true, record waiting { ack_received = true; ack_status = true })
unfolding parse_request_ack is_ack
acknowledged = refl

abbrev wanted : Payload
wanted = record { hdr = record no_header { len = 1 }; content = 0x51 ∷ [] }

requested_example :
    parse_server_response wanted (record waiting { state = update_idle; num_retries = 3 })
    ≡ some (record waiting { state = update_idle; requested = true })
unfolding parse_server_response take_request_byte is_update_idle
requested_example = refl

not_requested : parse_server_response wanted waiting ≡ some waiting
unfolding parse_server_response take_request_byte is_update_idle
not_requested = refl
