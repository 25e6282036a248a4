-- ===== src/MeshUpdate/Request.antt =====
-- The request for the next chunk (processDownload of mesh_update.c in its states IDLE and GET_CHUNK).
use edge_pdl.Prelude.{ℕ, ◌-◌, ◌^◌, ◌≤◌, ◌<◌, min, some, ◌>>=◌, true, false}
use edge_pdl.Prelude.{
  ltb, leb, le→leb, List, [], ◌∷◌, ◌++◌, length, length-append, take, drop, replicate, length-take,
  ◌≡◌, refl, ap, ◌∙◌, arith,
}
use edge_pdl.Buffer.{read_bytes_all}
use edge_pdl.EdgePayload.Header.{ComHeader, header_bytes, le_bytes16, le_bytes32}
use edge_pdl.EdgePayload.UpdateGet.{UpdateGet, update_get_bytes, update_get_to_buf_lem}
use edge_pdl.MeshUpdate.{
  Update, DownloadAnswers, download_idle, get_chunk, wait_chunk, next_chunk_len, take_encoded,
  encode_request, prepare_file_payload, download_idle_step, get_chunk_step, process_at,
  process_download,
}

next_chunk_len_lem :
    (c : ℕ) (s : Update)
    → c < 2 ^ 16
    → s.chunk_offset < s.size
    → s.size < 2 ^ 32
    → next_chunk_len c s ≡ min c (s.size - s.chunk_offset)
unfolding next_chunk_len
next_chunk_len_lem c s h₁ h₂ h₃ = ground arith

-- The request, and the state in which its answer is awaited.
abbrev pub request : ComHeader → ℕ → ℕ → UpdateGet
request h offset len = record { header = h; chunk_offset = offset; chunk_length = len }

module _ (a b : DownloadAnswers) (s : Update) (h : ComHeader) (idle : s.download ≡ download_idle)
    (left : s.chunk_offset < s.size) (word : s.size < 2 ^ 32) (room : length s.buf ≡ 233)
    (known : a.header ≡ some h) (fits : h.dev_id.len ≤ length h.dev_id.id)
    (short : h.dev_id.len ≤ 8) (small : a.chunk_size < 2 ^ 16) (sent : 0 < b.sent_id) where
  abbrev len : ℕ
  len = min a.chunk_size (s.size - s.chunk_offset)

  abbrev payload : List ℕ
  payload = update_get_bytes (request h s.chunk_offset len)

  abbrev prepared : Update
  prepared = record s {
    chunk_len = len;
    buf = payload ++ drop (length payload) s.buf;
    len = length payload;
  }

  encode_request_lem :
      encode_request a.header (record s { chunk_len = len }) ≡ some (true, prepared)
  unfolding encode_request take_encoded
  encode_request_lem =
      rw
        (
          known,
          update_get_to_buf_lem s.buf 233 (request h s.chunk_offset len) (omega (arith, room)) fits,
          enough,
        )
        refl
    where
      enough : leb (length payload) 233 ≡ true
      enough = le→leb _ _ (
          omega (
            arith,
            fits,
            short,
            length-append (header_bytes h) (le_bytes32 s.chunk_offset ++ le_bytes16 len),
            length-append (take h.dev_id.len h.dev_id.id) (le_bytes32 h.timestamp),
            length-take h.dev_id.len h.dev_id.id,
          ))

  idle_lem : download_idle_step a s ≡ some (true, [], record prepared { download = get_chunk })
  unfolding download_idle_step prepare_file_payload
  idle_lem = rw (more, next_chunk_len_lem a.chunk_size s small left word, encode_request_lem) refl
    where
      more : leb s.size s.chunk_offset ≡ false
      more = ground (arith, left)

  abbrev pub awaiting : Update
  awaiting = record s {
    chunk_len = len;
    buf = replicate 233 0;
    len = 0;
    msg_id = b.sent_id;
    timeout = b.now;
    download = wait_chunk;
  }

  get_lem :
      get_chunk_step b (record prepared { download = get_chunk })
      ≡ some (true, payload ∷ [], awaiting)
  unfolding get_chunk_step
  get_lem = rw (read_bytes_all payload (drop (length payload) s.buf), got) refl
    where
      got : ltb 0 b.sent_id ≡ true
      got = ground (arith, sent)

  -- Two cycles ask for the next chunk, up to the end of the file.
  pub request_lem :
      (process_download a s >>= λ r. process_download b r.2) ≡ some (true, payload ∷ [], awaiting)
  unfolding process_download process_at
  request_lem = rw (started) get_lem
    where
      started : process_download a s ≡ some (true, [], record prepared { download = get_chunk })
      started = ap (λ d. process_at d a s) idle ∙ idle_lem
