-- ===== src/MeshUpdate/Download.antt =====
-- What a chunk that the server sends does to the file (meshUpdateParseServerResponse and
-- processDownload of mesh_update.c).
use edge_pdl.Prelude.{ℕ, suc, ◌+◌, ◌*◌, ◌/◌, ◌%◌, ◌^◌, ◌≤◌, ◌<◌, some, ◌>>=◌, true, false}
use edge_pdl.Prelude.{
  if◌then◌else◌, ltb, leb, ◌==◌, List, [], ◌∷◌, ◌++◌, length, length-append, take, drop, AllBytes,
  ◌≡◌, refl, sym, ap, ◌∙◌, arith, zero, length-take, length-drop,
}
use edge_pdl.Buffer.{put_all_lem, read_bytes, read_bytes_all}
use edge_pdl.Crc16.Detect.{calc_block-calc_byte, calc_block_prefix, calc_byte-word}
use edge_pdl.EdgePayload.Header.{le_bytes16, le_bytes32}
use edge_pdl.MeshSend.Transmit.{crc_of}
use edge_pdl.MeshPayload.{Payload}
use edge_pdl.MeshReceive.Packet.{load16_at}
use edge_pdl.MeshReceive.NodesMap.{load32_at}
use edge_pdl.MeshUpdate.{
  Update, DownloadAnswers, verify, download_idle, wait_chunk, read_chunk, write_chunk, accept_chunk,
  parse_file_chunks, wait_chunk_step, process_at, process_download, take_content,
  parse_server_response,
}

-- The header of a chunk, and the chunk.
abbrev pub chunk_bytes : ℕ → List ℕ → List ℕ
chunk_bytes offset chunk =
    le_bytes32 offset ++ le_bytes16 (length chunk) ++ le_bytes16 (crc_of chunk) ++ chunk

-- What is received stands at the start of the buffer.
abbrev pub taken : ℕ → List ℕ → Update → Update
taken len content s = record s {
  msg_id = 0;
  len = len;
  buf = content ++ drop (length content) s.buf;
}

response_taken :
    (p : Payload) (s : Update) (len : ℕ) (content rest : List ℕ)
    → p.content ≡ content ++ rest
    → p.hdr.len ≡ len
    → len ≡ length content
    → p.hdr.msg_id ≡ s.msg_id
    → 1 < length content
    → length content ≤ 233
    → length content ≤ length s.buf
    → parse_server_response p s ≡ some (taken len content s)
unfolding parse_server_response take_content
response_taken p s len content rest content_eq len_eq size_eq id_eq several short room =
    rw (byte, own, whole, content_eq, len_eq, copied, put_all_lem content [] s.buf room) refl
  where
    byte : (p.hdr.len == 1) ≡ false
    byte = ground (arith, len_eq, size_eq, several)

    own : (p.hdr.msg_id == s.msg_id) ≡ true
    own = ground (arith, id_eq)

    whole : ltb 233 p.hdr.len ≡ false
    whole = ground (arith, len_eq, size_eq, short)

    copied : read_bytes len (content ++ rest) ≡ some content
    copied = ap (λ n. read_bytes n (content ++ rest)) size_eq ∙ read_bytes_all content rest

read_chunk_lem :
    (offset len crc : ℕ) (rest : List ℕ)
    → offset < 2 ^ 32
    → len < 2 ^ 16
    → crc < 2 ^ 16
    → read_chunk (le_bytes32 offset ++ le_bytes16 len ++ le_bytes16 crc ++ rest)
      ≡ some (record { offset = offset; len = len; crc = crc })
unfolding read_chunk
read_chunk_lem offset len crc rest h₁ h₂ h₃ =
    rw
      (
        load32_at [] _ 0 _ _ _ _ refl,
        load16_at (le_bytes32 offset) (le_bytes16 crc ++ rest) _ _,
        load16_at (le_bytes32 offset ++ le_bytes16 len) rest _ _,
      )
      (λ i. some (record { offset = e₁ i; len = e₂ i; crc = e₃ i }))
  where
    e₁ :
        offset % 256
          + 256 * (offset / 2 ^ 8 % 256)
          + 2 ^ 16 * (offset / 2 ^ 16 % 256 + 256 * (offset / 2 ^ 24 % 256))
        ≡ offset
    e₁ = omega (arith, h₁)

    e₂ : len % 256 + 256 * (len / 2 ^ 8 % 256) ≡ len
    e₂ = omega (arith, h₂)

    e₃ : crc % 256 + 256 * (crc / 2 ^ 8 % 256) ≡ crc
    e₃ = omega (arith, h₃)

-- The chunk is at the end of the file, and the next one is asked for, or the file is verified.
abbrev pub written : List ℕ → Update → Update
written chunk s = record s {
  file = s.file ++ chunk;
  chunk_offset = s.chunk_offset + length chunk;
  chunk_err = 0;
  download = if leb s.size (s.chunk_offset + length chunk) then verify else download_idle;
}

module _ (a : DownloadAnswers) (s : Update) (chunk rest : List ℕ) (bytes : AllBytes chunk)
    (end_eq : s.chunk_offset + length chunk < 2 ^ 32) (short : 8 + length chunk ≤ 233)
    (asked : s.chunk_len ≡ length chunk) (ok : a.write_ok ≡ true)
    (all : a.bytes_written ≡ length chunk) where
  abbrev buf : List ℕ
  buf = chunk_bytes s.chunk_offset chunk ++ rest

  abbrev received : Update
  received = record s { msg_id = 0; len = 8 + length chunk; buf = buf }

  write_chunk_lem :
      write_chunk a
        (record { offset = s.chunk_offset; len = length chunk; crc = crc_of chunk })
        (chunk ++ rest)
        received
      ≡ some (true, record (written chunk received) { download = s.download })
  unfolding write_chunk
  write_chunk_lem = rw (read_bytes_all chunk rest, ok, whole, stays) refl
    where
      whole : (length chunk == a.bytes_written) ≡ true
      whole = ground (arith, all)

      stays : (s.chunk_offset + length chunk) % 2 ^ 32 ≡ s.chunk_offset + length chunk
      stays = omega (arith, end_eq)

  accept_chunk_lem :
      accept_chunk a
        (record { offset = s.chunk_offset; len = length chunk; crc = crc_of chunk })
        received
      ≡ some (true, record (written chunk received) { download = s.download })
  unfolding accept_chunk
  accept_chunk_lem =
      rw
        (
          same (8 + length chunk),
          same s.chunk_offset,
          wanted,
          calc_block_prefix chunk rest ∙ calc_block-calc_byte chunk bytes,
          same (crc_of chunk),
        )
        write_chunk_lem
    where
      same : (n : ℕ) → (n == n) ≡ true
      same n = ground arith

      wanted : (s.chunk_len == length chunk) ≡ true
      wanted = ground (arith, asked)

  parse_file_chunks_lem :
      parse_file_chunks a received
      ≡ some (true, record (written chunk received) { download = s.download })
  unfolding parse_file_chunks
  parse_file_chunks_lem =
      rw
        (read_chunk_lem s.chunk_offset (length chunk) (crc_of chunk) (chunk ++ rest)
          (omega (arith, end_eq)) (omega (arith, short)) (calc_byte-word chunk bytes))
        accept_chunk_lem

  wait_chunk_lem : wait_chunk_step a received ≡ some (true, [], written chunk received)
  unfolding wait_chunk_step
  wait_chunk_lem = rw (filled, parse_file_chunks_lem) refl
    where
      filled : ltb 0 received.len ≡ true
      filled = ground arith

take_none {ℓ} : {A : Type ℓ} (n : ℕ) → take {A = A} n [] ≡ []
take_none zero = refl
take_none (suc n) = refl

take-drop {ℓ} :
    {A : Type ℓ} (n m : ℕ) (xs : List A) → take n xs ++ take m (drop n xs) ≡ take (n + m) xs
take-drop zero m xs = ap (λ k. take k xs) {x = m} {y = 0 + m} (omega arith)
take-drop (suc n) m [] = take_none m ∙ sym (take_none (suc n + m))
take-drop (suc n) m (x ∷ xs) =
    ap (λ t. x ∷ t) (take-drop n m xs)
    ∙ ap (λ k. take k (x ∷ xs)) {x = suc (n + m)} {y = suc n + m} (omega arith)

-- The piece of the image that was asked for.
abbrev pub piece : List ℕ → Update → List ℕ
piece image s = take s.chunk_len (drop s.chunk_offset image)

length-piece :
    (image : List ℕ) (s : Update)
    → s.chunk_offset + s.chunk_len ≤ length image
    → length (piece image s) ≡ s.chunk_len
length-piece image s inside = omega (
  arith,
  inside,
  length-take s.chunk_len (drop s.chunk_offset image),
  length-drop s.chunk_offset image,
)

-- A chunk that the server sends in answer to the request that the download waits for, and that the
-- file system writes: the file, which held the image up to the offset, holds it up to the end of the
-- chunk, the errors are forgotten, and the next state is the one that asks for the next chunk, or the
-- one that verifies the file where that has its size.
pub chunk_written :
    (image rest : List ℕ) (p : Payload) (a : DownloadAnswers) (s : Update)
    → s.download ≡ wait_chunk
    → p.hdr.msg_id ≡ s.msg_id
    → p.hdr.len ≡ 8 + s.chunk_len
    → p.content ≡ chunk_bytes s.chunk_offset (piece image s) ++ rest
    → AllBytes (piece image s)
    → s.chunk_offset + s.chunk_len ≤ length image
    → s.chunk_offset + s.chunk_len < 2 ^ 32
    → 8 + s.chunk_len ≤ 233
    → length s.buf ≡ 233
    → a.write_ok ≡ true
    → a.bytes_written ≡ s.chunk_len
    → s.file ≡ take s.chunk_offset image
    → (buf : List ℕ) × (length buf ≡ 233)
      × ((parse_server_response p s >>= process_download a)
          ≡ some (
            true,
            [],
            record s {
              msg_id = 0;
              len = 8 + s.chunk_len;
              buf = buf;
              file = take (s.chunk_offset + s.chunk_len) image;
              chunk_offset = s.chunk_offset + s.chunk_len;
              chunk_err = 0;
              download =
                  if leb s.size (s.chunk_offset + s.chunk_len) then verify else download_idle;
            },
          ))
unfolding process_download process_at
chunk_written image rest p a s state id_eq len_eq content_eq bytes inside end_eq short room ok all
      held =
    (
      buf,
      omega (
        arith,
        short,
        size,
        room,
        length-append content (drop (length content) s.buf),
        length-drop (length content) s.buf,
      ),
      rw (took) (
          ap (λ d. process_at d a (taken len content s)) state ∙ done ∙ λ i. some (
            true,
            [],
            record s {
              msg_id = 0;
              len = 8 + size i;
              buf = buf;
              file = holds i;
              chunk_offset = s.chunk_offset + size i;
              chunk_err = 0;
              download = if leb s.size (s.chunk_offset + size i) then verify else download_idle;
            },
          )),
    )
  where
    len : ℕ
    len = 8 + length (piece image s)

    content : List ℕ
    content = chunk_bytes s.chunk_offset (piece image s)

    buf : List ℕ
    buf = content ++ drop (length content) s.buf

    size : length (piece image s) ≡ s.chunk_len
    size = length-piece image s inside

    took : parse_server_response p s ≡ some (taken len content s)
    took =
        response_taken p s len content rest content_eq (omega (arith, len_eq, size)) (omega arith)
          id_eq (omega arith) (omega (arith, short, size)) (omega (arith, short, size, room))

    done :
        wait_chunk_step a (taken len content s)
        ≡ some (true, [], written (piece image s) (taken len content s))
    done =
        wait_chunk_lem a s (piece image s) (drop (length content) s.buf) bytes
          (omega (arith, end_eq, size)) (omega (arith, short, size)) (sym size) ok (all ∙ sym size)

    holds : s.file ++ piece image s ≡ take (s.chunk_offset + s.chunk_len) image
    holds = ap (λ t. t ++ piece image s) held ∙ take-drop s.chunk_offset s.chunk_len image
