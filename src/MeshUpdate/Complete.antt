-- ===== src/MeshUpdate/Complete.antt =====
-- The download of a whole file (processDownload of mesh_update.c), from a server that answers each
-- request with the piece that it asks for.
use edge_pdl.Prelude.{
  ℕ, zero, suc, ◌+◌, ◌-◌, ◌^◌, ◌≤◌, ◌<◌, min, Option, some, ◌>>=◌, true, if◌then◌else◌, leb,
}
use edge_pdl.Prelude.{
  leb→le, Bool-cases, inl, inr, List, [], ◌∷◌, append-nil, length, take, drop, AllBytes, ◌≡◌, refl,
  sym, ap, ◌∙◌, arith,
}
use edge_pdl.EdgePayload.Header.{ComHeader}
use edge_pdl.MeshPayload.{Payload, no_header}
use edge_pdl.MeshUpdate.{
  Update, DownloadAnswers, download_idle, verify, process_download, parse_server_response,
}
use edge_pdl.MeshUpdate.Download.{chunk_bytes, piece, chunk_written}
use edge_pdl.MeshUpdate.Request.{awaiting, request_lem}

-- What the server answers to the request that is waited for.
abbrev pub answer : List ℕ → Update → Payload
answer image s = record {
  hdr = record no_header { msg_id = s.msg_id; len = 8 + s.chunk_len };
  content = chunk_bytes s.chunk_offset (piece image s);
}

-- Two cycles that ask for a chunk, its reception and the cycle that writes it.
abbrev pub round : List ℕ → (Update → DownloadAnswers) → Update → Option Update
round image world s =
    (process_download (world s) s >>= λ a. process_download (world s) a.2) >>= λ b.
    (parse_server_response (answer image b.2) b.2 >>= process_download (world b.2)) >>= λ c.
    some c.2

-- Rounds up to the end of the file.
abbrev pub transfer : ℕ → List ℕ → (Update → DownloadAnswers) → Update → Option Update
transfer zero image world s = some s
transfer (suc n) image world s = round image world s >>= λ t.
    let rest = transfer n image world t in if leb t.size t.chunk_offset then some t else rest

All-take : (n : ℕ) (xs : List ℕ) → AllBytes xs → AllBytes (take n xs)
All-take zero xs h = tt
All-take (suc n) [] h = tt
All-take (suc n) (x ∷ xs) h = (h.0, All-take n xs h.1)

All-drop : (n : ℕ) (xs : List ℕ) → AllBytes xs → AllBytes (drop n xs)
All-drop zero xs h = h
All-drop (suc n) [] h = tt
All-drop (suc n) (x ∷ xs) h = All-drop n xs h.1

take_all : (xs : List ℕ) → take (length xs) xs ≡ xs
take_all [] = refl
take_all (x ∷ xs) = ap (λ t. x ∷ t) (take_all xs)

module _ (image : List ℕ) (world : Update → DownloadAnswers) (h : ComHeader) (c : ℕ)
    (bytes : AllBytes image) (word : length image < 2 ^ 32)
    (known : (s : Update) → (world s).header ≡ some h) (fits : h.dev_id.len ≤ length h.dev_id.id)
    (short : h.dev_id.len ≤ 8) (size : (s : Update) → (world s).chunk_size ≡ c) (some_bytes : 0 < c)
    (room : 8 + c ≤ 233) (sent : (s : Update) → 0 < (world s).sent_id)
    (ok : (s : Update) → (world s).write_ok ≡ true)
    (all : (s : Update) → (world s).bytes_written ≡ s.chunk_len) where
  abbrev chunk_len_of : Update → ℕ
  chunk_len_of s = min (world s).chunk_size (s.size - s.chunk_offset)

  -- One round adds the next piece, and asks for another one or for the verification.
  round_lem :
      (s : Update)
      → s.download ≡ download_idle
      → s.size ≡ length image
      → s.chunk_offset < s.size
      → length s.buf ≡ 233
      → s.file ≡ take s.chunk_offset image
      → (t : Update) × (round image world s ≡ some t)
        × (t.size ≡ s.size)
        × (t.chunk_offset ≡ s.chunk_offset + chunk_len_of s)
        × (length t.buf ≡ 233)
        × (t.file ≡ take t.chunk_offset image)
        × (t.download ≡ (if leb t.size t.chunk_offset then verify else download_idle))
  round_lem s idle whole left full held =
      let small : (world s).chunk_size < 2 ^ 16 = omega (arith, size s, room) in
      let fit : s.size < 2 ^ 32 = omega (arith, whole, word) in
      let asked =
        request_lem (world s) (world s) s h idle left fit full (known s) fits short small
          (sent s) in
      let now : Update =
        awaiting (world s) (world s) s h idle left fit full (known s) fits short small (sent s) in
      let answered =
        chunk_written image [] (answer image now) (world now) now refl refl refl
          (sym (append-nil (chunk_bytes now.chunk_offset (piece image now))))
          (All-take now.chunk_len (drop now.chunk_offset image)
            (All-drop now.chunk_offset image bytes))
          (omega (arith, whole, left)) (omega (arith, whole, word, left))
          (omega (arith, size s, room)) refl (ok now) (all now) held in
      rw (asked, answered.2) (_, refl, refl, refl, answered.1, refl, refl)

  -- A server that answers each request with the piece of the image that it asks for, each of 1 to 225
  -- bytes, and a file system that writes what it is given: from an idle download that holds the image
  -- up to its offset, as many rounds as there are bytes left are enough for the file to be the image
  -- and to be verified next, with no access out of range.
  pub download_completes :
      (n : ℕ) (s : Update)
      → s.download ≡ download_idle
      → s.size ≡ length image
      → s.chunk_offset < s.size
      → length s.buf ≡ 233
      → s.file ≡ take s.chunk_offset image
      → s.size ≤ s.chunk_offset + n
      → (t : Update) × (transfer n image world s ≡ some t)
        × (t.download ≡ verify)
        × (t.file ≡ image)
  download_completes zero s idle whole left full held fuel = absurd (omega (arith, left, fuel))
  download_completes (suc n) s idle whole left full held fuel =
      let (t, e, same, moved, full₂, held₂, next) = round_lem s idle whole left full held in
      elim (Bool-cases (leb t.size t.chunk_offset)) [
        | inl end ↦ (
          t,
          rw (e, end) refl,
          next ∙ ap (λ b. if b then verify else download_idle) end,
          held₂
              ∙ ap (λ k. take k image) (at_end s t whole left same moved (leb→le _ _ end))
              ∙ take_all image,
        )
        | inr more ↦
            let (u, f, verified, holds) =
              download_completes n t (next ∙ ap (λ b. if b then verify else download_idle) more)
                (same ∙ whole) (ground (arith, more)) full₂ held₂
                (omega (arith, fuel, same, moved, left, size s, some_bytes)) in
            (u, rw (e, more) f, verified, holds)
      ]
    where
      at_end :
          (s t : Update)
          → s.size ≡ length image
          → s.chunk_offset < s.size
          → t.size ≡ s.size
          → t.chunk_offset ≡ s.chunk_offset + chunk_len_of s
          → t.size ≤ t.chunk_offset
          → t.chunk_offset ≡ length image
      at_end s t whole left same moved end = omega (arith, whole, left, same, moved, end)
