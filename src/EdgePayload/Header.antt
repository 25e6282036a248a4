-- ===== src/EdgePayload/Header.antt =====
-- edge_payload.c, the common header: edgePayloadInit, edgePayloadInitComHeader and
-- edgePayloadComHeader2Buf, and what the encoders of the payloads share.
use edge_pdl.Prelude.{ℕ, ◌+◌, ◌/◌, ◌%◌, ◌^◌, ◌≤◌, Option, none, some, ◌>>=◌}
use edge_pdl.Prelude.{true, if◌then◌else◌, ltb, leb, ◌==◌, List, [], ◌∷◌, ◌++◌}
use edge_pdl.Prelude.{
  length, inl, inr, leb→le, le→leb, length-drop, drop-append, Bool-cases, length-append, take, drop,
  length-take, replicate, ◌≡◌, refl, sym, ap, ◌∙◌, arith,
}
use edge_pdl.Prelude.{take-append}
use edge_pdl.Buffer.{
  Writer, put_all, put_all-append, put_all_then, put_all_lem, read_bytes, read_bytes-take, at,
}

-- K_PAYLOAD_MAX_DEV_ID_LEN, and K_DEV_ID_LEN of device_id.h
abbrev pub max_dev_id_len : ℕ
max_dev_id_len = 8

abbrev pub device_id_len : ℕ
device_id_len = 6

-- EP_PROTOCOL_VER_LINEAR11 and EP_DEVICE_TYPE_PDL
abbrev pub payload_protocol_ver : ℕ
payload_protocol_ver = 0x02

abbrev pub payload_device_type : ℕ
payload_device_type = 0x0b

-- `ep_dev_id_st`: the array has `max_dev_id_len` bytes, of which `len` are meant.
pub record DevId : Type 0 where
  pub len : ℕ
  pub id : List ℕ

-- `ep_com_header_st`; the `int32_t` timestamp is the number below 2 ^ 32 with its bits.
pub record ComHeader : Type 0 where
  pub protocol_ver : ℕ
  pub dev_type : ℕ
  pub dev_id : DevId
  pub timestamp : ℕ

-- edgePayloadInit; `device_id` is what get_device_id fills in, and the result is the pair of
-- statics `ui8_dev_id_len` and `aui8_dev_id`.
pub init : List ℕ → Option DevId
init device_id =
    let zeros = replicate max_dev_id_len 0 in
    let n = if ltb max_dev_id_len device_id_len then max_dev_id_len else device_id_len in
    do bytes ← read_bytes n device_id; some (record { len = n; id = bytes ++ drop n zeros })

-- edgePayloadInitComHeader over the statics and the header that it overwrites. The copy into the
-- array of the header is a fault where it would leave the array.
pub init_com_header : DevId → ComHeader → ℕ → Option ComHeader
init_com_header self header timestamp = do
  bytes ← read_bytes self.len self.id
  w ← put_all bytes (record { buf = header.dev_id.id; end = 0 })
  some (record {
    protocol_ver = payload_protocol_ver;
    dev_type = payload_device_type;
    dev_id = record { len = self.len; id = w.buf };
    timestamp = timestamp;
  })

-- The bytes of a word, lsb first.
abbrev pub le_bytes16 : ℕ → List ℕ
le_bytes16 x = (x % 256) ∷ (x / 2 ^ 8 % 256) ∷ []

abbrev pub le_bytes32 : ℕ → List ℕ
le_bytes32 x = (x % 256) ∷ (x / 2 ^ 8 % 256) ∷ (x / 2 ^ 16 % 256) ∷ (x / 2 ^ 24 % 256) ∷ []

-- What an encoder leaves: the buffer, and what it stored through `psz_res_len`. It returns true
-- exactly where it stores a length.
pub record Encoded : Type 0 where
  pub buf : List ℕ
  pub res_len : Option ℕ

-- The end of every encoder: `if ((size_t)(pui8_end - pui8_buf) == sz_req_len)`
pub finish : ℕ → Writer → Encoded
finish req w = record { buf = w.buf; res_len = if w.end == req then some req else none }

-- The length that every encoder starts from.
abbrev pub header_len : ComHeader → ℕ
header_len h = 1 + 1 + 1 + h.dev_id.len + 4

-- The writes of edgePayloadComHeader2Buf.
pub write_header : ComHeader → Writer → Option Writer
write_header h w = do
  w ← put_all ((h.protocol_ver % 256) ∷ (h.dev_type % 256) ∷ h.dev_id.len ∷ []) w
  id ← read_bytes h.dev_id.len h.dev_id.id
  w ← put_all id w
  put_all (le_bytes32 h.timestamp) w

-- edgePayloadComHeader2Buf; `none` is an access out of range.
pub com_header_to_buf : List ℕ → ℕ → ComHeader → Option Encoded
com_header_to_buf buf buf_len h =
    let req = header_len h in
    if leb req buf_len
    then write_header h (record { buf = buf; end = 0 }) >>= (λ w. some (finish req w))
    else some (record { buf = buf; res_len = none })

-- The payload's own bytes follow a header that was written, at `pui8_end += sz_hdr_len`.
pub after_header : ℕ → (Writer → Option Writer) → Encoded → Option Encoded
after_header req body e = elim e.res_len [
  | none ↦ some e
  | some hdr_len ↦ body (record { buf = e.buf; end = hdr_len }) >>= (λ w. some (finish req w))
]

-- What the payload encoders do once `sz_req_len` is known: the test of the buffer's length, the
-- header, the payload's own bytes, and the end.
pub with_header : List ℕ → ℕ → ℕ → ComHeader → (Writer → Option Writer) → Option Encoded
with_header buf buf_len req h body =
    if leb req buf_len
    then com_header_to_buf buf buf_len h >>= after_header req body
    else some (record { buf = buf; res_len = none })

-- The bytes that stand for a header whose device id fits its array.
abbrev pub header_bytes : ComHeader → List ℕ
header_bytes h =
    (h.protocol_ver % 256) ∷ (h.dev_type % 256) ∷ h.dev_id.len ∷ take h.dev_id.len h.dev_id.id
    ++ le_bytes32 h.timestamp

-- The buffer with the bytes at its start, and their number.
abbrev pub filled : List ℕ → List ℕ → Encoded
filled bytes buf = record { buf = bytes ++ drop (length bytes) buf; res_len = some (length bytes) }

-- What an encoder promises: the bytes where they fit, and else a buffer that nothing touched.
abbrev pub encoded : List ℕ → ℕ → List ℕ → Encoded
encoded buf buf_len bytes =
    if leb (length bytes) buf_len then filled bytes buf else record { buf = buf; res_len = none }

write_header-put_all :
    (h : ComHeader) (w : Writer)
    → h.dev_id.len ≤ length h.dev_id.id
    → write_header h w ≡ put_all (header_bytes h) w
unfolding write_header
write_header-put_all h w fits =
    put_all_then ((h.protocol_ver % 256) ∷ (h.dev_type % 256) ∷ h.dev_id.len ∷ []) _ _ w λ v.
      rw (read_bytes-take h.dev_id.len h.dev_id.id fits)
        (put_all-append (take h.dev_id.len h.dev_id.id) (le_bytes32 h.timestamp) v)

-- The writes of `bytes` from the end of what is `done`, and the test at the end.
finish_lem :
    (bytes done rest : List ℕ) (req : ℕ) (run : Writer → Option Writer)
    → ((w : Writer) → run w ≡ put_all bytes w)
    → req ≡ length (done ++ bytes)
    → length bytes ≤ length rest
    → (run (at done rest) >>= λ w. some (finish req w))
      ≡ some (record { buf = (done ++ bytes) ++ drop (length bytes) rest; res_len = some req })
unfolding finish
finish_lem bytes done rest req run same size room =
    rw (same (at done rest), put_all_lem bytes done rest room) (ground (arith, size))

pub length-header_bytes :
    (h : ComHeader) → h.dev_id.len ≤ length h.dev_id.id → header_len h ≡ length (header_bytes h)
length-header_bytes h fits = omega (
  arith,
  length-append (take h.dev_id.len h.dev_id.id) (le_bytes32 h.timestamp),
  length-take h.dev_id.len h.dev_id.id,
)

module _ (buf : List ℕ) (buf_len : ℕ) (h : ComHeader) (room : buf_len ≤ length buf)
    (fits : h.dev_id.len ≤ length h.dev_id.id) where
  -- The header encoder keeps its promise, and reads and writes only inside its arrays.
  pub com_header_to_buf_lem :
      com_header_to_buf buf buf_len h ≡ some (encoded buf buf_len (header_bytes h))
  unfolding com_header_to_buf
  com_header_to_buf_lem =
      rw (← length-header_bytes h fits) (elim (Bool-cases (leb (header_len h) buf_len)) [
        | inl enough ↦ rw enough (
            finish_lem (header_bytes h) [] buf (header_len h) (write_header h)
              (λ w. write_header-put_all h w fits) (length-header_bytes h fits)
              (omega (arith, leb→le _ _ enough, length-header_bytes h fits)))
        | inr short ↦ rw short
      ])

  -- An encoder that writes `bytes` after the header, and has counted them, keeps its promise.
  pub with_header_lem :
      (bytes : List ℕ) (req : ℕ) (body : Writer → Option Writer)
      → ((w : Writer) → body w ≡ put_all bytes w)
      → req ≡ length (header_bytes h ++ bytes)
      → with_header buf buf_len req h body ≡ some (encoded buf buf_len (header_bytes h ++ bytes))
  unfolding with_header after_header
  with_header_lem bytes req body same size = rw (← size) (elim (Bool-cases (leb req buf_len)) [
    | inl enough ↦
        rw (enough, com_header_to_buf_lem, header_enough enough)
          (finish_lem bytes (header_bytes h) (drop (length (header_bytes h)) buf) req body same size
              (omega (
                arith,
                length-drop (length (header_bytes h)) buf,
                length-append (header_bytes h) bytes,
                leb→le _ _ enough,
              ))
            ∙ ap (λ t. some (record { buf = (header_bytes h ++ bytes) ++ t; res_len = some req }))
                (sym (drop-append (header_bytes h) bytes buf)))
    | inr short ↦ rw short
  ])
    where
      header_enough : leb req buf_len ≡ true → leb (length (header_bytes h)) buf_len ≡ true
      header_enough e =
          le→leb _ _ (omega (arith, leb→le _ _ e, length-append (header_bytes h) bytes))

-- From a device id of at least 6 bytes, edgePayloadInit and then edgePayloadInitComHeader make the
-- header with its first 6 bytes as the id; the last two bytes of the header's array are kept.
pub init_com_header_lem :
    (device_id : List ℕ) (h : ComHeader) (timestamp : ℕ)
    → 6 ≤ length device_id
    → 6 ≤ length h.dev_id.id
    → (init device_id >>= λ self. init_com_header self h timestamp)
      ≡ some (record {
        protocol_ver = 0x02;
        dev_type = 0x0b;
        dev_id = record { len = 6; id = take 6 device_id ++ drop 6 h.dev_id.id };
        timestamp = timestamp;
      })
unfolding init init_com_header
init_com_header_lem device_id h timestamp known fits =
    rw
      (
        read_bytes-take 6 device_id known,
        read_bytes-take 6 (take 6 device_id ++ (0 ∷ 0 ∷ []))
            (omega (arith, id_len, length-append (take 6 device_id) (0 ∷ 0 ∷ []))),
        take-append_le,
        put_all_lem (take 6 device_id) [] h.dev_id.id (omega (arith, id_len)),
        id_len,
      )
      refl
  where
    id_len : length (take 6 device_id) ≡ 6
    id_len = omega (arith, length-take 6 device_id)

    take-append_le : take 6 (take 6 device_id ++ (0 ∷ 0 ∷ [])) ≡ take 6 device_id
    take-append_le =
        ap (λ n. take n (take 6 device_id ++ (0 ∷ 0 ∷ []))) (sym id_len)
        ∙ take-append (take 6 device_id) (0 ∷ 0 ∷ [])
